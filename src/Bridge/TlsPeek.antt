-- ===== src/Bridge/TlsPeek.antt =====
-- `OnTlsPeek` of TlsCapableHttpBridge.hpp: the server's name in a TLS client hello. A `size_t` has 64
-- bits and an `int` 32, and a `char` is signed.
pub mod Reading
pub mod Endless
pub mod Hello
pub mod Found
pub mod Answer
use http_filtering_engine.Base.{
  Bytes, ℕ, zero, suc, ◌+◌, ◌-◌, ◌*◌, ◌%◌, Bool, true, false, not, ◌&&◌, ◌||◌, if◌then◌else◌,
  Option, some, none, ltb, leb, ◌==◌, length, take, drop, get_or,
}
use http_filtering_engine.Http.State.{warning, error}
use http_filtering_engine.Bridge.State.{Completion, Bridge, resolve, Turn, say, give_up}
use http_filtering_engine.Bridge.Reading.{is_error}
use http_filtering_engine.Bridge.Requests.{service}

-- `TlsPeekBufferSize` and `MinTlsHelloLength`.
abbrev tls_peek_buffer_size : ℕ
tls_peek_buffer_size = 16384

abbrev pub min_tls_hello_length : ℕ
min_tls_hello_length = 43

abbrev size_mod : ℕ
size_mod = 18446744073709551616

-- A sum of type `size_t`.
unfoldable pub add_size : ℕ → ℕ → ℕ
add_size a b = (a + b) % size_mod

-- `size_t(c)` for a `char` that has the bits of `c`.
unfoldable pub size_of_char : ℕ → ℕ
size_of_char c = if ltb c 128 then c else size_mod - 256 + c

-- `size_t((h << 8) | l)` for two of type `char`, which are promoted to `int`: a negative `l` has all
-- its higher bits set.
unfoldable pub size_of_pair : ℕ → ℕ → ℕ
size_of_pair h l =
    if ltb l 128
    then (if ltb h 128 then h * 256 + l else size_mod - 65536 + (h * 256 + l))
    else size_mod - 256 + l

-- What the walk comes to: the name, no name, a check of bounds that failed, an index that the buffer
-- does not have, or no end within the fuel.
pub data Walk : Type 0 where
  named : Bytes → Walk
  unnamed out_of_bounds bad_index endless : Walk

-- `WithinBounds`, with the number of bytes that are valid.
unfoldable pub within_bounds : ℕ → ℕ → Bool
within_bounds n position = not (leb tls_peek_buffer_size position) && not (ltb n position)

-- Where the walk is in the extensions: at the head of one, or at a part of the names, with the length
-- of the extension that has them.
pub data Place : Type 0 where
  extension : ℕ → Place
  part : ℕ → ℕ → Place

-- What one round of a loop comes to.
pub data Stride : Type 0 where
  stop : Walk → Stride
  go_on : Place → Stride

-- An index into the buffer, whose bytes behind the valid ones are zero.
unfoldable pub reading : Bytes → ℕ → (ℕ → Stride) → Stride
reading bytes i k = if ltb i tls_peek_buffer_size then k (get_or bytes i 0) else stop bad_index

unfoldable pub reading_pair : Bytes → ℕ → (ℕ → Stride) → Stride
unfolding reading size_of_pair add_size
reading_pair bytes i k =
    reading bytes i (λ h. reading bytes (add_size i 1) (λ l. k (size_of_pair h l)))

unfoldable pub checked : ℕ → ℕ → Stride → Stride
unfolding within_bounds
checked n position s = if within_bounds n position then s else stop out_of_bounds

-- `hostName.substr(position, count)` of the valid bytes.
unfoldable pub name_at : Bytes → ℕ → ℕ → Walk
name_at bytes position count =
    if count == 0 then unnamed else named (take count (drop position bytes))

-- A round of the loop over the parts of the names. Behind the last part the walk goes on by the
-- length of the extension.
unfoldable pub part_round : Bytes → ℕ → ℕ → Stride
unfolding checked reading reading_pair add_size name_at
part_round bytes position size =
    if ltb position (length bytes)
    then checked (length bytes) (add_size position 3) (
        reading_pair bytes (add_size position 1) (λ count. reading bytes position (λ kind.
          if kind == 0
          then stop (name_at bytes (add_size position 3) count)
          else go_on (part (add_size position (add_size 3 count)) size))))
    else go_on (extension (add_size position size))

-- A round of the loop over the extensions.
unfoldable pub extension_round : Bytes → ℕ → Stride
unfolding checked reading_pair add_size
extension_round bytes position =
    let body = add_size position 4 in
    if ltb position (length bytes)
    then checked (length bytes) (add_size position 4) (
        reading_pair bytes position (λ kind. reading_pair bytes (add_size position 2) (λ size.
          if kind == 0
          then checked (length bytes) (add_size (add_size body 2) 4)
              (go_on (part (add_size body 2) size))
          else go_on (extension (add_size body size)))))
    else stop unnamed

unfoldable pub walk_round : Bytes → Place → Stride
unfolding part_round extension_round
walk_round bytes (extension position) = extension_round bytes position
walk_round bytes (part position size) = part_round bytes position size

-- Both loops, as rounds from a place on.
unfoldable pub walk_loop : ℕ → Bytes → Place → Walk
unfolding walk_round
walk_loop zero bytes place = endless
walk_loop (suc fuel) bytes place = elim (walk_round bytes place) [
  | stop w ↦ w
  | go_on next ↦ walk_loop fuel bytes next
]

-- The fields between the head and the extensions, each with its length in front, up to the place of
-- the first extension.
unfoldable pub hello_fields : Bytes → Stride
unfolding checked reading reading_pair add_size size_of_char
hello_fields bytes =
    let n = length bytes in
    reading bytes min_tls_hello_length (λ c.
      let p1 = add_size min_tls_hello_length (add_size (size_of_char c) 1) in
      checked n (add_size p1 1) (
        reading_pair bytes p1 (λ suites.
          let p2 = add_size p1 (add_size suites 2) in
          checked n p2 (
            reading bytes p2 (λ d.
              let p3 = add_size p2 (add_size (size_of_char d) 1) in
              checked n (add_size p3 1) (
                reading_pair bytes p3 (λ extensions.
                  let p4 = add_size p3 2 in checked n p4 (go_on (extension p4)))))))))

unfoldable pub walk_hello : ℕ → Bytes → Walk
unfolding hello_fields walk_loop
walk_hello fuel bytes = elim (hello_fields bytes) [
  | stop w ↦ w
  | go_on place ↦ walk_loop fuel bytes place
]

-- The tests on the head: the protocol's version, as of type `char`, and the kinds of record and of
-- message.
unfoldable pub is_tls_version : Bytes → Bool
is_tls_version bytes =
    let major = get_or bytes 1 0 in
    let minor = get_or bytes 2 0 in
    (major == 3 && ltb 0 minor && ltb minor 128) || (ltb 3 minor && ltb minor 128)

unfoldable pub is_client_hello : Bytes → Bool
is_client_hello bytes = get_or bytes 0 0 == 22 && get_or bytes 5 0 == 1

-- What follows the walk; `none` where it has not ended, or has no defined result.
unfoldable pub after_walk : Walk → Bridge → Option Turn
after_walk (named name) b =
    some (record b { upstream_host = name; upstream_host_port = 443 }, resolve name (service true))
after_walk unnamed b = some (give_up (say error b))
after_walk out_of_bounds b = some (give_up b)
after_walk bad_index b = none
after_walk endless b = none

-- `OnTlsPeek`, with the bytes that were peeked.
unfoldable pub on_tls_peek : ℕ → Completion → Bytes → Bridge → Option Turn
unfolding is_tls_version is_client_hello walk_hello after_walk
on_tls_peek fuel e bytes b =
    if is_error e
    then some (give_up (say error b))
    else if not (ltb min_tls_hello_length (length bytes))
    then some (give_up b)
    else if not (is_tls_version bytes)
    then some (give_up (say warning b))
    else if not (is_client_hello bytes)
    then some (give_up (say warning b))
    else after_walk (walk_hello fuel bytes) b
