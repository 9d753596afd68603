-- ===== src/Diversion/Loop/Turns.antt =====
-- What a turn of the loop of `WinDiverter::RunDiversion` makes of its packet.
use http_filtering_engine.Base.{
  ℕ, Bool, true, false, not, ◌&&◌, if◌then◌else◌, Option, none, some, ◌≡◌, refl, sym, ap, ◌∙◌, ◌⊎◌,
  inl, inr,
}
use http_filtering_engine.Diversion.State.{
  Diverter, Packet, TcpHeader, Addresses, Words, Direction, inbound, outbound,
}
use http_filtering_engine.Http.Results.{by_if, by_option}
use http_filtering_engine.Diversion.Process.{System}
use http_filtering_engine.Diversion.Packets.{
  Turn, Rewritten, swapped, rewrite_v4, rewrite_v6, rewrite_any_v4, rewrite_any_v6, rewrite,
  answer_ports, divert_ports, from_proxy, to_web, is_local_v4, note_connection, is_socks_payload,
  divert_packet, run_turn, filtered_v4,
}

-- The addresses of a header that is there, exchanged.
unfoldable pub exchanged {ℓ} : {A : Type ℓ} → Option (Addresses A) → Option (Addresses A)
exchanged none = none
exchanged (some a) = some (swapped a)

-- The flags of a TCP header that is there.
unfoldable pub syn_of : Option TcpHeader → Option ℕ
syn_of none = none
syn_of (some tcp) = some tcp.syn

-- What is sent on for a packet: its payload and its flags, with the addresses of either header as
-- they were or exchanged; if anything else than the direction of a packet that goes on as it came
-- is changed, all checksums are replaced.
pub record IsForward (p : Packet) (r : Rewritten) : Type 0 where
  pub same_payload : r.0.payload ≡ p.payload
  pub same_syn : syn_of r.0.tcp ≡ syn_of p.tcp
  pub same_v4 : (r.0.ipv4 ≡ p.ipv4) ⊎ (r.0.ipv4 ≡ exchanged p.ipv4)
  pub same_v6 : (r.0.ipv6 ≡ p.ipv6) ⊎ (r.0.ipv6 ≡ exchanged p.ipv6)
  pub checked : (r.0 ≡ p) ⊎ ((r.1 ≡ true) × (r.0.direction ≡ inbound))

as_is : (p : Packet) (modified : Bool) → IsForward p (p, modified)
as_is p modified = record {
  same_payload = refl;
  same_syn = refl;
  same_v4 = inl refl;
  same_v6 = inl refl;
  checked = inl refl;
}

-- A change of ports keeps the flags.
turned_v4 :
    (p : Packet) (tcp after : TcpHeader) (a : Addresses ℕ)
    → p.tcp ≡ some tcp
    → p.ipv4 ≡ some a
    → after.syn ≡ tcp.syn
    → IsForward p
        (record p { direction = inbound; ipv4 = some (swapped a); tcp = some after }, true)
unfolding exchanged syn_of
turned_v4 p tcp after a t i h = record {
  same_payload = refl;
  same_syn = ap some h ∙ ap syn_of (sym t);
  same_v4 = inr (ap exchanged (sym i));
  same_v6 = inl refl;
  checked = inr (refl, refl);
}

turned_v6 :
    (p : Packet) (r : Rewritten) (tcp after : TcpHeader) (a : Addresses Words)
    → IsForward p r
    → r.0.tcp ≡ some tcp
    → p.ipv6 ≡ some a
    → after.syn ≡ tcp.syn
    → IsForward p
        (record r.0 { direction = inbound; ipv6 = some (swapped a); tcp = some after }, true)
unfolding exchanged syn_of
turned_v6 p r tcp after a f t i h = record {
  same_payload = f.same_payload;
  same_syn = ap some h ∙ (ap syn_of (sym t) ∙ f.same_syn);
  same_v4 = f.same_v4;
  same_v6 = inr (ap exchanged (sym i));
  checked = inr (refl, refl);
}

answer_ports-syn : (d : Diverter) (tcp : TcpHeader) → (answer_ports d tcp).syn ≡ tcp.syn
unfolding answer_ports
answer_ports-syn d tcp = refl

divert_ports-syn : (d : Diverter) (tcp : TcpHeader) → (divert_ports d tcp).syn ≡ tcp.syn
unfolding divert_ports
divert_ports-syn d tcp = refl

rewrite_v4-IsForward :
    (d : Diverter) (tcp : TcpHeader) (a : Addresses ℕ) (p : Packet) (modified : Bool)
    → p.tcp ≡ some tcp
    → p.ipv4 ≡ some a
    → IsForward p (rewrite_v4 d tcp a (p, modified))
unfolding rewrite_v4
rewrite_v4-IsForward d tcp a p modified t i =
    by_if (IsForward p) (from_proxy d tcp) _ _
      (turned_v4 p tcp (answer_ports d tcp) a t i (answer_ports-syn d tcp))
      (by_if (IsForward p) (to_web tcp && d.v4_should_filter tcp.src_port) _ _
        (turned_v4 p tcp (divert_ports d tcp) a t i (divert_ports-syn d tcp)) (as_is p modified))

rewrite_v6-IsForward :
    (d : Diverter) (tcp : TcpHeader) (a : Addresses Words) (p : Packet) (r : Rewritten)
    → IsForward p r
    → r.0.tcp ≡ some tcp
    → p.ipv6 ≡ some a
    → IsForward p (rewrite_v6 d tcp a r)
unfolding rewrite_v6
rewrite_v6-IsForward d tcp a p (q, modified) f t i =
    by_if (IsForward p) (from_proxy d tcp) _ _
      (turned_v6 p (q, modified) tcp (answer_ports d tcp) a f t i (answer_ports-syn d tcp))
      (by_if (IsForward p) (to_web tcp && d.v6_should_filter tcp.src_port) _ _
        (turned_v6 p (q, modified) tcp (divert_ports d tcp) a f t i (divert_ports-syn d tcp)) f)

any_v4-IsForward :
    (d : Diverter) (tcp : TcpHeader) (o : Option (Addresses ℕ)) (p : Packet) (modified : Bool)
    → p.tcp ≡ some tcp
    → p.ipv4 ≡ o
    → IsForward p (rewrite_any_v4 d tcp o (p, modified))
unfolding rewrite_any_v4
any_v4-IsForward d tcp none p modified t i = as_is p modified
any_v4-IsForward d tcp (some a) p modified t i = rewrite_v4-IsForward d tcp a p modified t i

any_v6-IsForward :
    (d : Diverter) (h : Option TcpHeader) (o : Option (Addresses Words)) (p : Packet)
    (r : Rewritten)
    → IsForward p r
    → r.0.tcp ≡ h
    → p.ipv6 ≡ o
    → IsForward p (rewrite_any_v6 d h o r)
unfolding rewrite_any_v6
any_v6-IsForward d h none p r f t i = f
any_v6-IsForward d none (some a) p r f t i = f
any_v6-IsForward d (some tcp) (some a) p r f t i = rewrite_v6-IsForward d tcp a p r f t i

rewrite-IsForward :
    (d : Diverter) (tcp : TcpHeader) (p : Packet) (modified : Bool)
    → p.tcp ≡ some tcp
    → IsForward p (rewrite d tcp (p, modified))
unfolding rewrite
rewrite-IsForward d tcp p modified t =
    any_v6-IsForward d _ _ p _ (any_v4-IsForward d tcp _ p modified t refl) refl refl

-- What a turn does with its packet: it is sent on, or it asks for a SOCKS connection and the build
-- blocks these.
unfoldable pub Handled : Bool → (ℕ → ℕ) → Packet → Option Rewritten → Type 0
Handled block_tor outside p none = (block_tor ≡ true) × (is_socks_payload outside p ≡ true)
Handled block_tor outside p (some r) = IsForward p r

by_both :
    {B : Type 0} (P : B → Type 0) (a b : Bool) (x y : B)
    → (a ≡ true → b ≡ true → P x)
    → P y
    → P (if a && b then x else y)
by_both P true true x y h k = h refl refl
by_both P true false x y h k = k
by_both P false b x y h k = k

divert_packet-Handled :
    (block_tor : Bool) (outside : ℕ → ℕ) (tcp : TcpHeader) (p : Packet) (d : Diverter)
    → p.tcp ≡ some tcp
    → Handled block_tor outside p (divert_packet block_tor outside tcp p d).1
unfolding divert_packet Handled
divert_packet-Handled block_tor outside tcp p d t =
    let P = λ (r : Diverter × Option Rewritten). Handled block_tor outside p r.1 in
    by_if P (not (is_local_v4 d tcp p)) _ _ (rewrite-IsForward d tcp p (filtered_v4 d tcp p) t) (
      by_both P block_tor (is_socks_payload outside p) _ _ (λ b i. (b, i))
        (as_is p (filtered_v4 d tcp p)))

by_direction :
    {B : Type 0} (P : B → Type 0) (d : Direction) (x y : B)
    → P x
    → P y
    → P (elim d [ inbound ↦ x | outbound ↦ y ])
by_direction P inbound x y h k = h
by_direction P outbound x y h k = k

pub run_turn-Handled :
    (block_tor : Bool) (os : System) (outside : ℕ → ℕ) (p : Packet) (s : Turn)
    → Handled block_tor outside p (run_turn block_tor os outside p s).1
unfolding run_turn Handled
run_turn-Handled block_tor os outside p s =
    let P = λ (r : Turn × Option Rewritten). Handled block_tor outside p r.1 in
    by_direction P p.direction _ _ (as_is p false) (
      by_option P p.tcp _ _ (λ i. as_is p false)
        (λ tcp t.
          divert_packet-Handled block_tor outside tcp p (note_connection os tcp p s).diverter t))
