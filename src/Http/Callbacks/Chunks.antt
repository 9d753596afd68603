-- ===== src/Http/Callbacks/Chunks.antt =====
-- OnChunkHeader, OnBody and OnChunkComplete against a reader of chunked bodies by RFC 7230.
use http_filtering_engine.Base.{
  join, Bytes, ℕ, zero, suc, true, false, [], ◌∷◌, ◌++◌, List, ltb, ◌==◌, ◌≡◌, refl, sym, ◌∙◌, ap,
  arith, append-nil, append_assoc, All, crlf, length, take, drop, take-append_length,
  drop-append_length, length-append, Option, some, none,
}
use http_filtering_engine.External.{Library, Parser, Execution, Callback}
use http_filtering_engine.External
use http_filtering_engine.Text.Digits.{
  to_hex, read_number, read_number-to_hex, to_hex-IsDigit, IsDigit,
}
use http_filtering_engine.Http.State.{Transaction, ok}
use http_filtering_engine.Http.Head.RoundTrip.{until, expect, until-Lacks, Lacks}
use http_filtering_engine.Http.Callbacks.{
  run_callbacks, dispatch, on_chunk_header, on_chunk_complete, on_body,
}
use http_filtering_engine.Http.Callbacks.Whole.{NonEmpty}

-- The callbacks for a chunk whose data comes in pieces, and for a body of chunks, with the empty
-- chunk that ends it.
abbrev body_callbacks : Parser → List Bytes → List Callback
body_callbacks p [] = []
body_callbacks p (text ∷ texts) =
    (record { parser = p; stops_at = 0; event = External.body text }) ∷ body_callbacks p texts

abbrev chunk_callbacks : Parser → List Bytes → List Callback → List Callback
chunk_callbacks p texts rest =
    let q = record p { content_length = length (join texts) } in
    (record { parser = q; stops_at = 0; event = External.chunk_header })
    ∷ (body_callbacks q texts
        ++ ((record { parser = q; stops_at = 0; event = External.chunk_complete }) ∷ rest))

abbrev pub chunked_callbacks : Parser → List (List Bytes) → List Callback
chunked_callbacks p [] = chunk_callbacks p [] []
chunked_callbacks p (texts ∷ chunks) = chunk_callbacks p texts (chunked_callbacks p chunks)

-- A chunk by RFC 7230: its length in base 16, and its data.
abbrev frame : Bytes → Bytes
frame text = to_hex (length text) ++ (crlf ++ (text ++ crlf))

abbrev frames : List (List Bytes) → Bytes
frames [] = frame []
frames (texts ∷ chunks) = frame (join texts) ++ frames chunks

-- The length line of a chunk.
unfoldable read_length : Bytes → Option (ℕ × Bytes)
unfolding read_number
read_length text = elim (until b'\r' text) [
  | none ↦ none
  | some (digits, r) ↦ elim (read_number 16 digits) [
    | none ↦ none
    | some n ↦ elim (expect b'\r' r) [
      | none ↦ none
      | some r1 ↦ elim (expect b'\n' r1) [ none ↦ none | some r2 ↦ some (n, r2) ]
    ]
  ]
]

unfoldable read_crlf : Bytes → Option Bytes
read_crlf text = elim (expect b'\r' text) [ none ↦ none | some r ↦ expect b'\n' r ]

-- The reader of a chunked body without trailers: the data and what follows the body.
unfoldable pub read_chunks : ℕ → Bytes → Option (Bytes × Bytes)
unfolding read_length read_crlf
read_chunks zero text = none
read_chunks (suc fuel) text = elim (read_length text) [
  | none ↦ none
  | some (n, r) ↦ elim (n == 0) [
    | true ↦ elim (read_crlf r) [ none ↦ none | some rest ↦ some ([], rest) ]
    | false ↦ elim (ltb (length r) n) [
      | true ↦ none
      | false ↦ elim (read_crlf (drop n r)) [
        | none ↦ none
        | some r1 ↦ elim (read_chunks fuel r1) [
          | none ↦ none
          | some (more, rest) ↦ some (take n r ++ more, rest)
        ]
      ]
    ]
  ]
]

read_crlf-crlf : (rest : Bytes) → read_crlf (crlf ++ rest) ≡ some rest
unfolding read_crlf expect
read_crlf-crlf rest = refl

digits-Lacks : (ds : Bytes) → All IsDigit ds → Lacks b'\r' ds
digits-Lacks [] h = tt
digits-Lacks (d ∷ ds) h = (h.0.0, digits-Lacks ds h.1)

read_length-line :
    (n : ℕ) (rest : Bytes) → read_length (to_hex n ++ (crlf ++ rest)) ≡ some (n, rest)
unfolding read_length
read_length-line n rest =
    rw
      (
        read_length,
        until-Lacks b'\r' (to_hex n) (b'\n' ∷ rest) (digits-Lacks (to_hex n) (to_hex-IsDigit n)),
        read_number-to_hex n,
      )
      (unfold expect in refl)

frame-append :
    (text rest : Bytes)
    → frame text ++ rest ≡ to_hex (length text) ++ (crlf ++ (text ++ (crlf ++ rest)))
frame-append text rest =
    append_assoc (to_hex (length text)) (crlf ++ (text ++ crlf)) rest
    ∙ ap (λ r. to_hex (length text) ++ (crlf ++ r)) (append_assoc text crlf rest)

holds_length : (a b : Bytes) → ltb (length (a ++ b)) (length a) ≡ false
holds_length a b = ground (arith, length-append a b)

nonzero_length : (a : Bytes) → NonEmpty a → (length a == 0) ≡ false
nonzero_length a h = ground arith

read_chunks-frame :
    (fuel : ℕ) (text rest more end : Bytes)
    → NonEmpty text
    → read_chunks fuel rest ≡ some (more, end)
    → read_chunks (suc fuel) (frame text ++ rest) ≡ some (text ++ more, end)
unfolding read_chunks
read_chunks-frame fuel text rest more end n h = rw (frame-append text rest) (
    rw
      (
        read_chunks,
        read_length-line (length text) (text ++ (crlf ++ rest)),
        nonzero_length text n,
        holds_length text (crlf ++ rest),
        drop-append_length text (crlf ++ rest),
        read_crlf-crlf rest,
        h,
        take-append_length text (crlf ++ rest),
      )
      refl)

read_chunks-last :
    (fuel : ℕ) (rest : Bytes) → read_chunks (suc fuel) (frame [] ++ rest) ≡ some ([], rest)
unfolding read_chunks
read_chunks-last fuel rest =
    rw (frame-append [] rest)
      (rw (read_chunks, read_length-line 0 (crlf ++ rest), read_crlf-crlf rest) refl)

-- The data of the chunks.
abbrev all_joined : List (List Bytes) → Bytes
all_joined [] = []
all_joined (texts ∷ chunks) = join texts ++ all_joined chunks

read_chunks-frames :
    (chunks : List (List Bytes))
    → All (λ texts. NonEmpty (join texts)) chunks
    → read_chunks (suc (length chunks)) (frames chunks) ≡ some (all_joined chunks, [])
read_chunks-frames [] h = rw (sym (append-nil (frame []))) (read_chunks-last 0 [])
read_chunks-frames (texts ∷ chunks) h =
    read_chunks-frame (suc (length chunks)) (join texts) (frames chunks) (all_joined chunks) [] h.0
      (read_chunks-frames chunks h.1)

-- The transaction with more payload, under a parser.
abbrev grown : Parser → Bytes → Transaction → Transaction
grown p text t = record t { parser = p; payload = t.payload ++ text }

module _ (lib : Library) (run : Execution) where
  run_body :
      (p : Parser) (texts : List Bytes) (rest : List Callback) (text : Bytes) (t : Transaction)
      → run_callbacks lib run (body_callbacks p texts ++ rest) (grown p text t)
        ≡ run_callbacks lib run rest (grown p (text ++ join texts) t)
  unfolding run_callbacks dispatch on_body
  run_body p [] rest text t =
      ap (λ r. run_callbacks lib run rest (grown p r t)) (sym (append-nil text))
  run_body p (x ∷ texts) rest text t =
      ap
        (λ r.
          run_callbacks lib run (body_callbacks p texts ++ rest)
            (record t { parser = p; payload = r }))
        (append_assoc t.payload text x)
      ∙ run_body p texts rest (text ++ x) t
      ∙ ap (λ r. run_callbacks lib run rest (grown p r t)) (append_assoc text x (join texts))

  run_chunk :
      (p : Parser) (texts : List Bytes) (rest : List Callback) (t : Transaction)
      → run_callbacks lib run (chunk_callbacks p texts rest) t
        ≡ run_callbacks lib run rest
            (grown (record p { content_length = length (join texts) }) (frame (join texts)) t)
  unfolding run_callbacks dispatch on_chunk_header on_chunk_complete
  run_chunk p texts rest t =
      let q = record p { content_length = length (join texts) } in
      let head = to_hex (length (join texts)) ++ crlf in
      let last : List Callback =
        (record { parser = q; stops_at = 0; event = External.chunk_complete }) ∷ rest in
      run_body q texts last head t
      ∙ ap (λ r. run_callbacks lib run rest (record t { parser = q; payload = r }))
          (append_assoc t.payload (head ++ join texts) crlf
            ∙ ap (◌++◌ t.payload) (
                append_assoc head (join texts) crlf
                ∙ append_assoc (to_hex (length (join texts))) crlf (join texts ++ crlf)))

  run_chunks :
      (p : Parser) (chunks : List (List Bytes)) (t : Transaction)
      → run_callbacks lib run (chunked_callbacks p chunks) t
        ≡ ok (record (grown p (frames chunks) t) { parser = run.parser }, run.nparsed)
  run_chunks p [] t = run_chunk p [] [] t ∙ unfold run_callbacks in refl
  run_chunks p (texts ∷ chunks) t =
      let q = record p { content_length = length (join texts) } in
      run_chunk p texts (chunked_callbacks p chunks) t
      ∙ run_chunks p chunks (grown q (frame (join texts)) t)
      ∙ ap (λ r. ok (record t { parser = run.parser; payload = r }, run.nparsed))
          (append_assoc t.payload (frame (join texts)) (frames chunks))

-- A chunked body is kept as one. For chunks that are not empty, each with its data passed in any
-- number of pieces, and the empty chunk behind them, http_parser's callbacks all return 0, and put
-- behind the payload a text that a reader of chunked bodies by RFC 7230 reads to its end: it finds
-- the data of the chunks, in order.
pub chunks_read_back :
    (lib : Library) (run : Execution) (p : Parser) (chunks : List (List Bytes)) (t : Transaction)
    → All (λ texts. NonEmpty (join texts)) chunks
    → (t' : Transaction) × (run_callbacks lib run (chunked_callbacks p chunks) t
        ≡ ok (t', run.nparsed))
      × (read_chunks (suc (length chunks)) (drop (length t.payload) t'.payload)
          ≡ some (all_joined chunks, []))
chunks_read_back lib run p chunks t h = (
  record (grown p (frames chunks) t) { parser = run.parser },
  run_chunks lib run p chunks t,
  rw (drop-append_length t.payload (frames chunks)) (read_chunks-frames chunks h),
)
