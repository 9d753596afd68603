-- ===== src/Http/Head/Keeps.antt =====
-- Predicates through the status and the head, which write the subclass's members and the version.
use http_filtering_engine.Base.{Bytes, ℕ, is_empty}
use http_filtering_engine.External.{Library}
use http_filtering_engine.Http.State.{Transaction, Kind, HttpProtocolVersion}
use http_filtering_engine.Http.Status.{set_status_code, status_code_to_message}
use http_filtering_engine.Http.Results.{Holds, Holds-bind, Holds-any, by_kind, by_if}
use http_filtering_engine.Http.Head.{on_url, on_status, with_status, headers_to_string}

module _ (P : Transaction → Type 0)
    (kept : (t : Transaction) (k : Kind) (v : HttpProtocolVersion)
      → P t
      → P (record t { kind = k; http_version = v })) where
  set_status_code-Holds : (code : ℕ) (t : Transaction) → P t → Holds P (set_status_code code t)
  unfolding set_status_code
  set_status_code-Holds code t s =
      by_kind (Holds P) t.kind _ _ (λ _ _. s)
        (λ _ _.
          Holds-bind (λ _. Unit) P (status_code_to_message code) _
            (Holds-any (status_code_to_message code)) (λ _ _. kept t _ t.http_version s))

  pub on_status-Holds : (t : Transaction) → P t → Holds P (on_status t)
  unfolding on_status
  on_status-Holds t s =
      by_kind (Holds P) t.kind _ _ (λ _ _. s)
        (λ _ _. set_status_code-Holds t.parser.status_code _ (kept t t.kind _ s))

  pub on_url-Holds : (at : Bytes) (t : Transaction) → P t → P (on_url at t)
  unfolding on_url
  on_url-Holds at t s = by_kind P t.kind _ _ (λ _ _. kept t _ _ s) (λ _ _. s)

  with_status-Holds : (t : Transaction) → P t → Holds P (with_status t)
  unfolding with_status
  with_status-Holds t s =
      by_kind (Holds P) t.kind _ _ (λ _ _. s)
        (λ code text. by_if (Holds P) (is_empty text) _ _ (on_status-Holds t s) s)

  pub headers_to_string-Holds :
      (lib : Library) (t : Transaction) → P t → Holds (λ r. P r.0) (headers_to_string lib t)
  unfolding headers_to_string
  headers_to_string-Holds lib t s =
      Holds-bind P (λ r. P r.0) (with_status t) _ (with_status-Holds t s) (λ t' h. h)
