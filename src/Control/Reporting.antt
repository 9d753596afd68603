-- ===== src/Control/Reporting.antt =====
-- src/te/httpengine/util/cb/EventReporter.hpp, which the parts of the engine derive from, without
-- debug checks. A callback is a number, or none for a null pointer.
use http_filtering_engine.Base.{Bytes, ℕ, List, [], ◌∷◌, Option, some, none, ◌≡◌, refl}

pub record EventReporter : Type 0 where
  pub on_info : Option ℕ
  pub on_warning : Option ℕ
  pub on_error : Option ℕ

-- The constructor and the setters.
unfoldable new_event_reporter : Option ℕ → Option ℕ → Option ℕ → EventReporter
new_event_reporter info warning error = record {
  on_info = info;
  on_warning = warning;
  on_error = error;
}

unfoldable set_on_info : Option ℕ → EventReporter → EventReporter
set_on_info f r = record r { on_info = f }

unfoldable set_on_warning : Option ℕ → EventReporter → EventReporter
set_on_warning f r = record r { on_warning = f }

unfoldable set_on_error : Option ℕ → EventReporter → EventReporter
set_on_error f r = record r { on_error = f }

-- A call of a callback with a text, if neither is a null pointer.
unfoldable call_with : Option ℕ → Option Bytes → List (ℕ × Bytes)
call_with none message = []
call_with (some f) none = []
call_with (some f) (some text) = (f, text) ∷ []

-- The calls that are made for a message; `none` is a `string_ref` of a null pointer.
unfoldable report_information : Option Bytes → EventReporter → List (ℕ × Bytes)
unfolding call_with
report_information message r = call_with r.on_info message

unfoldable report_warning : Option Bytes → EventReporter → List (ℕ × Bytes)
unfolding call_with
report_warning message r = call_with r.on_warning message

unfoldable report_failed : Option Bytes → EventReporter → List (ℕ × Bytes)
unfolding call_with
report_failed message r = call_with r.on_error message

-- A setter changes its own reports, and no others.
set_on_info-reports :
    (f : ℕ) (text : Bytes) (message : Option Bytes) (r : EventReporter)
    → (report_information (some text) (set_on_info (some f) r) ≡ (f, text) ∷ [])
      × (report_information message (set_on_info none r) ≡ [])
      × (report_warning message (set_on_info (some f) r) ≡ report_warning message r)
      × (report_failed message (set_on_info (some f) r) ≡ report_failed message r)
      × (report_information message (set_on_warning (some f) (set_on_error (some f) r))
          ≡ report_information message r)
unfolding set_on_info set_on_warning set_on_error report_information report_warning report_failed
set_on_info-reports f text message r = (refl, refl, refl, refl, refl)
