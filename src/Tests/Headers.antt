-- ===== src/Tests/Headers.antt =====
-- The header operations and the header callbacks at concrete inputs.
use http_filtering_engine.Base.{
  true, false, [], ◌∷◌, none, ◌≡◌, refl, codes, arith, bytes_eq, to_upper,
}
use http_filtering_engine.Http.Headers.{IsSorted, keep}
use http_filtering_engine.Http.Edit.{add_header, get_header, remove_header_value, has_value}
use http_filtering_engine.Http.Edit.Distinct.{IsDistinct}
use http_filtering_engine.Http.Edit.Removal.{remove_header_value_diverges}
use http_filtering_engine.Http.Callbacks.{parse}
use http_filtering_engine.Http.Callbacks.Whole.{deliver, Gains, deliver-Gains}
use http_filtering_engine.Text.Compare.{less, same, c_str}
use http_filtering_engine.Tests.Library.{toy, two_headers}
use http_filtering_engine.Http.State.{Transaction, new_response, new_request, ok}
use http_filtering_engine.Http.Headers.{insert, equal_range}
use http_filtering_engine.Http.Callbacks.{
  run_callbacks, check_parsed, dispatch, on_message_begin, on_headers_complete, on_header_field,
  on_header_value, take_field, enter_value,
}

two_headers-IsSorted : IsSorted two_headers.headers
unfolding less
two_headers-IsSorted = ((refl, tt), (tt, tt))

two_headers-IsDistinct : IsDistinct toy two_headers.headers
unfolding same bytes_eq to_upper
two_headers-IsDistinct = ((λ e. ground arith, tt), (tt, tt))

remove_header_value_diverges_example :
    remove_header_value toy 100 (codes "Host") (codes "c") two_headers ≡ none
remove_header_value_diverges_example =
    remove_header_value_diverges toy 100 (codes "Host") (codes "c") two_headers
      (unfold get_header less c_str bytes_eq to_upper in refl)

deliver-Gains_example :
    ((deliver toy (codes "Via" ∷ codes "-x" ∷ []) (codes "c" ∷ codes "de" ∷ []) two_headers).1
      ≡ true)
    × Gains
        (codes "Via-x")
        (codes "cde")
        two_headers
        (deliver toy (codes "Via" ∷ codes "-x" ∷ []) (codes "c" ∷ codes "de" ∷ []) two_headers).0
deliver-Gains_example =
    deliver-Gains toy (codes "Via") (codes "-x" ∷ []) (codes "c") (codes "de" ∷ []) two_headers
      two_headers-IsSorted refl refl (refl, tt) (unfold keep same has_value in refl)

-- The response after a parse: the header of the parser's callbacks alone.
abbrev parsed : Transaction
parsed = record two_headers {
  headers = (codes "Host", codes "a.b") ∷ [];
  last_header = codes "Host";
  last_header_value_fresh = false;
  last_header_field_fresh = true;
  headers_complete = true;
  payload_complete = false;
}

parse-two_headers : parse toy 3 two_headers ≡ ok (parsed, true)
unfolding parse run_callbacks check_parsed dispatch on_message_begin on_headers_complete
    on_header_field on_header_value take_field enter_value new_response new_request add_header
    has_value insert equal_range
parse-two_headers = refl
