-- ===== src/Http/Status.antt =====
-- `HttpResponse::StatusCodeToMessage` and `HttpResponse::StatusCode`.
use http_filtering_engine.Base.{
  Bytes, ℕ, [], ◌∷◌, ◌++◌, List, codes, if◌then◌else◌, ◌==◌, Option, some, none,
}
use http_filtering_engine.Text.Digits.{to_string}
use http_filtering_engine.Http.State.{
  HttpProtocolVersion, http1, http1_1, http2, Transaction, request, response, Result, ok, thrown,
  ◌>>=◌,
}

-- The cases of the switch.
unfoldable status_messages : List (ℕ × Bytes)
status_messages =
    (100, codes "Continue")
    ∷ (101, codes "Switching Protocols")
    ∷ (102, codes "Processing")
    ∷ (200, codes "OK")
    ∷ (201, codes "Created")
    ∷ (202, codes "Accepted")
    ∷ (203, codes "Non-Authoritative Information")
    ∷ (204, codes "No Content")
    ∷ (205, codes "Reset Content")
    ∷ (206, codes "Partial Content")
    ∷ (207, codes "Multi-Status")
    ∷ (208, codes "Already Reported")
    ∷ (226, codes "IM Used")
    ∷ (300, codes "Multiple Choices")
    ∷ (301, codes "Moved Permanently")
    ∷ (302, codes "Found")
    ∷ (303, codes "See Other")
    ∷ (304, codes "Not Modified")
    ∷ (305, codes "Use Proxy")
    ∷ (306, codes "Switch Proxy")
    ∷ (307, codes "Temporary Redirect")
    ∷ (308, codes "Permanent Redirect")
    ∷ (400, codes "Bad Request")
    ∷ (401, codes "Unauthorized")
    ∷ (402, codes "Payment Required")
    ∷ (403, codes "Forbidden")
    ∷ (404, codes "Not Found")
    ∷ (405, codes "Method Not Allowed")
    ∷ (406, codes "Not Acceptable")
    ∷ (407, codes "Proxy Authentication Required")
    ∷ (408, codes "Request Timeout")
    ∷ (409, codes "Conflict")
    ∷ (410, codes "Gone")
    ∷ (411, codes "Length Required")
    ∷ (412, codes "Precondition Failed")
    ∷ (413, codes "Request Entity Too Large")
    ∷ (414, codes "Request-URI Too Long")
    ∷ (415, codes "Unsupported Media Type")
    ∷ (416, codes "Requested Range Not Satisfiable")
    ∷ (417, codes "Expectation Failed")
    ∷ (418, codes "I'm a teapot")
    ∷ (419, codes "Authentication Timeout")
    ∷ (420, codes "Method Failure")
    ∷ (422, codes "Unprocessable Entity")
    ∷ (423, codes "Locked")
    ∷ (424, codes "Failed Dependency")
    ∷ (426, codes "Upgrade Required")
    ∷ (428, codes "Precondition Required")
    ∷ (429, codes "Too Many Requests")
    ∷ (431, codes "Request Header Fields Too Large")
    ∷ (440, codes "Login Timeout")
    ∷ (444, codes "No Response")
    ∷ (449, codes "Retry With")
    ∷ (450, codes "Blocked by Windows Parental Controls")
    ∷ (451, codes "Unavailable For Legal Reasons")
    ∷ (494, codes "Request Header Too Large")
    ∷ (495, codes "Cert Error")
    ∷ (496, codes "No Cert")
    ∷ (497, codes "HTTP to HTTPS")
    ∷ (498, codes "Token expired/invalid")
    ∷ (499, codes "Client Closed Request")
    ∷ (500, codes "Internal Server Error")
    ∷ (501, codes "Not Implemented")
    ∷ (502, codes "Bad Gateway")
    ∷ (503, codes "Service Unavailable")
    ∷ (504, codes "Gateway Timeout")
    ∷ (505, codes "HTTP Version Not Supported")
    ∷ (506, codes "Variant Also Negotiates")
    ∷ (508, codes "Loop Detected")
    ∷ (509, codes "Bandwidth Limit Exceeded")
    ∷ (510, codes "Not Extended")
    ∷ (598, codes "Network read timeout error")
    ∷ (599, codes "Network connect timeout error")
    ∷ []

unfoldable find_message : ℕ → List (ℕ × Bytes) → Option Bytes
find_message code [] = none
find_message code ((c, message) ∷ rest) = if code == c then some message else find_message code rest

-- `StatusCodeToMessage`; it throws on a code that it does not know.
unfoldable pub status_code_to_message : ℕ → Result Bytes
unfolding status_messages find_message
status_code_to_message code = elim (find_message code status_messages) [
  | none ↦ thrown
  | some message ↦ ok message
]

-- The protocol's name as the start line gives it.
unfoldable pub version_string : HttpProtocolVersion → Bytes
version_string http1 = codes "HTTP/1.0"
version_string http1_1 = codes "HTTP/1.1"
version_string http2 = codes "HTTP/2.0"

-- The setter `StatusCode(code)`. A request has no status.
unfoldable pub set_status_code : ℕ → Transaction → Result Transaction
unfolding status_code_to_message version_string to_string
set_status_code code t = elim t.kind [
  | request uri method ↦ ok t
  | response old text ↦ do
    message ← status_code_to_message code
    ok (record t {
      kind =
          response code
            (version_string t.http_version ++ (b' ' ∷ (to_string code ++ (b' ' ∷ message))));
    })
]
