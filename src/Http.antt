-- ===== src/Http.antt =====
-- src/bridge/http_sync.rs: the requests of a script, their cookies and their errors. The crates url,
-- cookie and cookie_store are the parameter `net`. A header map is an association list; the names of
-- headers are ASCII. A body is the text that its bytes encode.
pub mod Follow
pub mod Run
use fusillade.Prelude.{
  ℕ, ◌+◌, Bool, true, false, not, ◌&&◌, ◌||◌, List, [], ◌∷◌, ◌++◌, Option, none, some, Text, codes,
  text_eq, byte_len, starts_with, show_ℕ, to_lower, map, ltb, leb, ◌==◌, if◌then◌else◌, insert,
  text_key, get_or, contains, bind, Result, ok, err,
}
use fusillade.Stats.Types.{RequestTimings}

-- What the crates are asked for: addresses, and the cookies of a worker.
pub record Net : Type 1 where
  pub Url : Type 0
  pub parse_url : Text → Option Url
  pub join : Url → Text → Option Url
  pub to_string : Url → Text
  pub host_str : Url → Option Text
  pub port_or_known_default : Url → Option ℕ
  pub Cookie : Type 0
  pub parse_cookie : Text → Option Cookie
  pub Jar : Type 0
  -- the names and values of the cookies for an address
  pub matches : Jar → Url → List (Text × Text)
  pub store : List Cookie → Url → Jar → Jar

abbrev pub Headers : Type 0
Headers = List (Text × Text)

-- A request as it goes out.
pub record Request : Type 0 where
  pub method : Text
  pub url : Text
  pub headers : Headers
  pub body : Option Text

-- `SyncHttpResponse`
pub record Response : Type 0 where
  pub status : ℕ
  pub status_text : Text
  pub body : Text
  pub headers : Headers
  pub timings : RequestTimings
  pub proto : Text
  pub set_cookie_headers : List Text
  pub error : Option Text
  pub error_code : Option Text

unfoldable pub status_text_for_code : ℕ → Text
status_text_for_code code =
    if code == 200
    then codes "OK"
    else if code == 201
    then codes "Created"
    else if code == 204
    then codes "No Content"
    else if code == 301
    then codes "Moved Permanently"
    else if code == 302
    then codes "Found"
    else if code == 304
    then codes "Not Modified"
    else if code == 400
    then codes "Bad Request"
    else if code == 401
    then codes "Unauthorized"
    else if code == 403
    then codes "Forbidden"
    else if code == 404
    then codes "Not Found"
    else if code == 405
    then codes "Method Not Allowed"
    else if code == 408
    then codes "Request Timeout"
    else if code == 429
    then codes "Too Many Requests"
    else if code == 500
    then codes "Internal Server Error"
    else if code == 502
    then codes "Bad Gateway"
    else if code == 503
    then codes "Service Unavailable"
    else if code == 504
    then codes "Gateway Timeout"
    else if code == 0
    then codes "Network Error"
    else []

-- `to_lowercase`, where the result is searched for words of ASCII letters: besides A to Z only the Kelvin
-- sign and the dotted I are lowered to texts with such a letter.
unfoldable pub lower : Text → Text
lower [] = []
lower (c ∷ cs) =
    if c == 0x212A
    then b'k' ∷ lower cs
    else if c == 0x130
    then b'i' ∷ 0x307 ∷ lower cs
    else to_lower c ∷ lower cs

-- the type and the code of an error, by words of its message
unfoldable pub categorize_error : Text → Text × Text
unfolding contains lower
categorize_error error =
    let l = lower error in
    if contains l (codes "timed out") || contains l (codes "timeout")
    then (codes "TIMEOUT", codes "ETIMEDOUT")
    else if contains l (codes "dns")
        || contains l (codes "resolve")
        || contains l (codes "getaddrinfo")
    then (codes "DNS", codes "ENOTFOUND")
    else if contains l (codes "certificate") || contains l (codes "ssl") || contains l (codes "tls")
    then (codes "TLS", codes "ECERT")
    else if contains l (codes "connection refused")
    then (codes "CONNECT", codes "ECONNREFUSED")
    else if contains l (codes "reset")
    then (codes "RESET", codes "ECONNRESET")
    else if contains l (codes "broken pipe")
    then (codes "RESET", codes "EPIPE")
    else (codes "NETWORK", codes "ENETWORK")

-- `eq_ignore_ascii_case`; the second text is in lower case.
abbrev pub is_named : Text → Text → Bool
is_named name word = text_eq (map to_lower name) word

-- `headers.iter().find_map(…)`: the value under a name, in any case
unfoldable pub header : Text → Headers → Option Text
header word [] = none
header word ((k, v) ∷ hs) = if is_named k word then some v else header word hs

-- `headers.retain(…)`: the headers that speak of a body are dropped.
unfoldable pub without_content : Headers → Headers
without_content [] = []
without_content ((k, v) ∷ hs) =
    let rest = without_content hs in
    if not (is_named k (codes "content-type")) && not (is_named k (codes "content-length"))
    then (k, v) ∷ rest
    else rest

-- `existing.push_str("; ")`, and the cookies behind it
unfoldable pub append_cookies : Text → Headers → Headers
append_cookies cookies [] = []
append_cookies cookies ((k, v) ∷ hs) =
    if is_named k (codes "cookie")
    then (k, v ++ (codes "; " ++ cookies)) ∷ hs
    else (k, v) ∷ append_cookies cookies hs

-- the cookies as `name=value`, joined by "; "
unfoldable pub cookie_text : List (Text × Text) → Text
cookie_text [] = []
cookie_text ((name, value) ∷ []) = name ++ (b'=' ∷ value)
cookie_text ((name, value) ∷ c ∷ cs) =
    name ++ (b'=' ∷ value) ++ (codes "; " ++ cookie_text (c ∷ cs))

unfoldable pub add_cookies : List (Text × Text) → Headers → Headers
unfolding header cookie_text append_cookies
add_cookies [] hs = hs
add_cookies (c ∷ cs) hs = elim (header (codes "cookie") hs) [
  | some _ ↦ append_cookies (cookie_text (c ∷ cs)) hs
  | none ↦ insert (codes "Cookie") (cookie_text (c ∷ cs)) hs
]

-- `size += k.len() + 2 + v.len() + 2` for each header
unfoldable pub headers_size : Headers → ℕ
headers_size [] = 0
headers_size ((k, v) ∷ hs) = byte_len k + 2 + byte_len v + 2 + headers_size hs

unfoldable pub estimate_request_size : Text → Text → Headers → ℕ → ℕ
unfolding headers_size
estimate_request_size method url hs body_len =
    body_len + (byte_len method + 1 + byte_len url + 11) + headers_size hs + 2

module _ (net : Net) where
  open net use {Jar, parse_url, join, to_string, matches, parse_cookie, store}

  unfoldable pub apply_jar_cookies : Jar → Text → Headers → Headers
  unfolding add_cookies
  apply_jar_cookies jar url hs = elim (parse_url url) [
    | none ↦ hs
    | some parsed ↦ add_cookies (matches jar parsed) hs
  ]

  unfoldable pub parse_cookies : List Text → List net.Cookie
  parse_cookies [] = []
  parse_cookies (h ∷ hs) = elim (parse_cookie h) [
    | none ↦ parse_cookies hs
    | some c ↦ c ∷ parse_cookies hs
  ]

  unfoldable pub store_response_cookies : Text → List Text → Jar → Jar
  unfolding parse_cookies
  store_response_cookies url [] jar = jar
  store_response_cookies url (h ∷ hs) jar = elim (parse_url url) [
    | none ↦ jar
    | some parsed ↦ store (parse_cookies (h ∷ hs)) parsed jar
  ]

  -- The next address, and whether the method becomes GET.
  unfoldable pub redirect_target : ℕ → Option Text → Text → Option (Text × Bool)
  redirect_target status location current_url =
      if (leb 301 status && leb status 303) || status == 307 || status == 308
      then bind (parse_url current_url) (λ base.
        bind location (λ l.
          bind (join base l) (λ next. some (to_string next, leb 301 status && leb status 303))))
      else none
