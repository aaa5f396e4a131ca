-- ===== src/Http/Follow.antt =====
-- `run_bridge_request` and `execute_ureq_request` of src/bridge/http_sync.rs: a request and the redirects
-- that it meets, over the bridge to hyper and over the agent of ureq. What a server answers, and what
-- a clock reads, may depend on all requests that were sent.
use fusillade.Prelude.{
  ℕ, ◌+◌, Bool, true, false, not, ◌&&◌, ◌||◌, List, [], ◌∷◌, ◌++◌, Option, none, some, Text, codes,
  text_eq, text_key, show_ℕ, ltb, if◌then◌else◌, insert, get_or,
}
use fusillade.Stats.Types.{RequestTimings, Metric, Tags, request}
use fusillade.Group.{metric_name}
use fusillade.Http.{
  Net, Headers, Request, Response, status_text_for_code, categorize_error, header, without_content,
  apply_jar_cookies, redirect_target, lower,
}

-- What the loop has to send.
pub record Hop : Type 0 where
  pub method : Text
  pub current_url : Text
  pub headers : Headers
  pub body : Option Text
  pub hops : ℕ

-- A worker's jar, the hosts that it has been connected to, and the requests that it has sent.
pub record Worker (J : Type 0) : Type 0 where
  pub jar : J
  pub seen_hosts : List Text
  pub sent : List Request

-- An answer as hyper gives it: a value that is not text is `none`.
pub record HyperResponse : Type 0 where
  pub status : ℕ
  pub headers : List (Text × Option Text)
  pub body : Text
  pub timings : RequestTimings

-- An answer as ureq gives it, the ones with an error status included.
pub record UreqResponse : Type 0 where
  pub status : ℕ
  pub headers_names : List Text
  pub header : Text → Option Text
  pub into_string : Option Text

pub record Clock : Type 0 where
  -- since the start, and for the last request and the last body
  pub elapsed : List Request → ℕ
  pub waiting : List Request → ℕ
  pub receiving : List Request → ℕ

-- What the call is for, and how its metric is named.
pub record Call : Type 0 where
  pub max_redirects : ℕ
  pub response_sink : Bool
  pub group : Text
  pub name_tag : Option Text
  pub url : Text
  pub tags : Tags

abbrev pub no_timings : RequestTimings
no_timings = record {
  blocked = 0;
  connecting = 0;
  tls_handshaking = 0;
  sending = 0;
  waiting = 0;
  receiving = 0;
  duration = 0;
  response_size = 0;
  request_size = 0;
  pool_reused = false;
}

abbrev is_set_cookie : Text → Bool
is_set_cookie name = text_eq (lower name) (codes "set-cookie")

-- The two loops over the headers of an answer: all of them, and the cookies among them.
unfoldable pub collect : List (Text × Option Text) → Headers → Headers
collect [] acc = acc
collect ((k, v) ∷ hs) acc = collect hs (insert k (get_or v []) acc)

unfoldable pub cookies_of : List (Text × Option Text) → List Text
cookies_of [] = []
cookies_of ((k, v) ∷ hs) = if is_set_cookie k then get_or v [] ∷ cookies_of hs else cookies_of hs

unfoldable pub hyper_response_to_sync : HyperResponse → Response
unfolding collect cookies_of
hyper_response_to_sync r = record {
  status = r.status;
  status_text = status_text_for_code r.status;
  body = r.body;
  headers = collect r.headers [];
  timings = r.timings;
  proto = codes "h2";
  set_cookie_headers = cookies_of r.headers;
  error = none;
  error_code = none;
}

-- `if let Some(val) = response.header(&name)`
unfoldable pub present : List Text → (Text → Option Text) → List (Text × Option Text)
present [] value = []
present (k ∷ ks) value = elim (value k) [
  | none ↦ present ks value
  | some v ↦ (k, some v) ∷ present ks value
]

-- The answer to an error: the status is 0, and the body is the message.
unfoldable pub failed_response : RequestTimings → Text → Response
failed_response timings message = record {
  status = 0;
  status_text = status_text_for_code 0;
  body = message;
  headers = [];
  timings = timings;
  proto = codes "h1";
  set_cookie_headers = [];
  error = some (categorize_error message).0;
  error_code = some (categorize_error message).1;
}

abbrev pub metric_of : {F : Type 0} → Call → RequestTimings → ℕ → Option Text → Metric F
metric_of call timings status error =
    request (metric_name call.group call.name_tag call.url) timings status error call.tags

-- The hop after a redirect: a method that becomes GET loses its body.
unfoldable pub redirected : Text → Bool → Hop → Hop
redirected next_url collapse_to_get h =
    let h' = record h { current_url = next_url; hops = h.hops + 1 } in
    if collapse_to_get
      && not (text_eq h.method (codes "GET"))
      && not (text_eq h.method (codes "HEAD"))
    then record h' { method = codes "GET"; body = none; headers = without_content h.headers }
    else h'

unfoldable pub has : Text → List Text → Bool
has key [] = false
has key (k ∷ ks) = text_eq k key || has key ks

module _ (net : Net) where
  open net use {Jar, parse_url, host_str, port_or_known_default}

  -- whether a redirect is followed, and to where
  unfoldable pub follow : ℕ → ℕ → Headers → Hop → Option Hop
  unfolding redirected
  follow max_redirects status hs h =
      if ltb h.hops max_redirects
      then elim (redirect_target net status (header (codes "location") hs) h.current_url) [
        | none ↦ none
        | some (next, collapse) ↦ some (redirected next collapse h)
      ]
      else none

  unfoldable pub request_of : Hop → Jar → Request
  request_of h jar = record {
    method = h.method;
    url = h.current_url;
    headers = apply_jar_cookies net jar h.current_url h.headers;
    body = h.body;
  }

  -- A host counts as connected to once it has been seen.
  unfoldable pub pool_reuse_heuristic : Text → List Text → Bool × List Text
  pool_reuse_heuristic url seen = elim (parse_url url) [
    | none ↦ (false, seen)
    | some parsed ↦
        let key =
          get_or (host_str parsed) []
          ++ (b':' ∷ show_ℕ (get_or (port_or_known_default parsed) 0)) in
        if has key seen then (true, seen) else (false, key ∷ seen)
  ]
