-- ===== src/Tests/Requests.antt =====
-- The theorems on HTTP requests, server-sent events and WebSockets at concrete inputs.
use fusillade.Prelude.{
  ℕ, ◌≡◌, ◌<◌, ◌≤◌, refl, Bool, true, false, List, [], ◌∷◌, ◌++◌, none, some, Text, codes, length,
  Result, ok, err, join, map, ltb, if◌then◌else◌, trim, trim_start, trim_end, trim_newlines,
  is_whitespace,
}
use fusillade.Tests.{timings}
use fusillade.Http.{Net, Headers, Request}
use fusillade.Http.Follow.{HyperResponse, UreqResponse, Clock, Call, Worker}
use fusillade.Http.Run.{first_hop, run_bridge_request, execute_ureq_request}
use fusillade.Http.Run.Hops.{Ends, requests-end}
use fusillade.Sse.{timed_out, make_metric, recv}
use fusillade.Sse.Events.{printed}
use fusillade.Sse.Client.{recv-printed, recv-interrupted, lines}
use fusillade.Ws.{Sockets, WebSocket, ensure_connected}
use fusillade.Ws.Reconnect.{delays, ensure_connected-tries}

-- Addresses are texts, and a jar gives all cookies to each of them.
abbrev net : Net
net = record {
  Url = Text;
  parse_url = some;
  join = λ base next. some next;
  to_string = λ u. u;
  host_str = some;
  port_or_known_default = λ _. some 80;
  Cookie = Text;
  parse_cookie = some;
  Jar = List (Text × Text);
  matches = λ jar _. jar;
  store = λ cookies _ jar. map (λ c. (c, c)) cookies ++ jar;
}

abbrev clock : Clock
clock = record { elapsed = length; waiting = length; receiving = length }

abbrev call : Call
call = record {
  max_redirects = 2;
  response_sink = false;
  group = codes "login";
  name_tag = none;
  url = codes "http://a/";
  tags = [];
}

-- The first request is redirected, with a cookie.
abbrev moved : List Request → Bool
moved sent = ltb (length sent) 2

abbrev bridge : List Request → Result HyperResponse Text
bridge sent = ok (record {
  status = if moved sent then 303 else 200;
  headers =
      (codes "location", some (codes "http://b/")) ∷ (codes "set-cookie", some (codes "s")) ∷ [];
  body = codes "hello";
  timings = timings;
})

abbrev agent : List Request → Result UreqResponse Text
agent sent = ok (record {
  status = if moved sent then 303 else 200;
  headers_names = codes "location" ∷ codes "set-cookie" ∷ [];
  header = λ name. if ltb (length name) 9 then some (codes "http://b/") else some (codes "s");
  into_string = some (codes "hello");
})

abbrev worker : Worker (List (Text × Text))
worker = record { jar = []; seen_hosts = []; sent = [] }

abbrev post : Text
post = codes "POST"

abbrev content : Headers
content = (codes "Content-Type", codes "text/plain") ∷ []

requests-end_example :
    Ends net {F = ℕ} call post content
      (some (codes "x"))
      3
      (first_hop call post content (some (codes "x")))
      worker
      (run_bridge_request net clock call bridge post content (some (codes "x")) worker)
    × Ends net {F = ℕ} call post content
        (some (codes "x"))
        3
        (first_hop call post content (some (codes "x")))
        worker
        (execute_ureq_request net clock call agent post content (some (codes "x")) worker)
requests-end_example =
    requests-end ℕ net clock call bridge agent post content (some (codes "x")) worker

recv-printed_example :
    recv {F = ℕ} 7 (
      some (record {
        reader = printed none (codes "a" ∷ codes "b" ∷ []) (some (codes "9")) [];
        last_event_id = none;
      }))
    ≡ (
      some (record {
        event = codes "message";
        content = join (codes "\n") (codes "a" ∷ codes "b" ∷ []);
        id = some (codes "9");
      }),
      make_metric (codes "sse::recv") none 7 ∷ [],
      some (record { reader = []; last_event_id = some (codes "9") }),
    )
unfolding trim trim_start trim_end is_whitespace
recv-printed_example =
    recv-printed ℕ 7 none none (codes "a") (codes "b" ∷ []) (some (codes "9")) [] tt
      (((refl, tt), refl), (((refl, tt), refl), tt)) ((refl, tt), refl)

-- The first line of an event is lost when the read times out behind it.
recv-interrupted_example :
    recv {F = ℕ} 7 (
      some (record {
        reader =
            lines
              (codes "data: a\n" ∷ [])
              (err (timed_out (codes "timed out")) ∷ ok (codes "data: b\n") ∷ []);
        last_event_id = none;
      }))
    ≡ (
      none,
      make_metric (codes "sse::recv") (some (codes "SSE Read Error: timed out")) 7 ∷ [],
      some (record { reader = ok (codes "data: b\n") ∷ []; last_event_id = none }),
    )
unfolding trim_newlines
recv-interrupted_example =
    recv-interrupted ℕ 7 none (codes "data: a\n" ∷ []) (timed_out (codes "timed out"))
      (ok (codes "data: b\n") ∷ []) (λ e. cc, tt)

-- A socket is its number. The server has closed each of them.
abbrev sockets : Sockets
sockets = record {
  S = ℕ;
  send = λ _ s. (s, ok tt);
  read = λ s. (s, err (codes "Connection closed normally"));
  decode = ok;
  encode = λ t. t;
}

abbrev gone : WebSocket ℕ sockets
gone = record {
  inner = none;
  reconnect = true;
  max_retries = 3;
  outcomes = err (codes "refused") ∷ ok 8 ∷ [];
  metrics = [];
  slept = [];
}

ensure_connected-tries_example :
    let (w', connected) = ensure_connected (λ n. n) gone in
    (1 < 3
      → (connected ≡ true) × (w'.inner ≡ some 8) × (w'.outcomes ≡ []) × (w'.slept ≡ delays 0 2))
    × (3 ≤ 1 → (connected ≡ false) × (w'.inner ≡ none) × (w'.slept ≡ delays 0 3))
ensure_connected-tries_example =
    ensure_connected-tries ℕ sockets (λ n. n) gone (codes "refused" ∷ []) 8 [] refl refl refl
