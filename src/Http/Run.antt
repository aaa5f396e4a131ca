-- ===== src/Http/Run.antt =====
-- The two loops of src/bridge/http_sync.rs, which send a request and follow its redirects: over the
-- bridge to hyper and over the agent of ureq. What a server answers, and what a clock reads, may depend
-- on all requests that were sent. A round of a loop returns or goes on; there are as many rounds as
-- redirects may be followed, and one more.
pub mod Hops
pub mod Agree
use fusillade.Prelude.{
  ℕ, zero, suc, ◌+◌, Bool, true, false, List, [], ◌∷◌, ◌++◌, Option, none, some, Text, codes,
  byte_len, if◌then◌else◌, get_or, Result, ok, err,
}
use fusillade.Stats.Types.{RequestTimings, Metric}
use fusillade.Http.{
  Net, Headers, Request, Response, status_text_for_code, headers_size, estimate_request_size,
  store_response_cookies,
}
use fusillade.Http.Follow.{
  Hop, Worker, HyperResponse, UreqResponse, Clock, Call, no_timings, metric_of, follow, request_of,
  failed_response, hyper_response_to_sync, pool_reuse_heuristic, present, collect, cookies_of,
}

pub data Round (F J : Type 0) : Type 0 where
  stop : Response → Metric F → Worker J → Round F J
  next : Hop → Worker J → Round F J

abbrev pub first_hop : Call → Text → Headers → Option Text → Hop
first_hop call method hs body = record {
  method = method;
  current_url = call.url;
  headers = hs;
  body = body;
  hops = 0;
}

-- the rest of the loop, where a round does not return
unfoldable pub go_on :
    {F J : Type 0}
    → Round F J
    → (Hop → Worker J → Option (Response × Metric F × Worker J))
    → Option (Response × Metric F × Worker J)
go_on (stop r m w) rest = some (r, m, w)
go_on (next h w) rest = rest h w

-- `loop { … }`
unfoldable pub rounds :
    {F J : Type 0} (round : Hop → Worker J → Round F J)
    → ℕ
    → Hop
    → Worker J
    → Option (Response × Metric F × Worker J)
unfolding go_on
rounds round zero h w = none
rounds round (suc fuel) h w = go_on (round h w) (rounds round fuel)

-- `… else` goes on: what a round does with the hop that it may follow.
abbrev pub unless : {F J : Type 0} → Option Hop → Worker J → Round F J → Round F J
unless none w end = end
unless (some h) w end = next h w

abbrev pub sending : (net : Net) → Hop → Worker net.Jar → Worker net.Jar
sending net h w = record w { sent = w.sent ++ (request_of net h w.jar ∷ []) }

-- The size of an answer is that of its status line, its headers and its body.
abbrev pub ureq_timings : Clock → ℕ → Bool → Headers → Text → List Request → RequestTimings
ureq_timings clock request_size reused hs body sent = record no_timings {
  duration = clock.elapsed sent;
  waiting = clock.waiting sent;
  receiving = clock.receiving sent;
  request_size = request_size;
  response_size = byte_len body + 15 + headers_size hs + 2;
  pool_reused = reused;
}

module _ {F : Type 0} (net : Net) (clock : Clock) (call : Call) where
  open net use {Jar}

  -- The end of a round whose request failed.
  abbrev pub fail : ℕ → Text → Worker Jar → Round F Jar
  fail request_size message w =
      let timings = record no_timings {
        duration = clock.elapsed w.sent;
        request_size = request_size;
      } in
      stop (failed_response timings message) (metric_of call timings 0 (some message)) w

  unfoldable pub bridge_answer : Hop → Worker Jar → Result HyperResponse Text → Round F Jar
  bridge_answer h w (err message) = fail 0 message w
  bridge_answer h w (ok raw) =
      let resp = hyper_response_to_sync raw in
      let w' = record w {
        jar = store_response_cookies net h.current_url resp.set_cookie_headers w.jar;
      } in
      let timings = record resp.timings { duration = clock.elapsed w'.sent } in
      unless (follow net call.max_redirects resp.status resp.headers h) w'
        (stop (record resp { timings = timings }) (metric_of call timings resp.status none) w')

  unfoldable pub ureq_end : ℕ → Hop → UreqResponse → Headers → List Text → Worker Jar → Round F Jar
  ureq_end request_size h raw hs cookies w =
      let body = get_or raw.into_string [] in
      let (reused, seen) = pool_reuse_heuristic net h.current_url w.seen_hosts in
      let timings = ureq_timings clock request_size reused hs body w.sent in
      let resp : Response = record {
        status = raw.status;
        status_text = status_text_for_code raw.status;
        body = if call.response_sink then [] else body;
        headers = hs;
        timings = timings;
        proto = codes "h1";
        set_cookie_headers = cookies;
        error = none;
        error_code = none;
      } in
      stop resp (metric_of call timings raw.status none) (record w { seen_hosts = seen })

  unfoldable pub ureq_answer : ℕ → Hop → Worker Jar → Result UreqResponse Text → Round F Jar
  unfolding ureq_end
  ureq_answer request_size h w (err message) = fail request_size message w
  ureq_answer request_size h w (ok raw) =
      let raw_headers = present raw.headers_names raw.header in
      let hs = collect raw_headers [] in
      let cookies = cookies_of raw_headers in
      let w' = record w { jar = store_response_cookies net h.current_url cookies w.jar } in
      unless (follow net call.max_redirects raw.status hs h) w'
        (ureq_end request_size h raw hs cookies w')

  -- `bridge` is `execute_via_bridge` up to its answer: an error is also what a request that cannot be
  -- built gives.
  module _ (bridge : List Request → Result HyperResponse Text) where
    unfoldable pub bridge_round : Hop → Worker Jar → Round F Jar
    unfolding bridge_answer
    bridge_round h w = let w' = sending net h w in bridge_answer h w' (bridge w'.sent)

    unfoldable pub run_bridge_request :
        Text → Headers → Option Text → Worker Jar → Option (Response × Metric F × Worker Jar)
    unfolding bridge_round rounds
    run_bridge_request method hs body w =
        rounds bridge_round (suc call.max_redirects) (first_hop call method hs body) w

  -- `agent` is the call of ureq, with an error status made an answer.
  module _ (agent : List Request → Result UreqResponse Text) where
    unfoldable pub ureq_round : ℕ → Hop → Worker Jar → Round F Jar
    unfolding ureq_answer
    ureq_round request_size h w =
        let w' = sending net h w in ureq_answer request_size h w' (agent w'.sent)

    unfoldable pub execute_ureq_request :
        Text → Headers → Option Text → Worker Jar → Option (Response × Metric F × Worker Jar)
    unfolding ureq_round rounds
    execute_ureq_request method hs body w =
        let size = estimate_request_size method call.url hs (byte_len (get_or body [])) in
        rounds (ureq_round size) (suc call.max_redirects) (first_hop call method hs body) w
