-- ===== src/Http/Run/Agree.antt =====
-- The two loops of src/bridge/http_sync.rs against each other.
use fusillade.Prelude.{[], Option, none, some, Text, ◌≡◌, Result, ok, err, false, get_or}
use fusillade.Stats.Types.{Metric}
use fusillade.Http.{Net, Response}
use fusillade.Http.Follow.{Worker, HyperResponse, UreqResponse, Clock, Call, metric_of, present}
use fusillade.Http.Run.{Round, stop, next}

-- What both clients are told of one answer.
abbrev pub IsSameAnswer : Result HyperResponse Text → Result UreqResponse Text → Type 0
IsSameAnswer (err m) (err m') = m ≡ m'
IsSameAnswer (ok a) (ok b) =
    (a.status ≡ b.status)
    × (a.headers ≡ present b.headers_names b.header)
    × (a.body ≡ get_or b.into_string [])
IsSameAnswer _ _ = ⊥

-- The same to the script and to the worker: all but the timings, the protocol and the seen hosts.
pub record IsSameResponse (r r' : Response) : Type 0 where
  pub status : r.status ≡ r'.status
  pub status_text : r.status_text ≡ r'.status_text
  pub body : r.body ≡ r'.body
  pub headers : r.headers ≡ r'.headers
  pub set_cookie_headers : r.set_cookie_headers ≡ r'.set_cookie_headers
  pub error : r.error ≡ r'.error
  pub error_code : r.error_code ≡ r'.error_code

abbrev pub IsSameEnd :
    (F : Type 0) (net : Net)
    → Call
    → Response × Metric F × Worker net.Jar
    → Response × Metric F × Worker net.Jar
    → Type 0
IsSameEnd F net call (r, m, w) (r', m', w') =
    IsSameResponse r r'
    × ((error : Option Text) × (m ≡ metric_of call r.timings r.status error)
        × (m' ≡ metric_of call r'.timings r.status error))
    × (w.jar ≡ w'.jar)
    × (w.sent ≡ w'.sent)

module _ (F : Type 0) (net : Net) (clock : Clock) (call : Call)
    (no_sink : call.response_sink ≡ false) where
  open net use {Jar}

  abbrev IsSameRound : Round F Jar → Round F Jar → Type 0
  IsSameRound (stop r m w) (stop r' m' w') = IsSameEnd F net call (r, m, w) (r', m', w')
  IsSameRound (next h w) (next h' w') = (h ≡ h') × (w ≡ w')
  IsSameRound _ _ = ⊥

  abbrev IsSameResult :
      Option (Response × Metric F × Worker Jar) → Option (Response × Metric F × Worker Jar) → Type 0
  IsSameResult none none = Unit {0}
  IsSameResult (some r) (some r') = IsSameEnd F net call r r'
  IsSameResult _ _ = ⊥
