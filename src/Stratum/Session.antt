-- ===== src/Stratum/Session.antt =====
-- `run_session` of src/stratum.rs after the connection is made: the handshake of each dialect, and
-- one round of the select loop for each thing that can be ready. Everything written to the pool and
-- everything broadcast is kept in the state; `writes` tells whether a write succeeds.
pub mod Invariant
pub mod Ids
pub mod Pending
pub mod Shares
use Prim.Native.Nat.{bit_and}
use aria_t.Base.{ℕ, zero, suc, ◌+◌, Bool, true, false, Option, none, some, List, [], ◌∷◌, ◌++◌}
use aria_t.Base.{if◌then◌else◌, ◌==◌, ◌&&◌, leb}
use aria_t.Base.Texts.{Text, codes, text_eq, insert}
use aria_t.Base.Words.{u64}
use aria_t.Base.Results.{Outcome, ok, err, panic}
use aria_t.Protocol.{Json, and_then}
use aria_t.Stratum.{Dialect, pearl, lucky_pool, hero_miners, JobEvent, Submission, StratumConfig}
use aria_t.Stratum.{SessionEnd, shutdown, disconnected, rotate}
use aria_t.Stratum.Notify.{
  share_is_stale, handle_notification, handle_response, Notice, Response, submit_method,
}

-- The parameters of a request, dialect by dialect.
pub data Params : Type 0 where
  subscribe_pearl : Params
  authorize_pearl : Text → Text → Params
  authorize_lucky : Text → Text → Text → Params
  subscribe_hero : Text → Params
  authorize_hero : Text → Text → Text → Params
  submit_pearl : Text → Text → Text → Params
  submit_lucky : Text → Text → Params
  submit_hero : ℕ → Text → Text → Params

pub record Request : Type 0 where
  pub id : ℕ
  pub method : Text
  pub body : Params

-- The local variables of `run_session`, what was written (the last first) and what was broadcast.
pub record Session : Type 0 where
  pub next_id : ℕ
  pub current_job_id : Option Text
  pub dropped_stale : ℕ
  pub pending : List (ℕ × Text)
  pub sent : List Request
  pub events : List JobEvent

-- What a branch of `select!` returned: a line or the end of the stream or an error, a submission
-- or the closed channel, the deadline.
pub data Ready : Type 0 where
  line : Text → Ready
  closed : Ready
  read_error : Ready
  submission : Submission → Ready
  channel_closed : Ready
  deadline : Ready

-- The session goes on, or ends as the function returns: `Ok(end)`, `Err`, or a panic.
pub data Progress : Type 0 where
  running : Session → Progress
  ended : SessionEnd → Session → Progress
  failed : Session → Progress
  aborted : Progress

abbrev pub new_session : Session
new_session = record {
  next_id = 1;
  current_job_id = none;
  dropped_stale = 0;
  pending = [];
  sent = [];
  events = [];
}

abbrev pub and_running : Progress → (Session → Progress) → Progress
and_running (running s) f = f s
and_running (ended e s) f = ended e s
and_running (failed s) f = failed s
and_running aborted f = aborted

-- `send(…).await?; pending.insert(next_id, method); next_id += 1`
module _ (writes : Request → Bool) where
  pub request : Text → Params → Session → Progress
  request method body s =
      let req : Request = record { id = s.next_id; method = method; body = body } in
      if writes req
      then running record {
        next_id = u64 (s.next_id + 1);
        current_job_id = s.current_job_id;
        dropped_stale = s.dropped_stale;
        pending = insert s.next_id method s.pending;
        sent = req ∷ s.sent;
        events = s.events;
      }
      else failed s

abbrev pub subscribe_method : Text
subscribe_method = codes "mining.subscribe"

abbrev pub authorize_method : Text
authorize_method = codes "mining.authorize"

-- `format!("{}.{}", wallet, worker)`
abbrev pub login_of : Text → Text → Text
login_of wallet worker = wallet ++ codes "." ++ worker

module _ (writes : Request → Bool) (cfg : StratumConfig) (agent : Text) (wallet worker : Text) where
  pub handshake_in : Dialect → Progress
  handshake_in pearl =
      and_running (request writes subscribe_method subscribe_pearl new_session)
        (request writes authorize_method (authorize_pearl (login_of wallet worker) cfg.password))
  handshake_in lucky_pool =
      request writes authorize_method (authorize_lucky (login_of wallet worker) worker agent)
        new_session
  handshake_in hero_miners =
      and_running
        (request writes subscribe_method (subscribe_hero (login_of wallet worker)) new_session)
        (request writes authorize_method
          (authorize_hero agent cfg.password (login_of wallet worker)))

  pub handshake : Progress
  handshake = handshake_in cfg.dialect

  pub submit_params : Submission → Params
  submit_params sub = elim cfg.dialect [
    | pearl ↦ submit_pearl (login_of wallet worker) sub.job_id sub.proof_base64
    | lucky_pool ↦ submit_lucky sub.job_id sub.proof_base64
    | hero_miners ↦ submit_hero sub.hs sub.job_id sub.proof_base64
  ]

  -- The branch of `submit_rx.recv()` with a submission.
  pub on_submission : Submission → Session → Progress
  on_submission sub s =
      if share_is_stale s.current_job_id sub.job_id
      then running record {
        next_id = s.next_id;
        current_job_id = s.current_job_id;
        dropped_stale = u64 (s.dropped_stale + 1);
        pending = s.pending;
        sent = s.sent;
        events = s.events;
      }
      else request writes submit_method (submit_params sub) s

-- The effect of a notification; one that does not parse is ignored.
abbrev pub notified : Session → Outcome Notice → Progress
notified s (ok n) = running record {
  next_id = s.next_id;
  current_job_id = elim n.job [ some jid ↦ some jid | none ↦ s.current_job_id ];
  dropped_stale = s.dropped_stale;
  pending = s.pending;
  sent = s.sent;
  events = elim n.event [ some e ↦ e ∷ s.events | none ↦ s.events ];
}
notified s err = running s
notified s panic = aborted

module _ (j : Json) (hex_decode : Text → Option (List ℕ)) (blank : Text → Bool) where
  -- The branch of `next_line()` with a parsed line; `blank` is `line.trim().is_empty()`.
  pub on_method : Option Text → j.Value → Session → Progress
  on_method (some method) v s = notified s (handle_notification j hex_decode method v)
  on_method none v s = running record {
    next_id = s.next_id;
    current_job_id = s.current_job_id;
    dropped_stale = s.dropped_stale;
    pending = (handle_response j v s.pending).pending;
    sent = s.sent;
    events = s.events;
  }

  pub on_value : Option j.Value → Session → Progress
  on_value none s = failed s
  on_value (some v) s = on_method (and_then (j.field (codes "method") v) j.as_str) v s

  pub on_line : Text → Session → Progress
  on_line l s = if blank l then running s else on_value (j.from_str l) s

  module _ (writes : Request → Bool) (cfg : StratumConfig) (agent : Text)
      (wallet worker : Text) where
    pub step : Ready → Session → Progress
    step (line l) s = on_line l s
    step closed s = ended disconnected s
    step read_error s = failed s
    step (submission sub) s = on_submission writes cfg agent wallet worker sub s
    step channel_closed s = ended shutdown s
    step deadline s = ended rotate s

    -- The loop on what becomes ready, in any order, until the session ends.
    pub steps : List Ready → Session → Progress
    steps [] s = running s
    steps (r ∷ rs) s = and_running (step r s) (steps rs)

    pub run_session : List Ready → Progress
    run_session rs = and_running (handshake writes cfg agent wallet worker) (steps rs)
