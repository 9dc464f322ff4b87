-- ===== src/Stratum/Session/Invariant.antt =====
-- The induction principle of the session (src/stratum.rs, `run_session`): what holds of the request
-- counter, the pending map and the requests written, in whatever order things become ready.
use aria_t.Base.{ℕ, ◌+◌, Bool, Option, none, some, List, [], ◌∷◌, Bool-cases, inl, inr}
use aria_t.Base.Texts.{Text, insert, remove}
use aria_t.Base.Words.{u64}
use aria_t.Base.Results.{Outcome, ok, err, panic}
use aria_t.Protocol.{Json}
use aria_t.Stratum.{Dialect, pearl, lucky_pool, hero_miners, StratumConfig, Submission}
use aria_t.Stratum.Notify.{handle_notification, handle_response, share_is_stale, respond, Notice}
use aria_t.Stratum.Session.{
  Request, Params, Session, Ready, line, closed, read_error, submission, channel_closed,
}
use aria_t.Stratum.Session.{
  deadline, Progress, running, ended, failed, aborted, and_running, request, handshake,
  handshake_in, on_method,
}
use aria_t.Stratum.Session.{
  on_submission, on_value, on_line, step, steps, run_session, new_session, notified,
}

-- The state in which the session goes on, ended or failed satisfies `P`.
abbrev pub Leaves {κ} : (Session → Type κ) → Progress → Type κ
Leaves P (running s) = P s
Leaves P (ended e s) = P s
Leaves P (failed s) = P s
Leaves P aborted = Unit

and_running-Leaves {κ} :
    (P : Session → Type κ) (p : Progress) (f : Session → Progress)
    → Leaves P p
    → ((s : Session) → P s → Leaves P (f s))
    → Leaves P (and_running p f)
and_running-Leaves P (running s) f h k = k s h
and_running-Leaves P (ended e s) f h k = h
and_running-Leaves P (failed s) f h k = h
and_running-Leaves P aborted f h k = h

module _ {κ} (P : ℕ → List (ℕ × Text) → List Request → Type κ) where
  abbrev pub Keeps : Session → Type κ
  Keeps s = P s.next_id s.pending s.sent

  module _ (begins : P 1 [] [])
      (sends : (n : ℕ) (p : List (ℕ × Text)) (q : List Request) (method : Text) (body : Params)
        → P n p q
        → P (u64 (n + 1)) (insert n method p) (record { id = n; method = method; body = body } ∷ q))
      (replies : (n : ℕ) (p : List (ℕ × Text)) (q : List Request) (id : ℕ)
        → P n p q
        → P n (remove id p) q)
      (j : Json) (hex_decode : Text → Option (List ℕ)) (blank : Text → Bool)
      (writes : Request → Bool) (cfg : StratumConfig) (agent : Text) (wallet worker : Text) where
    request-Keeps :
        (method : Text) (body : Params) (s : Session)
        → Keeps s
        → Leaves Keeps (request writes method body s)
    unfolding request
    request-Keeps method body s h =
        let req : Request = record { id = s.next_id; method = method; body = body } in
        elim (Bool-cases (writes req)) [
          | inl e ↦ rw e (sends s.next_id s.pending s.sent method body h)
          | inr e ↦ rw e h
        ]

    handshake_in-Keeps :
        (d : Dialect) → Leaves Keeps (handshake_in writes cfg agent wallet worker d)
    unfolding handshake_in
    handshake_in-Keeps pearl =
        and_running-Leaves Keeps _ _ (request-Keeps _ _ new_session begins) (request-Keeps _ _)
    handshake_in-Keeps lucky_pool = request-Keeps _ _ new_session begins
    handshake_in-Keeps hero_miners =
        and_running-Leaves Keeps _ _ (request-Keeps _ _ new_session begins) (request-Keeps _ _)

    on_submission-Keeps :
        (sub : Submission) (s : Session)
        → Keeps s
        → Leaves Keeps (on_submission writes cfg agent wallet worker sub s)
    unfolding on_submission
    on_submission-Keeps sub s h = elim (Bool-cases (share_is_stale s.current_job_id sub.job_id)) [
      | inl e ↦ rw e h
      | inr e ↦ rw e (request-Keeps _ _ s h)
    ]

    respond-Keeps :
        (id : Option ℕ) (v : j.Value) (s : Session)
        → Keeps s
        → P s.next_id (respond j id v s.pending).pending s.sent
    unfolding respond
    respond-Keeps none v s h = h
    respond-Keeps (some id) v s h = replies s.next_id s.pending s.sent id h

    notified-Keeps : (n : Outcome Notice) (s : Session) → Keeps s → Leaves Keeps (notified s n)
    notified-Keeps (ok n) s h = h
    notified-Keeps err s h = h
    notified-Keeps panic s h = tt

    on_method-Keeps :
        (method : Option Text) (v : j.Value) (s : Session)
        → Keeps s
        → Leaves Keeps (on_method j hex_decode blank method v s)
    unfolding on_method handle_response
    on_method-Keeps (some method) v s h =
        notified-Keeps (handle_notification j hex_decode method v) s h
    on_method-Keeps none v s h = respond-Keeps _ v s h

    on_value-Keeps :
        (v : Option j.Value) (s : Session)
        → Keeps s
        → Leaves Keeps (on_value j hex_decode blank v s)
    unfolding on_value
    on_value-Keeps none s h = h
    on_value-Keeps (some v) s h = on_method-Keeps _ v s h

    on_line-Keeps :
        (l : Text) (s : Session) → Keeps s → Leaves Keeps (on_line j hex_decode blank l s)
    unfolding on_line
    on_line-Keeps l s h = elim (Bool-cases (blank l)) [
      | inl e ↦ rw e h
      | inr e ↦ rw e (on_value-Keeps (j.from_str l) s h)
    ]

    step-Keeps :
        (r : Ready) (s : Session)
        → Keeps s
        → Leaves Keeps (step j hex_decode blank writes cfg agent wallet worker r s)
    unfolding step
    step-Keeps (line l) s h = on_line-Keeps l s h
    step-Keeps closed s h = h
    step-Keeps read_error s h = h
    step-Keeps (submission sub) s h = on_submission-Keeps sub s h
    step-Keeps channel_closed s h = h
    step-Keeps deadline s h = h

    steps-Keeps :
        (rs : List Ready) (s : Session)
        → Keeps s
        → Leaves Keeps (steps j hex_decode blank writes cfg agent wallet worker rs s)
    unfolding steps
    steps-Keeps [] s h = h
    steps-Keeps (r ∷ rs) s h = and_running-Leaves Keeps _ _ (step-Keeps r s h) (steps-Keeps rs)

    pub run_session-Keeps :
        (rs : List Ready)
        → Leaves Keeps (run_session j hex_decode blank writes cfg agent wallet worker rs)
    unfolding run_session handshake
    run_session-Keeps rs =
        and_running-Leaves Keeps _ _ (handshake_in-Keeps cfg.dialect) (steps-Keeps rs)
