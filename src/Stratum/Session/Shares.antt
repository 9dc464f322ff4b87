-- ===== src/Stratum/Session/Shares.antt =====
-- What becomes of the submissions that a session takes (src/stratum.rs).
use aria_t.Base.{ℕ, ◌+◌, ◌≡◌, Bool, Option, some, none, List, [], ◌∷◌}
use aria_t.Base.{if◌then◌else◌}
use aria_t.Base.Texts.{Text, codes, text_eq}
use aria_t.Base.Words.{u64}
use aria_t.Base.Results.{Outcome, ok, err, panic}
use aria_t.Protocol.{Json, and_then}
use aria_t.Stratum.{StratumConfig}
use aria_t.Stratum.Notify.{handle_notification, Notice, submit_method}
use aria_t.Stratum.Session.{
  Request, Params, Session, Ready, line, closed, read_error, submission, channel_closed,
}
use aria_t.Stratum.Session.{deadline, Progress, running, ended}
use aria_t.Stratum.Session.{submit_params}

-- The bodies of the requests that submit a share, the last written first.
unfoldable pub submitted : List Request → List Params
submitted [] = []
submitted (r ∷ sent) =
    let rest = submitted sent in if text_eq r.method submit_method then r.body ∷ rest else rest

-- The books of a session: the live job, the shares submitted, and how many were dropped.
pub record Account : Type 0 where
  pub live : Option Text
  pub shares : List Params
  pub dropped : ℕ

abbrev pub account : Session → Account
account s = record { live = s.current_job_id; shares = submitted s.sent; dropped = s.dropped_stale }

-- The books of a session that goes on or has ended; a failed one is not spoken of.
abbrev pub HasAccount : Account → Progress → Type 0
HasAccount a (running s) = account s ≡ a
HasAccount a (ended e s) = account s ≡ a
HasAccount a _ = Unit

-- The same of what cannot end a session.
abbrev GoesOn : Account → Progress → Type 0
GoesOn a (running s) = account s ≡ a
GoesOn a (ended e s) = ⊥
GoesOn a _ = Unit

abbrev pub opened : Account
opened = record { live = none; shares = []; dropped = 0 }

-- A share that was taken: submitted if no job is live or it is for the live one, else dropped.
unfoldable pub taken : Params → Text → Account → Account
taken body job_id a =
    let kept : Account = record { live = a.live; shares = body ∷ a.shares; dropped = a.dropped } in
    let lost : Account = record {
      live = a.live;
      shares = a.shares;
      dropped = u64 (a.dropped + 1);
    } in
    elim a.live [ none ↦ kept | some live ↦ if text_eq job_id live then kept else lost ]

module _ (j : Json) (hex_decode : Text → Option (List ℕ)) (blank : Text → Bool) where
  -- The live job after a line: the one that a notification names, if it parses and names one.
  unfoldable pub named : Outcome Notice → Option Text → Option Text
  named (ok n) live = elim n.job [ some job_id ↦ some job_id | none ↦ live ]
  named err live = live
  named panic live = live

  unfoldable pub heard : Text → Option Text → Option Text
  heard l live = if blank l then live else elim (j.from_str l) [
    | none ↦ live
    | some v ↦ elim (and_then (j.field (codes "method") v) j.as_str) [
      | none ↦ live
      | some method ↦ named (handle_notification j hex_decode method v) live
    ]
  ]

  -- The books of a session with another live job.
  abbrev with_live : Option Text → Session → Account
  with_live live s = record { live = live; shares = submitted s.sent; dropped = s.dropped_stale }

  module _ (writes : Request → Bool) (cfg : StratumConfig) (agent wallet worker : Text) where
    -- The books after some events, of which only lines and submissions let a session go on.
    unfoldable pub accounted : List Ready → Account → Account
    accounted [] a = a
    accounted (line l ∷ rs) a =
        accounted rs (record { live = heard l a.live; shares = a.shares; dropped = a.dropped })
    accounted (submission sub ∷ rs) a =
        accounted rs (taken (submit_params writes cfg agent wallet worker sub) sub.job_id a)
    accounted (closed ∷ rs) a = a
    accounted (read_error ∷ rs) a = a
    accounted (channel_closed ∷ rs) a = a
    accounted (deadline ∷ rs) a = a
