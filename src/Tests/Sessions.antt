-- ===== src/Tests/Sessions.antt =====
-- The theorems on the stratum client (src/stratum.rs, src/protocol.rs) at concrete inputs.
use aria_t.Base.{
  ℕ, ◌+◌, ◌*◌, ◌^◌, ◌≤◌, min, ◌≡◌, refl, arith, Bool, true, false, Option, some, none, List, [],
  ◌∷◌, replicate,
}
use aria_t.Base.{if◌then◌else◌}
use aria_t.Base.Texts.{Text, codes, text_eq, find}
use aria_t.Protocol.{Json, and_then}
use aria_t.Stratum.{StratumConfig, Submission, pearl, hero_miners, user, dev, devfee_wallet}
use aria_t.Stratum.Notify.{
  handle_response, respond, reply_in, reply_of, error_of, share_accepted, submit_method,
}
use aria_t.Stratum.Session.{Request, Session, Ready, line, closed, submission, run_session}
use aria_t.Stratum.Session.{submit_lucky}
use aria_t.Stratum.Session.Invariant.{Leaves}
use aria_t.Stratum.Session.Ids.{IsNumbered, run_session-IsNumbered}
use aria_t.Stratum.Session.Pending.{
  IsTracked, sent_method, run_session-IsTracked, handle_response-submitted,
}
use aria_t.Stratum.Reconnect.{
  Loop, start, begins, devfee_on, session_wallet, failures, session_worker, session_deadline, spent,
}
use aria_t.Stratum.Reconnect.Laws.{
  GoesOn, Reaches-backoff, failures-backoff, Reaches-own_login, spent-share,
}

-- The messages that the inputs need, as values: texts, numbers, a job, its notification, a result.
data Message : Type 0 where
  nothing : Message
  word : Text → Message
  number : ℕ → Message
  job_object : Text → Text → Text → Message
  notification : Message → Message
  result_for : ℕ → Message

field_of : Text → Message → Option Message
field_of k (notification m) =
    if text_eq k (codes "method")
    then some (word (codes "mining.notify"))
    else if text_eq k (codes "params")
    then some m
    else none
field_of k (result_for n) =
    if text_eq k (codes "id")
    then some (number n)
    else if text_eq k (codes "result")
    then some (word (codes "true"))
    else none
field_of k nothing = none
field_of k (word t) = none
field_of k (number n) = none
field_of k (job_object a b c) = none

entry_of : Text → Message → Option Message
entry_of k (job_object id header target) =
    if text_eq k (codes "job_id")
    then some (word id)
    else if text_eq k (codes "header")
    then some (word header)
    else if text_eq k (codes "target")
    then some (word target)
    else none
entry_of k m = none

object_of : Message → Option Message
object_of (job_object a b c) = some (job_object a b c)
object_of m = none

word_of : Message → Option Text
word_of (word t) = some t
word_of m = none

number_of : Message → Option ℕ
number_of (number n) = some n
number_of m = none

-- A line of one byte is a notification of that job, any other the answer to request 3.
parse : Text → Option Message
parse [] = none
parse (c ∷ []) = some (notification (job_object (c ∷ []) (b'h' ∷ []) (b't' ∷ [])))
parse (c ∷ d ∷ s) = some (result_for 3)

abbrev messages : Json
messages = record {
  Value = Message;
  Object = Message;
  null = nothing;
  field = field_of;
  entry = entry_of;
  as_object = object_of;
  as_array = λ m. none;
  as_str = word_of;
  as_u64 = number_of;
  as_bool = λ m. none;
  is_null = λ m. false;
  from_str = parse;
  mining_params = λ m. none;
}

abbrev hex_target : Text → Option (List ℕ)
hex_target t = some (replicate 32 7)

abbrev never_blank : Text → Bool
never_blank t = false

abbrev delivers : Request → Bool
delivers r = true

abbrev config : StratumConfig
config = record {
  host = codes "pool";
  port = 3333;
  wallet = codes "prl1user";
  worker = codes "rig";
  password = codes "x";
  dialect = hero_miners;
}

abbrev share : Submission
share = record { job_id = codes "7"; proof_base64 = codes "AA"; hs = 0 }

abbrev late_share : Submission
late_share = record { job_id = codes "6"; proof_base64 = codes "BB"; hs = 0 }

-- A job comes, a share for it, one for another job, the answer; then the stream ends.
abbrev ready : List Ready
ready =
    line (codes "7") ∷ submission share ∷ submission late_share ∷ line (codes "ok") ∷ closed ∷ []

run_session-IsNumbered_example : Leaves IsNumbered (
    run_session messages hex_target never_blank delivers config [] config.wallet config.worker
      ready)
run_session-IsNumbered_example =
    run_session-IsNumbered messages hex_target never_blank delivers config [] config.wallet
      config.worker ready

run_session-IsTracked_example : Leaves IsTracked (
    run_session messages hex_target never_blank delivers config [] config.wallet config.worker
      ready)
run_session-IsTracked_example =
    run_session-IsTracked messages hex_target never_blank delivers config [] config.wallet
      config.worker ready

-- The session after the first share.
abbrev mining : Session
mining = record {
  next_id = 4;
  current_job_id = some (codes "7");
  dropped_stale = 0;
  pending = (3, submit_method) ∷ [];
  sent =
      record { id = 3; method = submit_method; body = submit_lucky (codes "7") (codes "AA") } ∷ [];
  events = [];
}

mining-IsTracked : IsTracked mining
unfolding sent_method
mining-IsTracked = (refl, tt)

accepts : (handle_response messages (result_for 3) mining.pending).reply ≡ share_accepted
unfolding handle_response respond reply_in reply_of error_of find text_eq field_of number_of
accepts = refl

handle_response-submitted_example :
    (i : ℕ) × (and_then (field_of (codes "id") (result_for 3)) number_of ≡ some i)
    × (sent_method i mining.sent ≡ some submit_method)
handle_response-submitted_example =
    handle_response-submitted messages mining (result_for 3) mining-IsTracked accepts

Reaches-backoff_example : (1 ≤ (start 100).backoff) × ((start 100).backoff ≤ 30)
Reaches-backoff_example = Reaches-backoff config (start 100) (begins 100)

-- After a disconnect.
abbrev fresh : Loop
fresh = record { phase = user; deadline = 5940; backoff = 2; slept = 1 }

failures-backoff_example :
    GoesOn (λ t. (t.backoff ≡ min (2 * 2 ^ 3) 30) × (t.phase ≡ user)) (failures 3 fresh)
failures-backoff_example = failures-backoff 3 fresh (omega arith)

-- The fee is off for the dev wallet itself.
abbrev dev_config : StratumConfig
dev_config = record {
  host = codes "pool";
  port = 3333;
  wallet = devfee_wallet;
  worker = codes "rig";
  password = codes "x";
  dialect = pearl;
}

fee_is_off : devfee_on dev_config ≡ false
unfolding devfee_on text_eq
fee_is_off = refl

Reaches-own_login_example :
    (session_deadline dev_config (start 100) ≡ none)
    × (session_wallet dev_config (start 100).phase ≡ devfee_wallet)
    × (session_worker dev_config (start 100).phase ≡ codes "rig")
Reaches-own_login_example = Reaches-own_login dev_config (start 100) fee_is_off (begins 100)

spent-share_example :
    (100 * spent dev (2 * 3) 7 (start 7)
      ≡ spent dev (2 * 3) 7 (start 7) + spent user (2 * 3) 7 (start 7))
    × (spent dev (2 * 3) 7 (start 7) + spent user (2 * 3) 7 (start 7) ≡ 3 * 6000)
spent-share_example = spent-share 3 7
