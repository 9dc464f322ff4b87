-- ===== src/Stratum/Notify.antt =====
-- What the session does with one message of the pool: `handle_notification`, `handle_response` and
-- `share_is_stale` of src/stratum.rs. The logs are left out; what they tell apart is `Reply`.
pub mod Laws
use aria_t.Base.{ℕ, zero, suc, Bool, true, false, not, Option, none, some, List, [], ◌∷◌}
use aria_t.Base.{if◌then◌else◌, ◌==◌}
use aria_t.Base.Texts.{Text, codes, text_eq, find, remove}
use aria_t.Base.Results.{Outcome, ok, err, panic, ◌>>=◌, ok_or}
use aria_t.Protocol.{Job, Json, and_then, unwrap_or, from_params}
use aria_t.Stratum.{JobEvent, set_difficulty, params, new_job}

pub share_is_stale : Option Text → Text → Bool
share_is_stale none sub_job_id = false
share_is_stale (some live) sub_job_id = not (text_eq sub_job_id live)

abbrev pub first {ℓ} : {A : Type ℓ} → List A → Option A
first [] = none
first (x ∷ xs) = some x

-- What a notification broadcasts, and the job id that it makes the live one.
pub record Notice : Type 0 where
  pub event : Option JobEvent
  pub job : Option Text

abbrev pub submit_method : Text
submit_method = codes "mining.submit"

abbrev pub unknown_method : Text
unknown_method = codes "unknown"

-- What a response is logged as.
pub data Reply : Type 0 where
  share_rejected : Reply
  rpc_error : Text → Reply
  share_accepted : Reply
  rpc_result : Text → Reply
  silent : Reply

pub record Response : Type 0 where
  pub reply : Reply
  pub pending : List (ℕ × Text)

module _ (j : Json) (hex_decode : Text → Option (List ℕ)) where
  pub handle_notification : Text → j.Value → Outcome Notice
  handle_notification method v =
      let body = unwrap_or (j.field (codes "params") v) j.null in
      if text_eq method (codes "mining.set_difficulty")
      then (do
        diff ← ok_or (and_then (and_then (j.as_array body) first) j.as_u64)
        ok record { event = some (set_difficulty diff); job = none })
      else if text_eq method (codes "pearl.set_mining_params")
      then (do
        mp ← ok_or (j.mining_params body)
        ok record { event = some (params mp); job = none })
      else if text_eq method (codes "mining.notify")
      then (do
        job ← from_params j hex_decode body
        ok record { event = some (new_job job); job = some job.job_id })
      else ok record { event = none; job = none }

module _ (j : Json) where
  -- `v.get("error").filter(|e| !e.is_null())`
  unfoldable pub error_of : j.Value → Option j.Value
  error_of v = and_then (j.field (codes "error") v) (λ e. if j.is_null e then none else some e)

  -- The reply by the error and the result that the response carries.
  unfoldable pub reply_in : Text → Option j.Value → Option j.Value → Reply
  reply_in method (some e) res =
      if text_eq method submit_method then share_rejected else rpc_error method
  reply_in method none (some res) =
      if text_eq method submit_method then share_accepted else rpc_result method
  reply_in method none none = silent

  unfoldable pub reply_of : Text → j.Value → Reply
  reply_of method v = reply_in method (error_of v) (j.field (codes "result") v)

  -- The same with the id read: the entry is taken out of `pending`.
  unfoldable pub respond : Option ℕ → j.Value → List (ℕ × Text) → Response
  respond (some id) v pending = record {
    reply = reply_of (unwrap_or (find id pending) unknown_method) v;
    pending = remove id pending;
  }
  respond none v pending = record { reply = reply_of unknown_method v; pending = pending }

  unfoldable pub handle_response : j.Value → List (ℕ × Text) → Response
  handle_response v pending = respond (and_then (j.field (codes "id") v) j.as_u64) v pending
