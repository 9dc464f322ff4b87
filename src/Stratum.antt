-- ===== src/Stratum.antt =====
-- The types and the constants of the stratum client, src/stratum.rs.
pub mod Notify
pub mod Framing
pub mod Session
pub mod Reconnect
use aria_t.Base.{ℕ, Bool, List, Option}
use aria_t.Base.Texts.{Text, codes}
use aria_t.Protocol.{Job, MiningParams}

pub data JobEvent : Type 0 where
  set_difficulty : ℕ → JobEvent
  params : MiningParams → JobEvent
  new_job : Job → JobEvent

-- `hs` is the bit pattern of the `f64`.
pub record Submission : Type 0 where
  pub job_id : Text
  pub proof_base64 : Text
  pub hs : ℕ

pub data Dialect : Type 0 where
  pearl : Dialect
  lucky_pool : Dialect
  hero_miners : Dialect

pub record StratumConfig : Type 0 where
  pub host : Text
  pub port : ℕ
  pub wallet : Text
  pub worker : Text
  pub password : Text
  pub dialect : Dialect

pub data Phase : Type 0 where
  user : Phase
  dev : Phase

pub data SessionEnd : Type 0 where
  shutdown : SessionEnd
  disconnected : SessionEnd
  rotate : SessionEnd

abbrev pub devfee_wallet : Text
devfee_wallet = codes "prl1p6cxk57fv4yrxtzr97mpzpr9xqr37fenvhmt9twn5z4wtxc5d7k0slejqmu"

abbrev pub devfee_worker : Text
devfee_worker = codes "dev"

abbrev pub devfee_round_secs : ℕ
devfee_round_secs = 60

abbrev pub user_round_secs : ℕ
user_round_secs = 5940
