-- ===== src/Protocol.antt =====
-- The wire types of src/protocol.rs and the parser of `mining.notify`. The JSON library and the hex
-- decoder are parameters.
pub mod Laws
use aria_t.Base.{ℕ, ◌%◌, ◌^◌, Bool, true, Option, none, some, List, [], length, get_elem?}
use aria_t.Base.{◌==◌, if◌then◌else◌}
use aria_t.Base.Words.{u32}
use aria_t.Base.Texts.{Text, codes}
use aria_t.Base.Results.{Outcome, ok, err, panic, ◌>>=◌, ok_or}
use aria_t.Target.Nbits.{trim_0x, decode_nbits}

-- The target is 32 bytes, the highest first.
pub record Job : Type 0 where
  pub job_id : Text
  pub prev_block_id : Text
  pub header_template : Text
  pub ntime : ℕ
  pub aux : Text
  pub target_nbits : Text
  pub clean_jobs : Bool
  pub full_target : Option (List ℕ)

pub record MiningParams : Type 0 where
  pub m : ℕ
  pub n : ℕ
  pub k : ℕ
  pub rank : ℕ
  pub rows_pattern : List ℕ
  pub cols_pattern : List ℕ
  pub mma_type : Text

-- What the client uses of `serde_json`: a value, its accessors, the parser, and the deserializer
-- of `MiningParams`. `field` is `Value::get` by a key, `entry` the same on an object's map.
pub record Json : Type 1 where
  pub Value : Type 0
  pub Object : Type 0
  pub null : Value
  pub field : Text → Value → Option Value
  pub entry : Text → Object → Option Value
  pub as_object : Value → Option Object
  pub as_array : Value → Option (List Value)
  pub as_str : Value → Option Text
  pub as_u64 : Value → Option ℕ
  pub as_bool : Value → Option Bool
  pub is_null : Value → Bool
  pub from_str : Text → Option Value
  pub mining_params : Value → Option MiningParams

-- `and_then` and `unwrap_or` on options, and `result.ok()` of a call that may panic.
abbrev pub and_then {ℓ κ} : {A : Type ℓ} {B : Type κ} → Option A → (A → Option B) → Option B
and_then none f = none
and_then (some a) f = f a

abbrev pub unwrap_or {ℓ} : {A : Type ℓ} → Option A → A → A
unwrap_or none d = d
unwrap_or (some a) d = a

abbrev pub result_ok {ℓ} : {A : Type ℓ} → Outcome A → Outcome (Option A)
result_ok (ok a) = ok (some a)
result_ok err = ok none
result_ok panic = panic

-- `<[u8; 32]>::try_from(b).ok()`
pub array_32 : List ℕ → Option (List ℕ)
array_32 b = if length b == 32 then some b else none

module _ (j : Json) (hex_decode : Text → Option (List ℕ)) where
  -- The target field of the array wire, by its length without the prefix.
  pub wire_target : Text → Outcome (Option (List ℕ))
  wire_target clean_target =
      if length clean_target == 64
      then ok (and_then (hex_decode clean_target) array_32)
      else if length clean_target == 8
      then result_ok (decode_nbits hex_decode clean_target)
      else ok none

  -- The two closures `s` and `u` of the array wire, and `s` of the object wire.
  pub string_param : List j.Value → ℕ → Outcome Text
  string_param arr i = ok_or (and_then (get_elem? arr i) j.as_str)

  pub u64_param : List j.Value → ℕ → Outcome ℕ
  u64_param arr i = ok_or (and_then (get_elem? arr i) j.as_u64)

  pub string_entry : j.Object → Text → Outcome Text
  string_entry obj k = ok_or (and_then (j.entry k obj) j.as_str)

  pub from_object : j.Object → Outcome Job
  from_object obj = do
    job_id ← string_entry obj (codes "job_id")
    header_template ← string_entry obj (codes "header")
    target_hex ← string_entry obj (codes "target")
    tb ← ok_or (hex_decode (trim_0x target_hex))
    full_target ← ok_or (array_32 tb)
    ok record {
      job_id = job_id;
      prev_block_id = [];
      header_template = header_template;
      ntime = 0;
      aux = [];
      target_nbits = [];
      clean_jobs = true;
      full_target = some full_target;
    }

  pub from_array : List j.Value → Outcome Job
  from_array arr = do
    target_nbits ← string_param arr 5
    full_target ← wire_target (trim_0x target_nbits)
    job_id ← string_param arr 0
    prev_block_id ← string_param arr 1
    header_template ← string_param arr 2
    ntime ← u64_param arr 3
    aux ← string_param arr 4
    ok record {
      job_id = job_id;
      prev_block_id = prev_block_id;
      header_template = header_template;
      ntime = u32 ntime;
      aux = aux;
      target_nbits = target_nbits;
      clean_jobs = unwrap_or (and_then (get_elem? arr 6) j.as_bool) true;
      full_target = full_target;
    }

  -- The object wire if there is an object, else the array wire.
  pub from_wire : Option j.Object → j.Value → Outcome Job
  from_wire (some obj) params = from_object obj
  from_wire none params = ok_or (j.as_array params) >>= from_array

  pub from_params : j.Value → Outcome Job
  from_params params = from_wire (j.as_object params) params
