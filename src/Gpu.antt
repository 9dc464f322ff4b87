-- ===== src/Gpu.antt =====
-- The host side of the CUDA libraries, src/gpu_ffi.rs: the buffers handed to a foreign function and
-- what is read back of them. The foreign functions are parameters, and a C int is its bit pattern.
pub mod Slots
pub mod Attempts
pub mod Configs
pub mod Shares
pub mod Proofs
use Prim.Native.Nat.{bit_and, bit_xor}
use aria_t.Base.{
  ℕ, zero, suc, ◌+◌, ◌-◌, ◌*◌, ◌/◌, ◌%◌, ◌^◌, min, List, [], ◌∷◌, map, length, take, replicate,
  get_or,
}
use aria_t.Base.{Bool, ◌&&◌, not, ◌==◌, ltb, leb, if◌then◌else◌}
use aria_t.Base.Words.{u32, u64}
use aria_t.Base.Results.{Outcome, ok, panic, ◌>>=◌}
use aria_t.Jackpot.Flat.{upto}
use aria_t.Jackpot.Tile.{range}
use aria_t.Grind.Assemble.{sum}
use aria_t.Grind.Partition.{asserted}

pub record Hit : Type 0 where
  pub rows : List ℕ
  pub cols : List ℕ

-- `x as usize` and `x.max(0) as usize` of a C int.
unfoldable pub int_as_usize : ℕ → ℕ
int_as_usize x = if ltb x (2 ^ 31) then x else x + (2 ^ 64 - 2 ^ 32)

unfoldable pub int_max_zero : ℕ → ℕ
int_max_zero x = if ltb x (2 ^ 31) then x else 0

-- `sort_unstable` and `dedup` on numbers: ascending, and each run cut to one.
unfoldable pub sort_insert : ℕ → List ℕ → List ℕ
sort_insert x [] = x ∷ []
sort_insert x (y ∷ ys) = let rest = sort_insert x ys in if leb x y then x ∷ y ∷ ys else y ∷ rest

unfoldable pub sort_unstable : List ℕ → List ℕ
sort_unstable [] = []
sort_unstable (x ∷ xs) = sort_insert x (sort_unstable xs)

unfoldable pub dedup_from : ℕ → List ℕ → List ℕ
dedup_from x [] = x ∷ []
dedup_from x (y ∷ ys) =
    let same = dedup_from x ys in let other = dedup_from y ys in if x == y then same else x ∷ other

unfoldable pub dedup : List ℕ → List ℕ
dedup [] = []
dedup (x ∷ xs) = dedup_from x xs

-- The slots of hit `s`, sorted and without repetitions.
unfoldable pub slots : List ℕ → ℕ → List ℕ
slots buf s = dedup (sort_unstable (map int_as_usize (range buf (s * 128) (s * 128 + 128))))

unfoldable pub read_hit : (hr hc : List ℕ) → ℕ → Hit
read_hit hr hc s = record { rows = slots hr s; cols = slots hc s }

-- What every grind returns: the count of the foreign function, and the hits that fitted.
pub record Found : Type 0 where
  pub found : ℕ
  pub hits : List Hit

unfoldable pub read_hits : (found max_hits : ℕ) → (hr hc : List ℕ) → Found
read_hits found max_hits hr hc =
    let nret = min (int_max_zero found) max_hits in
    record { found = found; hits = map (read_hit hr hc) (upto 0 nret) }

-- What a foreign grind leaves: its result, and the two buffers it was given.
pub record Filled : Type 0 where
  pub result : ℕ
  pub rows : List ℕ
  pub cols : List ℕ

-- The foreign `pearl_gpu_grind` and `pearl_gpu_grind_2x64`.
abbrev pub Kernel : Type 0
Kernel = (a_eff b_eff : List ℕ) → (m n k : ℕ) (pow_key pow_bound hr hc : List ℕ) → ℕ → Filled

unfoldable pub grind :
    Kernel → (a_eff b_eff : List ℕ) → (m n k : ℕ) (pow_key pow_bound : List ℕ) → ℕ → Outcome Found
grind pearl_gpu_grind a_eff b_eff m n k pow_key pow_bound max_hits = do
  _ ← asserted (length a_eff == m * k)
  _ ← asserted (length b_eff == n * k)
  let empty = replicate (max_hits * 128) 0
  let filled = pearl_gpu_grind a_eff b_eff m n k pow_key pow_bound empty empty max_hits
  ok (read_hits filled.result max_hits filled.rows filled.cols)

-- The same around the other foreign function.
unfoldable pub grind_2x64 :
    Kernel → (a_eff b_eff : List ℕ) → (m n k : ℕ) (pow_key pow_bound : List ℕ) → ℕ → Outcome Found
grind_2x64 pearl_gpu_grind_2x64 = grind pearl_gpu_grind_2x64

unfoldable pub resident_grind :
    (ℕ → (m n k : ℕ) (job_key bound_le hr hc : List ℕ) → ℕ → Filled)
    → ℕ
    → (m n k : ℕ) (job_key bound_le : List ℕ) → ℕ
    → Found
resident_grind pearl_gpu_resident_grind setup_seed m n k job_key bound_le max_hits =
    let empty = replicate (max_hits * 128) 0 in
    let filled = pearl_gpu_resident_grind setup_seed m n k job_key bound_le empty empty max_hits in
    read_hits filled.result max_hits filled.rows filled.cols

-- `ResidentCtx`: its dimensions, and the foreign grinds on its pointer.
pub record ResidentCtx : Type 0 where
  pub m : ℕ
  pub n : ℕ
  pub k : ℕ
  pub max_hits : ℕ
  pub pearl_resident_grind_ctx : ℕ → (job_key bound_le hr hc : List ℕ) → Filled
  pub pearl_resident_grind2_ctx : ℕ → ℕ → (job_key bound_le hr hc : List ℕ) → Filled

unfoldable pub ctx_grind : ResidentCtx → ℕ → (job_key bound_le : List ℕ) → Found
ctx_grind ctx setup_seed job_key bound_le =
    let empty = replicate (ctx.max_hits * 128) 0 in
    let filled = ctx.pearl_resident_grind_ctx setup_seed job_key bound_le empty empty in
    read_hits filled.result ctx.max_hits filled.rows filled.cols

unfoldable pub ctx_grind2 : ResidentCtx → ℕ → ℕ → (job_key bound_le : List ℕ) → Found
ctx_grind2 ctx setup_seed next_seed job_key bound_le =
    let empty = replicate (ctx.max_hits * 128) 0 in
    let filled = ctx.pearl_resident_grind2_ctx setup_seed next_seed job_key bound_le empty empty in
    read_hits filled.result ctx.max_hits filled.rows filled.cols

-- One step of the splitmix of `int7_at`: `(x ^ (x >> s)).wrapping_mul(c)`.
unfoldable pub mix : ℕ → ℕ → ℕ → ℕ
mix s c x = u64 (bit_xor x (x / 2 ^ s) * c)

-- The signal of the device at a position, as the pattern of its eight bits.
unfoldable pub int7_at : ℕ → ℕ → ℕ → ℕ → ℕ
int7_at seed sel i j =
    let start = bit_xor (bit_xor (bit_xor seed (u64 (sel * 2 ^ 62))) (u64 (i * 2 ^ 32))) j in
    let x = u64 (start + 0x9E37_79B9_7F4A_7C15) in
    let x' = mix 27 0x94D0_49BB_1331_11EB (mix 30 0xBF58_476D_1CE4_E5B9 x) in
    let y = bit_xor x' (x' / 2 ^ 31) in (bit_and y 0x7f + 192) % 256

-- A hit of a batch: its setup's seed, and its rows and columns.
pub record BatchHit : Type 0 where
  pub setup_seed : ℕ
  pub hit : Hit

-- What the foreign batch leaves, with the index of each hit's setup.
pub record BatchFilled : Type 0 where
  pub got : ℕ
  pub idx : List ℕ
  pub rows : List ℕ
  pub cols : List ℕ

-- `ResidentCtx2::grind_batch`, on the foreign function of its pointer.
unfoldable pub grind_batch :
    (ℕ → (job_key bound_le : List ℕ) → ℕ → (idx rows cols : List ℕ) → ℕ → BatchFilled)
    → ℕ
    → (job_key bound_le : List ℕ) → ℕ
    → List BatchHit
grind_batch pearl_resident2_grind_batch base_seed job_key bound_le num =
    let max_out : ℕ = 128 in
    let empty = replicate (max_out * 128) 0 in
    let filled =
      pearl_resident2_grind_batch base_seed job_key bound_le num (replicate max_out 0) empty empty
        max_out in
    map
      (λ s. record {
        setup_seed = u64 (base_seed + int_as_usize (get_or filled.idx s 0));
        hit = read_hit filled.rows filled.cols s;
      })
      (upto 0 (min (int_max_zero filled.got) max_out))

-- What a foreign function with a return code and one output leaves; `commit_seeds` has two.
pub record Output : Type 0 where
  pub rc : ℕ
  pub out : List ℕ

pub record Seeds : Type 0 where
  pub rc : ℕ
  pub a_seed : List ℕ
  pub b_seed : List ℕ

unfoldable pub commit_seeds :
    (ℕ → (m n k : ℕ) (job_key a_seed b_seed : List ℕ) → Seeds)
    → ℕ
    → (m n k : ℕ) → List ℕ
    → Outcome (List ℕ × List ℕ)
commit_seeds pearl_gpu_commit_seeds setup_seed m n k job_key = do
  let empty = replicate 32 0
  let s = pearl_gpu_commit_seeds setup_seed m n k job_key empty empty
  _ ← asserted (s.rc == 0)
  ok (s.a_seed, s.b_seed)

unfoldable pub noise :
    ((seed_label key : List ℕ) → (m k : ℕ) → List ℕ → Output)
    → (seed_label key : List ℕ) → (m k : ℕ) → Outcome (List ℕ)
noise pearl_gpu_noise seed_label key m k = do
  let o = pearl_gpu_noise seed_label key m k (replicate (m * k) 0)
  _ ← asserted (o.rc == 0)
  ok o.out

unfoldable pub tensor_hash :
    (List ℕ → ℕ → (key out : List ℕ) → Output) → (data_bytes key : List ℕ) → Outcome (List ℕ)
tensor_hash pearl_gpu_tensor_hash data_bytes key = do
  let o = pearl_gpu_tensor_hash data_bytes (u32 (length data_bytes)) key (replicate 32 0)
  _ ← asserted (o.rc == 0)
  ok o.out
