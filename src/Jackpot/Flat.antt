-- ===== src/Jackpot/Flat.antt =====
-- `JackpotScratch` and `compute_jackpot_flat` of src/pearl_compute.rs. A read out of range, which
-- panics there, gives 0 here; the theorems suppose the shapes of the reference function.
pub mod Fill
pub mod Laws
use aria_t.Base.{
  ℕ, zero, suc, ◌+◌, ◌-◌, ◌*◌, ◌%◌, List, [], ◌∷◌, ◌++◌, take, drop, length, get_or, replicate,
}
use aria_t.Base.{Option}
use aria_t.Base.Words.{u8}
use aria_t.Cpu.{Cpu}
use aria_t.Vnni.{dot_i8}
use aria_t.Jackpot.{PearlParams, walk_blocks, xor_fold, jackpot_size, empty_msg}
use aria_t.Jackpot.Pearl.{PearlNoise}
use aria_t.Jackpot.Tile.{mac_tile}

pub record JackpotScratch : Type 0 where
  pub a_eff : List ℕ
  pub b_eff : List ℕ
  pub jackpot : List ℕ

-- `JackpotScratch::new`
pub new_scratch : PearlParams → JackpotScratch
new_scratch params = record {
  a_eff = replicate (params.h * params.k) 0;
  b_eff = replicate (params.w * params.k) 0;
  jackpot = replicate (params.h * params.w) 0;
}

-- `for l in 0..k { dst[l] = s[l].wrapping_add(n[l]) }`, from the index `l` on.
pub fill_row : List ℕ → List ℕ → List ℕ → ℕ → List ℕ
fill_row [] s n l = []
fill_row (old ∷ dst) s n l = u8 (get_or s l 0 + get_or n l 0) ∷ fill_row dst s n (l + 1)

-- The same for the rows from `u` on, into the slice `buf[u * k..]`.
pub fill_rows : ℕ → ℕ → ℕ → List ℕ → List (List ℕ) → List (List ℕ) → List ℕ
fill_rows k u zero buf secret noise = buf
fill_rows k u (suc h) buf secret noise =
    fill_row (take k buf) (get_or secret u []) (get_or noise u []) 0
    ++ fill_rows k (u + 1) h (drop k buf) secret noise

-- `u..u + n`
unfoldable pub upto : ℕ → ℕ → List ℕ
upto u zero = []
upto u (suc n) = u ∷ upto (u + 1) n

pub compute_jackpot_flat :
    Cpu
    → PearlParams
    → (secret_a secret_b : List (List ℕ)) → PearlNoise
    → JackpotScratch
    → Option (List ℕ)
compute_jackpot_flat cpu params secret_a secret_b noise scratch =
    let a_eff = fill_rows params.k 0 params.h scratch.a_eff secret_a noise.a in
    let b_eff = fill_rows params.k 0 params.w scratch.b_eff secret_b noise.b in
    walk_blocks params.k params.r
      (mac_tile (dot_i8 cpu) a_eff b_eff (upto 0 params.h) (upto 0 params.w) params.k params.r)
      (xor_fold 0) (λ ll blk. blk % jackpot_size) (params.k + 1) params.r 0
      (replicate (length scratch.jackpot) 0) empty_msg
