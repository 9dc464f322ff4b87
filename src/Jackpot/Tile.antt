-- ===== src/Jackpot/Tile.antt =====
-- The jackpot of a tile selected from flat noised batches: `jackpot_tile_flat` of
-- src/cpu_engine.rs and `tile_jackpot_flat` of src/official_grind.rs. A read out of range, which
-- panics there, gives a shorter slice here; the theorems suppose the selected rows in range.
pub mod Walk
pub mod Laws
use aria_t.Base.{ℕ, zero, suc, ◌+◌, ◌-◌, ◌*◌, ◌/◌, ◌%◌, List, take, drop, length, get_or, replicate}
use aria_t.Base.{Bool, ◌&&◌, if◌then◌else◌, Option}
use aria_t.Base.Words.{wrapping_add}
use aria_t.Cpu.{Cpu}
use aria_t.Vnni.{dot_i8, dot_i8_avx512vnni, dot_i8_avxvnni, dot_i8_scalar}
use aria_t.Jackpot.{walk_blocks, update_flat, xor_fold, jackpot_size, empty_msg}

-- `&buf[from..to]`
unfoldable pub range : List ℕ → ℕ → ℕ → List ℕ
range buf from to = take (to - from) (drop from buf)

-- `for (u, &ai) in a_idx.iter().enumerate() { for (v, &bi) in b_idx.iter().enumerate() { … } }`
pub mac_tile :
    (List ℕ → List ℕ → ℕ) → (a_eff b_eff a_idx b_idx : List ℕ) → ℕ → ℕ → ℕ → List ℕ → List ℕ
mac_tile dot a_eff b_eff a_idx b_idx k r ll tile =
    update_flat
      (λ u v acc. wrapping_add acc (
        dot (range a_eff (get_or a_idx u 0 * k + (ll - r)) (get_or a_idx u 0 * k + ll))
          (range b_eff (get_or b_idx v 0 * k + (ll - r)) (get_or b_idx v 0 * k + ll))))
      (length b_idx) 0 (length a_idx) tile

-- The macro of that name, with the tile buffer that it first zeroes.
pub jackpot_tile_body :
    (List ℕ → List ℕ → ℕ) → (a_eff b_eff a_idx b_idx : List ℕ) → ℕ → ℕ → List ℕ → Option (List ℕ)
jackpot_tile_body dot a_eff b_eff a_idx b_idx k r jackpot =
    walk_blocks k r (mac_tile dot a_eff b_eff a_idx b_idx k r)
      (λ tile. xor_fold 0 (take (length a_idx * length b_idx) tile)) (λ ll blk. blk % jackpot_size)
      (k + 1) r 0 (replicate (length jackpot) 0) empty_msg

pub jackpot_tile_avx512 : (a_eff b_eff a_idx b_idx : List ℕ) → ℕ → ℕ → List ℕ → Option (List ℕ)
jackpot_tile_avx512 a_eff b_eff a_idx b_idx k r jackpot =
    jackpot_tile_body dot_i8_avx512vnni a_eff b_eff a_idx b_idx k r jackpot

pub jackpot_tile_avxvnni : (a_eff b_eff a_idx b_idx : List ℕ) → ℕ → ℕ → List ℕ → Option (List ℕ)
jackpot_tile_avxvnni a_eff b_eff a_idx b_idx k r jackpot =
    jackpot_tile_body dot_i8_avxvnni a_eff b_eff a_idx b_idx k r jackpot

pub jackpot_tile_scalar : (a_eff b_eff a_idx b_idx : List ℕ) → ℕ → ℕ → List ℕ → Option (List ℕ)
jackpot_tile_scalar a_eff b_eff a_idx b_idx k r jackpot =
    jackpot_tile_body dot_i8_scalar a_eff b_eff a_idx b_idx k r jackpot

pub jackpot_tile_flat : Cpu → (a_eff b_eff a_idx b_idx : List ℕ) → ℕ → ℕ → List ℕ → Option (List ℕ)
jackpot_tile_flat cpu a_eff b_eff a_idx b_idx k r jackpot =
    if cpu.avx512vnni && cpu.avx512bw && cpu.avx512f
    then jackpot_tile_avx512 a_eff b_eff a_idx b_idx k r jackpot
    else if cpu.avxvnni
    then jackpot_tile_avxvnni a_eff b_eff a_idx b_idx k r jackpot
    else jackpot_tile_scalar a_eff b_eff a_idx b_idx k r jackpot

-- The tile buffer of the official grind, `[0i32; 256]`.
abbrev pub tile_cells : ℕ
tile_cells = 256

pub tile_jackpot_flat : Cpu → (a_rows b_cols a_noised b_noised_t : List ℕ) → ℕ → ℕ → Option (List ℕ)
tile_jackpot_flat cpu a_rows b_cols a_noised b_noised_t rank k =
    walk_blocks k rank (mac_tile (dot_i8 cpu) a_noised b_noised_t a_rows b_cols k rank)
      (λ tile. xor_fold 0 (take (length a_rows * length b_cols) tile))
      (λ ll blk. (ll / rank - 1) % jackpot_size) (k + 1) rank 0 (replicate tile_cells 0) empty_msg
