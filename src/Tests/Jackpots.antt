-- ===== src/Tests/Jackpots.antt =====
-- The theorems on the jackpot (src/pearl_compute.rs, src/cpu_engine.rs, src/official_grind.rs) on a
-- tile of one row, one column and two blocks.
use aria_t.Base.{ℕ, ◌≡◌, refl, arith, inl, inr, true, false, some, List, [], ◌∷◌, All}
use aria_t.Base.Words.{IsBytes}
use aria_t.Cpu.{Cpu}
use aria_t.Jackpot.{PearlParams, jackpot_of}
use aria_t.Jackpot.Effective.{IsSignal, IsNoise, AreStrips, eff_rows}
use aria_t.Jackpot.Pearl.{PearlNoise, compute_jackpot_pearl}
use aria_t.Jackpot.Pearl.Laws.{compute_jackpot_pearl-jackpot}
use aria_t.Jackpot.Flat.{JackpotScratch, compute_jackpot_flat}
use aria_t.Jackpot.Flat.Laws.{compute_jackpot_flat-pearl}
use aria_t.Jackpot.Tile.{jackpot_tile_flat}
use aria_t.Jackpot.Tile.Walk.{strips, InBatch}
use aria_t.Jackpot.Tile.Laws.{jackpot_tile_flat-jackpot}

abbrev old_host : Cpu
old_host = record {
  avx512vnni = false;
  avx512bw = false;
  avx512f = false;
  avx512vbmi = false;
  avxvnni = true;
  avx2 = true;
}

abbrev small : PearlParams
small = record { h = 1; w = 1; k = 2; r = 1 }

abbrev secret_rows : List (List ℕ)
secret_rows = (63 ∷ 192 ∷ []) ∷ []

abbrev noise_rows : List (List ℕ)
noise_rows = (64 ∷ 255 ∷ []) ∷ []

abbrev noise_both : PearlNoise
noise_both = record { a = noise_rows; b = noise_rows }

abbrev used_scratch : JackpotScratch
used_scratch = record { a_eff = 7 ∷ 8 ∷ []; b_eff = 9 ∷ 9 ∷ []; jackpot = 5 ∷ [] }

secret_rows-AreStrips : AreStrips IsSignal 2 secret_rows
secret_rows-AreStrips = ((refl, (inl (omega arith), (inr (omega arith, omega arith), tt))), tt)

noise_rows-AreStrips : AreStrips IsNoise 2 noise_rows
noise_rows-AreStrips = ((refl, (inl (omega arith), (inr (omega arith, omega arith), tt))), tt)

compute_jackpot_pearl-jackpot_example :
    compute_jackpot_pearl small secret_rows secret_rows noise_both
    ≡ some (jackpot_of (eff_rows secret_rows noise_rows) (eff_rows secret_rows noise_rows) 2 1)
compute_jackpot_pearl-jackpot_example =
    compute_jackpot_pearl-jackpot small secret_rows secret_rows noise_both (omega arith) refl refl
      refl refl secret_rows-AreStrips noise_rows-AreStrips secret_rows-AreStrips
      noise_rows-AreStrips

compute_jackpot_flat-pearl_example :
    compute_jackpot_flat old_host small secret_rows secret_rows noise_both used_scratch
    ≡ compute_jackpot_pearl small secret_rows secret_rows noise_both
compute_jackpot_flat-pearl_example =
    compute_jackpot_flat-pearl small secret_rows secret_rows noise_both (omega arith) refl refl refl
      refl secret_rows-AreStrips noise_rows-AreStrips secret_rows-AreStrips noise_rows-AreStrips
      old_host used_scratch refl refl refl

-- Two rows of two bytes, of which the second is selected.
abbrev batch : List ℕ
batch = 1 ∷ 2 ∷ 127 ∷ 191 ∷ []

batch-IsBytes : IsBytes batch
batch-IsBytes = (omega arith, (omega arith, (omega arith, (omega arith, tt))))

abbrev second_row : List ℕ
second_row = 1 ∷ []

second_row-InBatch : All (InBatch 2 batch) second_row
second_row-InBatch = (omega arith, tt)

jackpot_tile_flat-jackpot_example :
    jackpot_tile_flat old_host batch batch second_row second_row 2 1 (4 ∷ [])
    ≡ some (jackpot_of (strips 2 batch second_row) (strips 2 batch second_row) 2 1)
jackpot_tile_flat-jackpot_example =
    jackpot_tile_flat-jackpot batch batch second_row second_row 2 1 (omega arith) batch-IsBytes
      second_row-InBatch second_row-InBatch old_host (4 ∷ []) (omega arith)
