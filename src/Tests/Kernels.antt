-- ===== src/Tests/Kernels.antt =====
-- The theorems on the kernels of src/microkernel.rs, on eight rows and 64 columns of four bytes, and
-- on the noise of src/fast_noise.rs.
use aria_t.Base.{ℕ, zero, suc, ◌+◌, ◌-◌, ◌*◌, ◌%◌, ◌≤◌, ◌≡◌, refl, ap, arith, some, true, false}
use aria_t.Base.{List, [], ◌∷◌, length, replicate, All, length-replicate}
use aria_t.Base.Words.{IsBytes}
use aria_t.Cpu.{Cpu}
use aria_t.Jackpot.{jackpot_of}
use aria_t.Jackpot.Flat.{upto}
use aria_t.Jackpot.Flat.Laws.{length-upto}
use aria_t.Jackpot.Tile.Walk.{strips}
use aria_t.Microkernel.{pack_b_16, pack_b_8}
use aria_t.Microkernel.Packed.{
  jackpot_tile_2x64_avx512-jackpot, jackpot_tile_8x64_avx512-jackpots,
  jackpot_tile_8x64_avxvnni-jackpots,
}
use aria_t.Microkernel.Tile2.{jackpot_tile_2x64_avx512}
use aria_t.Microkernel.Tile8.{jackpot_tile_8x64_avx512, jackpot_tile_8x64_avxvnni}
use aria_t.Microkernel.Tile8.Tiles.{four_jackpots}
use aria_t.Noise.{MmSlice, add_row, on_slices, compute_noise_for_indices_fast, add_noise_into_fast}
use aria_t.Noise.Laws.{IsPair, add_noise_into_fast-add_row}

pub upto-IsBytes : (n u : ℕ) → u + n ≤ 256 → IsBytes (upto u n)
unfolding upto
upto-IsBytes zero u h = tt
upto-IsBytes (suc n) u h = (omega arith, upto-IsBytes n (u + 1) (omega arith))

abbrev pub rows_of_four : List ℕ
rows_of_four = upto 200 32

abbrev pub columns_of_four : List ℕ
columns_of_four = upto 0 256

abbrev pub used_buffer : List ℕ
used_buffer = replicate 512 7

jackpot_tile_2x64_avx512-jackpot_example :
    jackpot_tile_2x64_avx512 rows_of_four (pack_b_16 columns_of_four 64 4 []) 6 1 0 4 4 used_buffer
    ≡ some (
        jackpot_of
          (strips 4 rows_of_four (6 ∷ 1 ∷ []))
          (strips 4 columns_of_four (upto (0 * 16) 64))
          4
          4)
jackpot_tile_2x64_avx512-jackpot_example =
    jackpot_tile_2x64_avx512-jackpot columns_of_four 64 4 (length-upto 0 256) rows_of_four 4
      (upto-IsBytes 32 200 (omega arith)) (omega arith) refl [] used_buffer 6 1 0
      (omega (arith, length-upto 200 32)) (omega (arith, length-upto 200 32)) (omega arith)
      (omega (arith, length-replicate {A = ℕ} 512 7))

jackpot_tile_8x64_avx512-jackpots_example :
    jackpot_tile_8x64_avx512 rows_of_four (pack_b_16 columns_of_four 64 4 []) 0 0 4 4 used_buffer
    ≡ some (four_jackpots rows_of_four columns_of_four 0 (0 * 16) 4 4)
jackpot_tile_8x64_avx512-jackpots_example =
    jackpot_tile_8x64_avx512-jackpots columns_of_four 64 4 (length-upto 0 256) rows_of_four 4
      (upto-IsBytes 32 200 (omega arith)) (omega arith) refl [] used_buffer 0 0
      (omega (arith, length-upto 200 32)) (omega arith)
      (omega (arith, length-replicate {A = ℕ} 512 7))

jackpot_tile_8x64_avxvnni-jackpots_example :
    jackpot_tile_8x64_avxvnni rows_of_four (pack_b_8 columns_of_four 64 4 []) 0 0 4 4 used_buffer
    ≡ some (four_jackpots rows_of_four columns_of_four 0 (0 * 8) 4 4)
jackpot_tile_8x64_avxvnni-jackpots_example =
    jackpot_tile_8x64_avxvnni-jackpots columns_of_four 64 4 (length-upto 0 256) rows_of_four 4
      (upto-IsBytes 32 200 (omega arith)) (omega arith) refl [] used_buffer 0 0
      (omega (arith, length-upto 200 32)) (omega arith)
      (omega (arith, length-replicate {A = ℕ} 512 7))

-- Generators of the documented shapes.
abbrev uniform_rows : (label seed indices : List ℕ) → ℕ → List (List ℕ)
uniform_rows label seed [] rank = []
uniform_rows label seed (i ∷ indices) rank =
    (i % 256 ∷ replicate (rank - 1) 200) ∷ uniform_rows label seed indices rank

abbrev outer_pairs : (label seed : List ℕ) → ℕ → ℕ → List (ℕ × ℕ)
outer_pairs label seed k rank = replicate k (0, rank - 1)

abbrev no_noise : ℕ → ℕ → List ℕ × List ℕ → List ℕ → List ℕ → MmSlice
no_noise k rank seeds a b = record { a = []; b = []; routing = [] }

replicate-All {ℓ κ} : {A : Type ℓ} (P : A → Type κ) (n : ℕ) (x : A) → P x → All P (replicate n x)
replicate-All P zero x h = tt
replicate-All P (suc n) x h = (h, replicate-All P n x h)

length-uniform_rows :
    (label seed indices : List ℕ) (rank : ℕ)
    → length (uniform_rows label seed indices rank) ≡ length indices
length-uniform_rows label seed [] rank = refl
length-uniform_rows label seed (i ∷ indices) rank =
    ap suc (length-uniform_rows label seed indices rank)

uniform_rows-IsBytes :
    (label seed indices : List ℕ) (rank : ℕ) → All IsBytes (uniform_rows label seed indices rank)
uniform_rows-IsBytes label seed [] rank = tt
uniform_rows-IsBytes label seed (i ∷ indices) rank = (
  (omega arith, replicate-All _ (rank - 1) 200 (omega arith)),
  uniform_rows-IsBytes label seed indices rank,
)

abbrev vbmi_host : Cpu
vbmi_host = record {
  avx512vnni = true;
  avx512bw = true;
  avx512f = true;
  avx512vbmi = true;
  avxvnni = false;
  avx2 = true;
}

add_noise_into_fast-add_row_example :
    add_noise_into_fast uniform_rows outer_pairs no_noise vbmi_host 2 128
      ([], [])
      (5 ∷ 9 ∷ [])
      (3 ∷ [])
      (1 ∷ 2 ∷ 3 ∷ 4 ∷ [])
      (250 ∷ 6 ∷ [])
    ≡ (
      on_slices 2
          (λ nr row. add_row row nr 0)
          0
          (compute_noise_for_indices_fast uniform_rows outer_pairs no_noise vbmi_host 2 128
            ([], [])
            (5 ∷ 9 ∷ [])
            (3 ∷ [])).a
          (1 ∷ 2 ∷ 3 ∷ 4 ∷ []),
      on_slices 2
          (λ nr row. add_row row nr 0)
          0
          (compute_noise_for_indices_fast uniform_rows outer_pairs no_noise vbmi_host 2 128
            ([], [])
            (5 ∷ 9 ∷ [])
            (3 ∷ [])).b
          (250 ∷ 6 ∷ []),
    )
add_noise_into_fast-add_row_example =
    add_noise_into_fast-add_row uniform_rows outer_pairs no_noise length-uniform_rows
      uniform_rows-IsBytes (λ label seed k rank. length-replicate k (0, rank - 1))
      (λ label seed k rank h. replicate-All (IsPair rank) k (0, rank - 1) (h, omega arith))
      vbmi_host 2 128 ([], []) (5 ∷ 9 ∷ []) (3 ∷ []) (1 ∷ 2 ∷ 3 ∷ 4 ∷ []) (250 ∷ 6 ∷ [])
      (omega arith) (omega arith)
