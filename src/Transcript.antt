-- ===== src/Transcript.antt =====
-- The sparse GEMM transcript of src/gemm.rs. The keyed hash of `blake3` is a parameter: a key and
-- the bytes hashed, to a digest.
pub mod Cells
pub mod Tree
pub mod Encode
use Prim.Native.Nat.{bit_and, bit_or}
use aria_t.Base.{
  ℕ, zero, suc, ◌+◌, ◌*◌, ◌%◌, List, [], ◌∷◌, ◌++◌, map, get_or, not, ◌==◌, if◌then◌else◌,
}
use aria_t.Base.Words.{u8, u32, i8_to_i32, wrapping_add, to_le_bytes}
use aria_t.Protocol.{MiningParams}
use mathlib.Core.List.{flat_map}

pub record TranscriptCell : Type 0 where
  pub row : ℕ
  pub col : ℕ
  pub value : ℕ

module _ (keyed_hash : List ℕ → List ℕ → List ℕ) where
  pub signed_int7 : List ℕ → ℕ → ℕ → ℕ → ℕ
  signed_int7 seed matrix_id i j =
      let bytes = keyed_hash seed (matrix_id ∷ to_le_bytes 4 i ++ to_le_bytes 4 j) in
      let raw = bit_and (get_or bytes 0 0) 0x7f in
      if not (bit_and raw 0x40 == 0) then bit_or raw 0xc0 else raw

  -- `for kk in 0..params.k`, with the rounds left and the index. The product of two values of 7
  -- bits does not overflow 32.
  pub dot_from : List ℕ → ℕ → ℕ → ℕ → ℕ → ℕ → ℕ
  dot_from seed row col zero kk acc = acc
  dot_from seed row col (suc n) kk acc =
      let a = signed_int7 seed 0 row kk in
      let b = signed_int7 seed 1 kk col in
      dot_from seed row col n (kk + 1) (wrapping_add acc (u32 (i8_to_i32 a * i8_to_i32 b)))

  pub dot_product : List ℕ → MiningParams → ℕ → ℕ → ℕ
  dot_product seed params row col = dot_from seed row col params.k 0 0

  pub build_transcript_cpu : List ℕ → MiningParams → List TranscriptCell
  build_transcript_cpu challenge_seed params =
      flat_map
        (λ row.
          map
            (λ col. record {
              row = row;
              col = col;
              value = dot_product challenge_seed params row col;
            })
            params.cols_pattern)
        params.rows_pattern
