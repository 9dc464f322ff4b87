-- ===== src/Gpu/Attempts/Signal.antt =====
-- The signals of the device attempts: every value is in range, and regenerating writes the whole
-- matrix whatever the buffer held (src/official_grind.rs, src/gpu_ffi.rs).
use Prim.Native.Nat.{bit_and, bit_or}
use aria_t.Base.{
  ℕ, zero, suc, ◌+◌, ◌*◌, ◌/◌, ◌%◌, ◌≤◌, ◌<◌, ◌≡◌, refl, ap, ◌∙◌, arith, List, [], ◌∷◌, ◌++◌, map,
}
use aria_t.Base.{
  All, All-append, length, take, drop, set, length-append, length-map, inl, inr, Bool-cases, ltb,
  ltb→lt, ltb→ge,
}
use aria_t.Base.Bits.{bit_and-mask}
use aria_t.Base.Words.{u32, to_le_bytes, length-to_le_bytes}
use aria_t.Jackpot.Rows.{take-append}
use aria_t.Microkernel.{for_each}
use aria_t.Microkernel.Writes.{pieces, Writes, Wide, for_each-Writes, length-pieces}
use aria_t.Transcript.Cells.{IsInt7}
use aria_t.Grind.Attempt.{to_signal}
use aria_t.Gpu.{int7_at}
use aria_t.Gpu.Attempts.{fill_rest, fill_chunks, fast_fill_signal, regenerate, xorshift, drawn}

pub to_signal-IsInt7 : (b : ℕ) → IsInt7 (to_signal b)
unfolding to_signal
to_signal-IsInt7 b =
    let low : bit_and b 0x7f < 128 = omega (arith, bit_and-mask 7 b) in
    elim (Bool-cases (ltb (bit_and b 0x7f) 64)) [
      | inl e ↦ let lt = ltb→lt (bit_and b 0x7f) 64 e in inr (omega arith, omega arith)
      | inr e ↦ let ge = ltb→ge (bit_and b 0x7f) 64 e in inl (omega arith)
    ]

map-IsInt7 : (bs : List ℕ) → All IsInt7 (map to_signal bs)
map-IsInt7 [] = tt
map-IsInt7 (b ∷ bs) = (to_signal-IsInt7 b, map-IsInt7 bs)

fill_rest-IsInt7 : (n i s : ℕ) → All IsInt7 (fill_rest n i s) × (length (fill_rest n i s) ≡ n)
unfolding fill_rest
fill_rest-IsInt7 zero i s = (tt, refl)
fill_rest-IsInt7 (suc n) i s =
    let rest = fill_rest-IsInt7 n (i + 1) (xorshift s) in
    ((to_signal-IsInt7 _, rest.0), ap suc rest.1)

fill_chunks-IsInt7 :
    (n rest s : ℕ)
    → All IsInt7 (fill_chunks n rest s) × (length (fill_chunks n rest s) ≡ n * 8 + rest)
unfolding fill_chunks
fill_chunks-IsInt7 zero rest s = let r = fill_rest-IsInt7 rest 0 s in (r.0, omega (arith, r.1))
fill_chunks-IsInt7 (suc n) rest s =
    let here = map to_signal (to_le_bytes 8 (drawn (xorshift s))) in
    let later = fill_chunks-IsInt7 n rest (xorshift s) in
    (
      All-append IsInt7 here (fill_chunks n rest (xorshift s))
          (map-IsInt7 (to_le_bytes 8 (drawn (xorshift s)))) later.0,
      omega (
        arith,
        length-append here (fill_chunks n rest (xorshift s)),
        length-map to_signal (to_le_bytes 8 (drawn (xorshift s))),
        length-to_le_bytes 8 (drawn (xorshift s)),
        later.1,
      ),
    )

-- For every seed and every length, the fill of the hybrid attempts writes exactly that many values,
-- and each is from -64 to 63.
pub fast_fill_signal-IsInt7 :
    (seed len : ℕ)
    → All IsInt7 (fast_fill_signal seed len) × (length (fast_fill_signal seed len) ≡ len)
unfolding fast_fill_signal
fast_fill_signal-IsInt7 seed len =
    let all = fill_chunks-IsInt7 (len / 8) (len % 8) (bit_or seed 1) in
    (all.0, omega (arith, all.1))

-- The signal of a seed: row by row, the value of `int7_at` at each position.
unfoldable pub signal_row : ℕ → ℕ → ℕ → ℕ → List ℕ
signal_row seed sel k i = pieces 1 (λ j. int7_at seed sel (u32 i) (u32 j) ∷ []) 0 k

unfoldable pub signal : ℕ → ℕ → ℕ → ℕ → List ℕ
signal seed sel rows k = pieces k (signal_row seed sel k) 0 rows

set-append :
    (pre rest : List ℕ) (at v : ℕ)
    → length pre ≡ at
    → 1 ≤ length rest
    → set (pre ++ rest) at v ≡ (pre ++ (v ∷ [])) ++ drop 1 rest
set-append [] [] at v e h = absurd (omega arith)
set-append [] (x ∷ rest) zero v e h = refl
set-append [] (x ∷ rest) (suc at) v e h = absurd (omega arith)
set-append (p ∷ pre) rest zero v e h = absurd (omega arith)
set-append (p ∷ pre) rest (suc at) v e h = ap (◌∷◌ p) (set-append pre rest at v (omega arith) h)

module _ (seed sel rows k : ℕ) where
  length-signal_row : (i : ℕ) → length (signal_row seed sel k i) ≡ k
  unfolding signal_row Wide
  length-signal_row i =
      length-pieces 1 (λ j. int7_at seed sel (u32 i) (u32 j) ∷ []) k 0 k (omega arith) (λ j h. refl)
      ∙ omega arith

  row-Writes :
      (i : ℕ) (pre rest : List ℕ)
      → length pre ≡ 0 + i * k
      → k ≤ length rest
      → for_each k 0 (λ j out. set out (i * k + j) (int7_at seed sel (u32 i) (u32 j))) (pre ++ rest)
        ≡ (pre ++ signal_row seed sel k i) ++ drop k rest
  unfolding signal_row Writes Wide
  row-Writes i pre rest e room =
      let piece = λ (j : ℕ). int7_at seed sel (u32 i) (u32 j) ∷ [] in
      let one : k * 1 ≡ k = omega arith in
      for_each-Writes 1 piece (i * k) k
        (λ j out. set out (i * k + j) (int7_at seed sel (u32 i) (u32 j)))
        (λ j pre rest h at wide.
          set-append pre rest (i * k + j) (int7_at seed sel (u32 i) (u32 j)) (omega arith) wide)
        (λ j h. refl) k 0 pre rest (omega arith) (omega arith) (omega arith)
      ∙ ap (λ (n : ℕ). (pre ++ pieces 1 piece 0 k) ++ drop n rest) one

  regenerate-signal :
      (sig : List ℕ)
      → rows * k ≤ length sig
      → regenerate seed sel rows k sig ≡ signal seed sel rows k ++ drop (rows * k) sig
  unfolding regenerate signal Writes Wide
  regenerate-signal sig room =
      for_each-Writes k (signal_row seed sel k) 0 rows
        (λ i. for_each k 0 (λ j out. set out (i * k + j) (int7_at seed sel (u32 i) (u32 j))))
        (λ i pre rest h at wide. row-Writes i pre rest at wide) (λ i h. length-signal_row i) rows 0
        [] sig (omega arith) (omega arith) room

  length-signal : length (signal seed sel rows k) ≡ rows * k
  unfolding signal Wide
  length-signal =
      length-pieces k (signal_row seed sel k) rows 0 rows (omega arith) (λ i h. length-signal_row i)

  -- The matrix that is made again does not depend on what the buffer held.
  pub take-regenerate :
      (sig : List ℕ)
      → rows * k ≤ length sig
      → take (rows * k) (regenerate seed sel rows k sig) ≡ signal seed sel rows k
  take-regenerate sig room =
      rw (regenerate-signal sig room)
        (take-append (rows * k) (signal seed sel rows k) (drop (rows * k) sig) length-signal)
