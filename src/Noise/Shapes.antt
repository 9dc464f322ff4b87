-- ===== src/Noise/Shapes.antt =====
-- The noised buffers of `add_noise_into_fast` (src/fast_noise.rs) keep their length and are bytes.
use aria_t.Base.{ℕ, ◌+◌, ◌*◌, ◌≤◌, ◌<◌, ◌≡◌, refl, ap, ◌∙◌, arith, List, [], ◌∷◌, length, drop}
use aria_t.Base.{All, All-append, All-drop, All-take, length-map, Bool-cases, inl, inr}
use aria_t.Base.Words.{IsByte, IsBytes}
use aria_t.Cpu.{Cpu}
use aria_t.Jackpot.Tile.{range}
use aria_t.Microkernel.{copy_at}
use aria_t.Noise.{
  MmSlice, add_row, on_slices, fast_noise_applicable, compute_noise_for_indices_fast,
  add_noise_into_fast,
}
use aria_t.Noise.Laws.{
  IsPair, length-add_row, length-copy_at, length-range, add_noise_into_fast-add_row,
}

add_row-IsBytes : (row nr : List ℕ) (l : ℕ) → IsBytes (add_row row nr l)
unfolding add_row
add_row-IsBytes [] nr l = tt
add_row-IsBytes (x ∷ row) nr l = (omega arith, add_row-IsBytes row nr (l + 1))

copy_at-IsBytes :
    (dst xs : List ℕ) (at : ℕ) → IsBytes dst → IsBytes xs → IsBytes (copy_at dst at xs)
unfolding copy_at
copy_at-IsBytes dst xs at h k =
    All-append IsByte _ _ (All-take IsByte at dst h)
      (All-append IsByte xs (drop (at + length xs) dst) k (All-drop IsByte (at + length xs) dst h))

-- The same length, and bytes.
abbrev pub Keeps : List ℕ → List ℕ → Type 0
Keeps buf out = (length out ≡ length buf) × IsBytes out

on_slices-Keeps :
    (k : ℕ) (rows : List (List ℕ)) (i : ℕ) (buf : List ℕ)
    → IsBytes buf
    → (i + length rows) * k ≤ length buf
    → Keeps buf (on_slices k (λ nr row. add_row row nr 0) i rows buf)
unfolding on_slices
on_slices-Keeps k [] i buf bytes room = (refl, bytes)
on_slices-Keeps k (nr ∷ rows) i buf bytes room =
    let inside : i * k + k ≤ length buf = omega arith in
    let slice = range buf (i * k) (i * k + k) in
    let size = length-range buf (i * k) k inside in
    let new = add_row slice nr 0 in
    let fits = length-add_row slice nr 0 in
    let kept = length-copy_at buf new (i * k) (omega (arith, fits, size)) in
    let rest =
      on_slices-Keeps k rows (i + 1) (copy_at buf (i * k) new)
        (copy_at-IsBytes buf new (i * k) bytes (add_row-IsBytes slice nr 0))
        (omega (arith, kept)) in
    (rest.0 ∙ kept, rest.1)

module _ (uniform : (label seed indices : List ℕ) → ℕ → List (List ℕ))
    (perm : (label seed : List ℕ) → ℕ → ℕ → List (ℕ × ℕ))
    (noise : ℕ → ℕ → List ℕ × List ℕ → List ℕ → List ℕ → MmSlice) where
  -- What the consensus library promises of its generators: a row of bytes for an index, a pair of
  -- indices below a positive rank for a column, and a row of noise for each index of a batch.
  pub record IsNoise : Type 0 where
    pub a_row_an_index :
        (label seed indices : List ℕ) (rank : ℕ)
        → length (uniform label seed indices rank) ≡ length indices
    pub of_bytes :
        (label seed indices : List ℕ) (rank : ℕ) → All IsBytes (uniform label seed indices rank)
    pub a_pair_a_column : (label seed : List ℕ) (k rank : ℕ) → length (perm label seed k rank) ≡ k
    pub of_indices :
        (label seed : List ℕ) (k rank : ℕ) → 0 < rank → All (IsPair rank) (perm label seed k rank)
    pub noise_a :
        (k rank : ℕ) (seeds : List ℕ × List ℕ) (a_indices b_indices : List ℕ)
        → length (noise k rank seeds a_indices b_indices).a ≡ length a_indices
    pub noise_b :
        (k rank : ℕ) (seeds : List ℕ × List ℕ) (a_indices b_indices : List ℕ)
        → length (noise k rank seeds a_indices b_indices).b ≡ length b_indices

  module _ (good : IsNoise) (cpu : Cpu) (k rank : ℕ) (seeds : List ℕ × List ℕ)
      (a_indices b_indices : List ℕ) where
    rows-lengths :
        (length
            (compute_noise_for_indices_fast uniform perm noise cpu k rank seeds a_indices
              b_indices).a
          ≡ length a_indices)
        × (length
              (compute_noise_for_indices_fast uniform perm noise cpu k rank seeds a_indices
                b_indices).b
            ≡ length b_indices)
    unfolding compute_noise_for_indices_fast
    rows-lengths = elim (Bool-cases (fast_noise_applicable cpu rank)) [
      | inl fast ↦ rw fast (
        length-map _ _ ∙ good.a_row_an_index _ seeds.1 a_indices rank,
        length-map _ _ ∙ good.a_row_an_index _ seeds.0 b_indices rank,
      )
      | inr slow ↦ rw slow (
        good.noise_a k rank seeds a_indices b_indices,
        good.noise_b k rank seeds a_indices b_indices,
      )
    ]

    pub add_noise_into_fast-Keeps :
        (a b : List ℕ)
        → length a_indices * k ≤ length a
        → length b_indices * k ≤ length b
        → IsBytes a
        → IsBytes b
        → Keeps a
            (add_noise_into_fast uniform perm noise cpu k rank seeds a_indices b_indices a b).0
          × Keeps b
              (add_noise_into_fast uniform perm noise cpu k rank seeds a_indices b_indices a b).1
    add_noise_into_fast-Keeps a b room_a room_b bytes_a bytes_b =
        let n =
          compute_noise_for_indices_fast uniform perm noise cpu k rank seeds a_indices b_indices in
        let rows_a : length n.a * k ≡ length a_indices * k = ap (λ (t : ℕ). t * k) rows-lengths.0 in
        let rows_b : length n.b * k ≡ length b_indices * k = ap (λ (t : ℕ). t * k) rows-lengths.1 in
        rw
          (add_noise_into_fast-add_row uniform perm noise good.a_row_an_index good.of_bytes
            good.a_pair_a_column good.of_indices cpu k rank seeds a_indices b_indices a b room_a
            room_b)
          (
            on_slices-Keeps k n.a 0 a bytes_a (omega arith),
            on_slices-Keeps k n.b 0 b bytes_b (omega arith),
          )
