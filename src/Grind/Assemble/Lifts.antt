-- ===== src/Grind/Assemble/Lifts.antt =====
-- One level of the walk in `assemble_matrix_proof` (src/official_grind.rs): its siblings are the ones
-- that the verifier takes at that level.
use aria_t.Base.{
  ℕ, ◌+◌, ◌-◌, ◌*◌, ◌/◌, ◌%◌, ◌≤◌, ◌<◌, ◌≡◌, ◌≢◌, refl, sym, ap, ap₂, ◌∙◌, arith, List, [], ◌∷◌,
  ◌++◌,
}
use aria_t.Base.{
  Bool, true, false, not, ◌&&◌, ◌==◌, ltb, if◌then◌else◌, some, Bool-cases, inl, inr, ltb→lt,
  ltb→ge, lt→ltb, ==_iff,
}
use mathlib.Core.List.{append_assoc}
use aria_t.Grind.Assemble.{collect, contains, level_siblings, parents}
use aria_t.Grind.Assemble.Levels.{
  Above, Below, Above-weaken, parents-alone, parents-both, contains-below,
}
use aria_t.Grind.Assemble.Verify.{Node, lone, before, after_lone, lift, with_nodes, AreJoined}

module _ (join : Node → Node → Node) (len : ℕ) (at up : ℕ → Node)
    (joined : AreJoined join len at up) where
  up_pair : (p : ℕ) → 2 * p + 1 < len → up p ≡ join (at (2 * p)) (at (2 * p + 1))
  unfolding AreJoined
  up_pair p h = let e = lt→ltb (2 * p + 1) len h in joined p (omega arith) ∙ rw e refl

  up_last : (p : ℕ) → 2 * p + 1 ≡ len → up p ≡ at (2 * p)
  unfolding AreJoined
  up_last p h =
      let e : ltb (2 * p + 1) len ≡ false = ground arith in joined p (omega arith) ∙ rw e refl

  -- What the level makes of a suffix of its indices, when the test for membership agrees with the
  -- suffix from `lo` on.
  abbrev Lifts : (ℕ → Bool) → List ℕ → Type 0
  Lifts has is =
      (rest : List Node)
      → lift join len (with_nodes at is) (level_siblings at has len is ++ rest)
        ≡ some (record { known = with_nodes up (parents is); left = rest })

  abbrev Agrees : (ℕ → Bool) → ℕ → List ℕ → Type 0
  Agrees has lo is = (x : ℕ) → lo ≤ x → has x ≡ contains is x

  -- What a single index adds to the siblings.
  own : (ℕ → Bool) → ℕ → List Node
  own has i =
      if i % 2 == 1
      then if not (has (i - 1)) then at (i - 1) ∷ [] else []
      else if not (has (i + 1)) && ltb (i + 1) len
      then at (i + 1) ∷ []
      else []

  level_siblings-own :
      (has : ℕ → Bool) (i : ℕ) (is : List ℕ)
      → level_siblings at has len (i ∷ is) ≡ own has i ++ level_siblings at has len is
  unfolding level_siblings own
  level_siblings-own has i is = ground arith

  lone-last :
      (i : ℕ) (h : Node) (rest : List Node)
      → (i % 2 == 1) ≡ false
      → i % 2 ≡ 0
      → ltb (i + 1) len ≡ false
      → lone join len i h rest ≡ some (h, rest)
  unfolding lone
  lone-last i h [] e o last =
      let z : (i % 2 == 0) ≡ true = (==_iff (i % 2) 0).1 o in rw (z, last) refl
  lone-last i h (s ∷ sibs) e o last = rw (e, last) refl

  lone-own :
      (has : ℕ → Bool) (i : ℕ) (rest : List Node)
      → i < len
      → (i % 2 ≡ 1 → has (i - 1) ≡ false)
      → (i % 2 ≡ 0 → has (i + 1) ≡ false)
      → lone join len i (at i) (own has i ++ rest) ≡ some (up (i / 2), rest)
  unfolding lone own
  lone-own has i rest h left right = elim (Bool-cases (i % 2 == 1)) [
    | inl odd ↦
        let o : i % 2 ≡ 1 = (==_iff (i % 2) 1).0 odd in
        let e : i ≡ 2 * (i / 2) + 1 = omega arith in
        let low : i - 1 ≡ 2 * (i / 2) = omega arith in
        let pair = up_pair (i / 2) (omega arith) in rw (odd, left o, odd, pair, low, ← e) refl
    | inr even ↦
        let o : i % 2 ≡ 0 = ground arith in
        let e : i ≡ 2 * (i / 2) = omega arith in
        elim (Bool-cases (ltb (i + 1) len)) [
          | inl more ↦
              let room = ltb→lt (i + 1) len more in
              let pair = up_pair (i / 2) (omega (arith, room)) in
              rw (even, right o, more, even, more, pair, ← e) refl
          | inr last ↦
              let end = ltb→ge (i + 1) len last in
              let top = up_last (i / 2) (omega (arith, end)) in
              rw (even, right o, last, lone-last i (at i) rest even o last, top, ← e) refl
        ]
  ]

  lift-lone :
      (i : ℕ) (is : List ℕ) (sibs : List Node)
      → (i % 2 ≡ 0 → contains is (i + 1) ≡ false)
      → lift join len (with_nodes at (i ∷ is)) sibs
        ≡ after_lone (i / 2) (lift join len (with_nodes at is)) (lone join len i (at i) sibs)
  unfolding lift with_nodes contains
  lift-lone i [] sibs h = refl
  lift-lone i (j ∷ is) sibs h =
      let t : (i % 2 == 0 && j == i + 1) ≡ false = elim (Bool-cases (i % 2 == 0)) [
        | inl even ↦ let other = h ((==_iff (i % 2) 0).0 even) in ground arith
        | inr odd ↦ rw odd refl
      ] in
      rw t refl

  step-Lifts :
      (has : ℕ → Bool) (i : ℕ) (is : List ℕ)
      → i < len
      → (i % 2 ≡ 1 → has (i - 1) ≡ false)
      → (i % 2 ≡ 0 → has (i + 1) ≡ false)
      → (i % 2 ≡ 0 → contains is (i + 1) ≡ false)
      → parents (i ∷ is) ≡ i / 2 ∷ parents is
      → Lifts has is
      → Lifts has (i ∷ is)
  unfolding after_lone before with_nodes
  step-Lifts has i is h left right alone e rest_Lifts rest =
      let sibs = level_siblings at has len is ++ rest in
      rw
        (
          level_siblings-own has i is,
          append_assoc (own has i) (level_siblings at has len is) rest,
          lift-lone i is (own has i ++ sibs) alone,
          lone-own has i sibs h left right,
          e,
        )
        (rw (rest_Lifts rest) refl)

  contains-skip : (i x : ℕ) (is : List ℕ) → i ≢ x → contains (i ∷ is) x ≡ contains is x
  unfolding contains
  contains-skip i x is h = ground arith

  contains-first : (x : ℕ) (is : List ℕ) → contains (x ∷ is) x ≡ true
  unfolding contains
  contains-first x is = ground arith

  own-none :
      (has : ℕ → Bool) (i : ℕ)
      → (i % 2 ≡ 1 → has (i - 1) ≡ true)
      → (i % 2 ≡ 0 → has (i + 1) ≡ true)
      → own has i ≡ []
  unfolding own
  own-none has i left right = elim (Bool-cases (i % 2 == 1)) [
    | inl odd ↦ rw (odd, left ((==_iff (i % 2) 1).0 odd)) refl
    | inr even ↦ let o : i % 2 ≡ 0 = ground arith in rw (even, right o) refl
  ]

  pair-Lifts :
      (has : ℕ → Bool) (i j : ℕ) (is : List ℕ)
      → i % 2 ≡ 0
      → j ≡ i + 1
      → j < len
      → has i ≡ true
      → has j ≡ true
      → parents (i ∷ j ∷ is) ≡ i / 2 ∷ parents is
      → Lifts has is
      → Lifts has (i ∷ j ∷ is)
  unfolding lift before with_nodes
  pair-Lifts has i j is even next h in_i in_j e rest_Lifts rest =
      let one : has (i + 1) ≡ true = rw (← next) in_j in
      let two : has (j - 1) ≡ true = let back : j - 1 ≡ i = omega arith in rw back in_i in
      let none_i : own has i ≡ [] = own-none has i (λ o. absurd (omega arith)) (λ o. one) in
      let none_j : own has j ≡ [] = own-none has j (λ o. two) (λ o. absurd (omega arith)) in
      let z : (i % 2 == 0 && j == i + 1) ≡ true = ground arith in
      let low : i ≡ 2 * (i / 2) = omega arith in
      let high : j ≡ 2 * (i / 2) + 1 = omega arith in
      let parent : up (i / 2) ≡ join (at i) (at j) =
        up_pair (i / 2) (omega arith) ∙ ap₂ join (ap at (sym low)) (ap at (sym high)) in
      rw
        (
          level_siblings-own has i (j ∷ is),
          level_siblings-own has j is,
          none_i,
          none_j,
          z,
          rest_Lifts rest,
          e,
          parent,
        )
        refl

  -- An index below the suffix is in it neither by itself nor later.
  neighbour : (i x : ℕ) (is : List ℕ) → i ≢ x → contains is x ≡ false → contains (i ∷ is) x ≡ false
  neighbour i x is h e = contains-skip i x is h ∙ e

  Agrees-tail :
      (has : ℕ → Bool) (lo i : ℕ) (is : List ℕ)
      → lo ≤ i + 1
      → Agrees has lo (i ∷ is)
      → Agrees has (i + 1) is
  Agrees-tail has lo i is h agrees x le =
      agrees x (omega arith) ∙ contains-skip i x is (λ e. absurd (omega arith))

  -- The first index without its partner.
  alone-Lifts :
      (has : ℕ → Bool) (p i : ℕ) (is : List ℕ)
      → 2 * p ≤ i
      → i < len
      → Above (2 * (i / 2 + 1)) is
      → Agrees has (2 * p) (i ∷ is)
      → Lifts has is
      → Lifts has (i ∷ is)
  alone-Lifts has p i is low h above agrees rest_Lifts =
      step-Lifts has i is h
        (λ o.
          agrees (i - 1) (omega arith)
          ∙ neighbour i (i - 1) is (λ e. absurd (omega arith))
              (contains-below (2 * (i / 2 + 1)) (i - 1) is above (omega arith)))
        (λ o.
          agrees (i + 1) (omega arith)
          ∙ neighbour i (i + 1) is (λ e. absurd (omega arith))
              (contains-below (2 * (i / 2 + 1)) (i + 1) is above (omega arith)))
        (λ o. contains-below (2 * (i / 2 + 1)) (i + 1) is above (omega arith))
        (parents-alone i (i / 2) is refl above) rest_Lifts

  pub level-Lifts :
      (has : ℕ → Bool) (p : ℕ) (is : List ℕ)
      → Above (2 * p) is
      → Below len is
      → Agrees has (2 * p) is
      → Lifts has is
  unfolding level_siblings lift with_nodes parents collect
  level-Lifts has p [] above below agrees = λ rest. refl
  level-Lifts has p (i ∷ []) above below agrees =
      alone-Lifts has p i [] above.0 below.0 tt agrees (λ rest. refl)
  level-Lifts has p (i ∷ j ∷ is) above below agrees =
      let q = i / 2 in
      let up_to : 2 * q ≤ i = omega arith in
      let one_left : Agrees has (i + 1) (j ∷ is) =
        Agrees-tail has (2 * p) i (j ∷ is) (omega arith) agrees in
      elim (Bool-cases (i % 2 == 0 && j == i + 1)) [
        | inl both ↦
            let even : i % 2 ≡ 0 = ground arith in
            let next : j ≡ i + 1 = ground arith in
            let above' : Above (2 * (q + 1)) is =
              Above-weaken (2 * (q + 1)) (j + 1) is (omega arith) above.1.1 in
            let here : contains (i ∷ j ∷ is) i ≡ true = contains-first i (j ∷ is) in
            let there : contains (i ∷ j ∷ is) j ≡ true =
              contains-skip i j (j ∷ is) (λ e. absurd (omega arith)) ∙ contains-first j is in
            pair-Lifts has i j is even next below.1.0 (agrees i above.0 ∙ here)
              (agrees j (omega arith) ∙ there) (parents-both i j q is (omega arith) next above')
              (level-Lifts has (q + 1) is above' below.1.1 (λ x le.
                one_left x (omega arith) ∙ contains-skip j x is (λ e. absurd (omega arith))))
        | inr not_both ↦
            let apart : 2 * (q + 1) ≤ j = ground arith in
            let above' : Above (2 * (q + 1)) (j ∷ is) = (apart, above.1.1) in
            alone-Lifts has p i (j ∷ is) above.0 below.0 above' agrees
              (level-Lifts has (q + 1) (j ∷ is) above' below.1 (λ x le. one_left x (omega arith)))
      ]
