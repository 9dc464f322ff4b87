-- ===== src/Microkernel/Stores.antt =====
-- A sequence of stores of src/microkernel.rs that meets every slot of the tile buffer at most once,
-- and all of them by its end, takes every slot to its next value.
use aria_t.Base.{ℕ, zero, suc, ◌+◌, ◌*◌, ◌<◌, ◌≡◌, ◌≢◌, refl, ap, sym, ◌∙◌, arith}
use aria_t.Base.{List, [], ◌∷◌, ◌++◌, map, length}
use aria_t.Base.{
  Bool, true, false, not, ◌&&◌, ◌||◌, ◌==◌, ltb, if◌then◌else◌, Bool-cases, inl, inr, ltb→lt,
  ==_iff,
}
use aria_t.Microkernel.{for_each, store_group, Store, store_all}
use aria_t.Microkernel.Slots.{slots, slots_agree, store_at-slots}

unfoldable pub stored_in : List ℕ → ℕ → Bool
stored_in [] j = false
stored_in (i ∷ done) j = i == j || stored_in done j

-- Every slot below `n` is among those stored.
unfoldable pub all_stored : List ℕ → ℕ → Bool
all_stored done zero = true
all_stored done (suc n) = stored_in done n && all_stored done n

all_stored_sound :
    (done : List ℕ) (n j : ℕ) → all_stored done n ≡ true → j < n → stored_in done j ≡ true
unfolding all_stored
all_stored_sound done zero j e h = absurd (omega arith)
all_stored_sound done (suc n) j e h = ground (arith, all_stored_sound done n j)

unfoldable pub store_of :
    {X : Type 0} → (lanes : ℕ) → (slot : X → ℕ) → (acc accb : X → List ℕ) → X → Store
store_of lanes slot acc accb x = record { base = slot x * lanes; acc = acc x; accb = accb x }

-- The slots when some are stored.
unfoldable pub mixed : (before after : ℕ → List ℕ) → List ℕ → ℕ → List ℕ
mixed before after done j = if stored_in done j then after j else before j

-- The places of the stores, each with its slot and its two accumulators.
module _ {X : Type 0} (lanes n : ℕ) (slot : X → ℕ) (ok : X → Bool) where
  unfoldable pub fresh : List X → List ℕ → Bool
  fresh [] done = true
  fresh (x ∷ order) done =
      ltb (slot x) n && (ok x && (not (stored_in done (slot x)) && fresh order (slot x ∷ done)))

  unfoldable pub stored_after : List X → List ℕ → List ℕ
  stored_after [] done = done
  stored_after (x ∷ order) done = stored_after order (slot x ∷ done)

  module _ (before after : ℕ → List ℕ) (acc accb : X → List ℕ)
      (wide : (j : ℕ) → length (before j) ≡ lanes) (wide' : (j : ℕ) → length (after j) ≡ lanes)
      (stored : (x : X)
        → ok x ≡ true
        → store_group (before (slot x)) (acc x) (accb x) ≡ after (slot x)) where
    mixed_wide : (done : List ℕ) (j : ℕ) → length (mixed before after done j) ≡ lanes
    unfolding mixed
    mixed_wide done j = elim (Bool-cases (stored_in done j)) [
      | inl written ↦ rw written (wide' j)
      | inr unwritten ↦ rw unwritten (wide j)
    ]

    mixed_others :
        (done : List ℕ) (i j : ℕ)
        → j ≢ i
        → mixed before after (i ∷ done) j ≡ mixed before after done j
    unfolding mixed stored_in
    mixed_others done i j other = elim (Bool-cases (i == j)) [
      | inl same ↦ absurd (other (sym ((==_iff i j).0 same)))
      | inr differ ↦ rw differ refl
    ]

    mixed_here : (done : List ℕ) (i : ℕ) → mixed before after (i ∷ done) i ≡ after i
    unfolding mixed stored_in
    mixed_here done i = rw ((==_iff i i).1 refl) refl

    mixed-before :
        (done : List ℕ) (i : ℕ) → stored_in done i ≡ false → mixed before after done i ≡ before i
    unfolding mixed
    mixed-before done i unwritten = rw unwritten refl

    pub store_all-mixed :
        (rest : List ℕ) (order : List X) (done : List ℕ)
        → fresh order done ≡ true
        → store_all lanes
            (map (store_of lanes slot acc accb) order)
            (slots (mixed before after done) 0 n ++ rest)
          ≡ slots (mixed before after (stored_after order done)) 0 n ++ rest
    unfolding store_all fresh stored_after store_of
    store_all-mixed rest [] done h = refl
    store_all-mixed rest (x ∷ order) done h =
        let i = slot x in
        let inside : i < n = ltb→lt (slot x) n (ground (arith, h)) in
        let good : ok x ≡ true = ground (arith, h) in
        let new : stored_in done i ≡ false = ground (arith, h) in
        let later : fresh order (i ∷ done) ≡ true = ground (arith, h) in
        let one =
          store_at-slots lanes (mixed before after done) (mixed before after (i ∷ done)) i
            (mixed_wide done) (mixed_others done i) n (acc x) (accb x) rest inside
            (rw (mixed-before done i new, mixed_here done i) (stored x good))
            (mixed_wide (i ∷ done) i) in
        ap (store_all lanes (map (store_of lanes slot acc accb) order)) one
        ∙ store_all-mixed rest order (i ∷ done) later

module _ (n : ℕ) (before after : ℕ → List ℕ) where
  pub mixed_start : slots before 0 n ≡ slots (mixed before after []) 0 n
  unfolding mixed stored_in
  mixed_start = refl

  pub mixed_end :
      (done : List ℕ)
      → all_stored done n ≡ true
      → slots (mixed before after done) 0 n ≡ slots after 0 n
  unfolding mixed
  mixed_end done h =
      slots_agree (mixed before after done) after 0 n
        λ j from to. rw (all_stored_sound done n j h (omega arith)) refl

-- A loop whose rounds store at the places that are listed for them.
module _ {X : Type 0} (lanes n : ℕ) (slot : X → ℕ) (ok : X → Bool) (orders : ℕ → List X) where
  unfoldable pub fresh_all : ℕ → ℕ → List ℕ → Bool
  fresh_all zero g done = true
  fresh_all (suc m) g done =
      fresh lanes n slot ok (orders g) done
      && fresh_all m (g + 1) (stored_after lanes n slot ok (orders g) done)

  unfoldable pub after_all : ℕ → ℕ → List ℕ → List ℕ
  after_all zero g done = done
  after_all (suc m) g done = after_all m (g + 1) (stored_after lanes n slot ok (orders g) done)

  module _ (before after : ℕ → List ℕ) (acc accb : X → List ℕ)
      (wide : (j : ℕ) → length (before j) ≡ lanes) (wide' : (j : ℕ) → length (after j) ≡ lanes)
      (stored : (x : X)
        → ok x ≡ true
        → store_group (before (slot x)) (acc x) (accb x) ≡ after (slot x))
      (rest : List ℕ) (rounds : ℕ) (body : ℕ → List ℕ → List ℕ)
      (stores : (g : ℕ) (jackpot : List ℕ)
        → g < rounds
        → body g jackpot
          ≡ store_all lanes (map (store_of lanes slot acc accb) (orders g)) jackpot) where
    for_each-mixed :
        (m g : ℕ) (done : List ℕ)
        → g + m ≡ rounds
        → fresh_all m g done ≡ true
        → for_each m g body (slots (mixed before after done) 0 n ++ rest)
          ≡ slots (mixed before after (after_all m g done)) 0 n ++ rest
    unfolding for_each fresh_all after_all
    for_each-mixed zero g done e h = refl
    for_each-mixed (suc m) g done e h =
        let one : fresh lanes n slot ok (orders g) done ≡ true = ground (arith, h) in
        let later : fresh_all m (g + 1) (stored_after lanes n slot ok (orders g) done) ≡ true =
          ground (arith, h) in
        ap (for_each m (g + 1) body) (
          stores g (slots (mixed before after done) 0 n ++ rest) (omega arith)
          ∙ store_all-mixed lanes n slot ok before after acc accb wide wide' stored rest (orders g)
              done one)
        ∙ for_each-mixed m (g + 1) (stored_after lanes n slot ok (orders g) done) (omega arith)
            later

    -- Every slot is met once.
    pub for_each-after :
        fresh_all rounds 0 [] ≡ true
        → all_stored (after_all rounds 0 []) n ≡ true
        → for_each rounds 0 body (slots before 0 n ++ rest) ≡ slots after 0 n ++ rest
    for_each-after h whole =
        ap (λ (t : List ℕ). for_each rounds 0 body (t ++ rest)) (mixed_start n before after)
        ∙ for_each-mixed rounds 0 [] (omega arith) h
        ∙ ap (λ (t : List ℕ). t ++ rest) (mixed_end n before after (after_all rounds 0 []) whole)
