-- ===== src/Grind/Assemble/Verify.antt =====
-- A verifier of multi-leaf proofs, against which `assemble_matrix_proof` (src/official_grind.rs) is
-- proved: level by level it joins what it knows, and takes the next sibling where a neighbour is not
-- known.
use aria_t.Base.{ℕ, zero, suc, ◌+◌, ◌*◌, ◌/◌, ◌%◌, ◌<◌, ◌≡◌, List, [], ◌∷◌}
use aria_t.Base.{not, ◌&&◌, ◌==◌, ltb, if◌then◌else◌, Option, none, some}
use aria_t.Grind.Assemble.{half_up}

abbrev pub Node : Type 0
Node = List ℕ

-- A known node of a level, with its index.
abbrev pub Known : Type 0
Known = List (ℕ × Node)

-- What a verifier has after a step: what it knows of the next level, and the siblings left.
pub record Progress : Type 0 where
  pub known : Known
  pub left : List Node

-- The parent of a node whose neighbour is not known: the neighbour is the next sibling, unless the
-- node is the last one of a level of odd length, which is carried up.
unfoldable pub lone : (Node → Node → Node) → ℕ → ℕ → Node → List Node → Option (Node × List Node)
lone join len i h [] = if i % 2 == 0 && not (ltb (i + 1) len) then some (h, []) else none
lone join len i h (s ∷ sibs) =
    if i % 2 == 1
    then some (join s h, sibs)
    else if ltb (i + 1) len
    then some (join h s, sibs)
    else some (h, s ∷ sibs)

-- A parent put before what the rest of the level makes.
unfoldable pub before : ℕ → Node → Option Progress → Option Progress
before p h none = none
before p h (some r) = some (record { known = (p, h) ∷ r.known; left = r.left })

unfoldable pub after_lone :
    ℕ → (List Node → Option Progress) → Option (Node × List Node) → Option Progress
after_lone p rest none = none
after_lone p rest (some (h, sibs)) = before p h (rest sibs)

-- One level.
unfoldable pub lift : (Node → Node → Node) → ℕ → Known → List Node → Option Progress
lift join len [] sibs = some (record { known = []; left = sibs })
lift join len ((i, h) ∷ []) sibs =
    after_lone (i / 2) (λ left. some (record { known = []; left = left })) (lone join len i h sibs)
lift join len ((i, h) ∷ (j, h') ∷ known) sibs =
    let both = before (i / 2) (join h h') (lift join len known sibs) in
    let one =
      after_lone (i / 2) (λ left. lift join len ((j, h') ∷ known) left) (lone join len i h sibs) in
    if i % 2 == 0 && j == i + 1 then both else one

-- All levels, until one node is left.
unfoldable pub rebuild : ℕ → (ℕ → Node → Node → Node) → ℕ → Known → List Node → Option Progress
rebuild zero join len known sibs = none
rebuild (suc fuel) join len known sibs =
    let rest : Option Progress = elim (lift (join len) len known sibs) [
      | none ↦ none
      | some p ↦ rebuild fuel join (half_up len) p.known p.left
    ] in
    if ltb 1 len then rest else some (record { known = known; left = sibs })

-- The nodes with these indices.
unfoldable pub with_nodes : (ℕ → Node) → List ℕ → Known
with_nodes at [] = []
with_nodes at (i ∷ is) = (i, at i) ∷ with_nodes at is

-- Two levels of the device's tree: pairs are joined, a last node without a partner is carried up.
unfoldable pub AreJoined : (Node → Node → Node) → ℕ → (ℕ → Node) → (ℕ → Node) → Type 0
AreJoined join len at up =
    (i : ℕ)
    → i < half_up len
    → up i ≡ (if ltb (2 * i + 1) len then join (at (2 * i)) (at (2 * i + 1)) else at (2 * i))
