-- ===== src/Grind/Assemble/Rebuild.antt =====
-- The siblings of `assemble_matrix_proof` (src/official_grind.rs) make the root again: a verifier
-- that knows the requested leaves and reads the siblings in order arrives at the root with none
-- missing and none left.
use aria_t.Base.{
  ℕ, zero, suc, ◌+◌, ◌/◌, ◌≤◌, ◌<◌, ◌≡◌, refl, arith, List, [], ◌∷◌, length, take, get_or,
}
use aria_t.Base.{true, false, ◌==◌, ltb, some, lt→ltb}
use aria_t.Grind.Assemble.{
  insert, collect, contains, node, sum, sibling_walk, parents, half_up, assemble_matrix_proof,
}
use aria_t.Grind.Assemble.Levels.{
  Above, Below, collect-Above, collect-Below, parents-Above, parents-Below,
}
use aria_t.Grind.Assemble.Verify.{Node, rebuild, with_nodes, AreJoined}
use aria_t.Grind.Assemble.Lifts.{level-Lifts}

insert-length : (x : ℕ) (s : List ℕ) → 0 < length (insert x s)
unfolding insert
insert-length x [] = omega arith
insert-length x (y ∷ ys) = ground arith

collect-length : (is : List ℕ) → 0 < length is → 0 < length (collect is)
unfolding collect
collect-length [] h = h
collect-length (i ∷ is) h = insert-length i (collect is)

parents-length : (is : List ℕ) → 0 < length is → 0 < length (parents is)
unfolding parents collect
parents-length [] h = h
parents-length (i ∷ is) h = insert-length (i / 2) (parents is)

single : (is : List ℕ) → 0 < length is → Above 0 is → Below 1 is → is ≡ 0 ∷ []
single [] h above below = absurd (omega arith)
single (x ∷ []) h above below = let z : x ≡ 0 = omega arith in rw z refl
single (x ∷ y ∷ is) h above below = absurd (omega arith)

module _ (join : ℕ → Node → Node → Node) (layers layer_lens : List ℕ) (root : Node) where
  -- The nodes of a level, as `node` reads them.
  abbrev pub at : ℕ → ℕ → Node
  at level = node layers (sum (take level layer_lens))

  -- From a level of `len` nodes on: each level joins the pairs of the one below, the last one is
  -- the root. How a pair is joined may depend on the length of the level.
  pub data AreLayers : ℕ → ℕ → Type 0 where
    top : {level len : ℕ} → len ≡ 1 → at level 0 ≡ root → AreLayers level len
    joined :
        {level len : ℕ}
        → 1 < len
        → AreJoined (join len) len (at level) (at (level + 1))
        → AreLayers (level + 1) (half_up len)
        → AreLayers level len

  walk-rebuild :
      (level len : ℕ)
      → AreLayers level len
      → (fuel : ℕ) (current : List ℕ) → len ≤ fuel
      → 0 < length current
      → Above 0 current
      → Below len current
      → rebuild fuel join len
          (with_nodes (at level) current)
          (sibling_walk fuel layers layer_lens level len current)
        ≡ some (record { known = (0, root) ∷ []; left = [] })
  unfolding rebuild sibling_walk with_nodes
  walk-rebuild level len (top one e) zero current room full above below = absurd (omega arith)
  walk-rebuild level len (top one e) (suc fuel) current room full above below =
      let last : ltb 1 len ≡ false = ground arith in
      let alone = single current full above (rw one at below) in rw (alone, last, e) refl
  walk-rebuild level len (joined more pairs up) zero current room full above below =
      absurd (omega arith)
  walk-rebuild level len (joined more pairs up) (suc fuel) current room full above below =
      let off = sum (take level layer_lens) in
      let go : ltb 1 len ≡ true = lt→ltb 1 len more in
      let some_left : (length current == 0) ≡ false = ground arith in
      let rest = sibling_walk fuel layers layer_lens (level + 1) (half_up len) (parents current) in
      let level_up =
        level-Lifts (join len) len (at level) (at (level + 1)) pairs (contains current) 0 current
          above below (λ x le. refl) rest in
      rw (go, some_left, level_up)
        (walk-rebuild (level + 1) (half_up len) up fuel (parents current) (omega arith)
          (parents-length current full) (parents-Above 0 current above)
          (parents-Below len current below))

  -- If the device's layers are those of a tree with at least one leaf, in which pairs are joined and
  -- a last node without a partner is carried up, then for every nonempty list of leaf indices below
  -- the number of leaves, in any order and with repetitions, the siblings of the assembled proof
  -- together with the nodes of those leaves make the root again, with none missing and none left.
  pub assemble-rebuild :
      (leaf_data_bytes leaf_indices row_indices : List ℕ)
      → AreLayers 0 (get_or layer_lens 0 0)
      → 0 < length leaf_indices
      → Below (get_or layer_lens 0 0) leaf_indices
      → rebuild
          (get_or layer_lens 0 0)
          join
          (get_or layer_lens 0 0)
          (with_nodes (at 0) (collect leaf_indices))
          (assemble_matrix_proof layers layer_lens root leaf_data_bytes leaf_indices
            row_indices).siblings
        ≡ some (record { known = (0, root) ∷ []; left = [] })
  unfolding assemble_matrix_proof
  assemble-rebuild leaf_data_bytes leaf_indices row_indices tree full below =
      let n = get_or layer_lens 0 0 in
      walk-rebuild 0 n tree n (collect leaf_indices) (omega arith)
        (collect-length leaf_indices full) (collect-Above leaf_indices)
        (collect-Below n leaf_indices below)
