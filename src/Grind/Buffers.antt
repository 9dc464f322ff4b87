-- ===== src/Grind/Buffers.antt =====
-- `Workspace::ensure` (src/official_grind.rs) makes the buffers large enough and keeps what they hold.
use aria_t.Base.{
  length-resize, ℕ, zero, suc, ◌+◌, ◌*◌, ◌≤◌, ◌≡◌, refl, sym, ap, ◌∙◌, arith, List, length, ltb,
  ◌==◌, ==_iff,
}
use aria_t.Base.{Bool-cases, inl, inr, ltb→ge}
use aria_t.Grind.{Workspace, grown, indices, reindexed, ensure}

-- The buffers of A have one length, and those of B.
pub record IsEven (ws : Workspace) : Type 0 where
  pub a_sig : length ws.a_sig ≡ length ws.a_bytes
  pub a_noised : length ws.a_noised ≡ length ws.a_bytes
  pub a_tiled : length ws.a_tiled ≡ length ws.a_bytes
  pub b_sig : length ws.b_sig ≡ length ws.b_bytes
  pub b_noised_t : length ws.b_noised_t ≡ length ws.b_bytes
  pub b_all : length ws.b_all ≡ length ws.b_bytes
  pub b_packed : length ws.b_packed ≡ length ws.b_bytes

-- Room for a batch of `m` rows and `n` columns of `k`, and the index lists of that batch.
pub record IsReady (m n k : ℕ) (ws : Workspace) : Type 0 where
  pub even : IsEven ws
  pub a_room : m * k ≤ length ws.a_bytes
  pub b_room : n * k ≤ length ws.b_bytes
  pub cells : 512 ≤ length ws.scratch
  pub rows : length ws.a_idx ≡ m
  pub cols : length ws.b_idx ≡ n

length-indices : (u n : ℕ) → length (indices u n) ≡ n
unfolding indices
length-indices u zero = refl
length-indices u (suc n) = ap suc (length-indices (u + 1) n)

grown_enough : (want : ℕ) (xs : List ℕ) → want ≤ length (grown (length xs) want xs)
unfolding grown
grown_enough want xs = elim (Bool-cases (ltb (length xs) want)) [
  | inl e ↦ rw (e, length-resize want xs) (omega arith)
  | inr e ↦ rw e (ltb→ge (length xs) want e)
]

grown_even :
    (have want : ℕ) (xs ys : List ℕ)
    → length xs ≡ length ys
    → length (grown have want xs) ≡ length (grown have want ys)
unfolding grown
grown_even have want xs ys h = elim (Bool-cases (ltb have want)) [
  | inl e ↦ rw e (length-resize want xs ∙ sym (length-resize want ys))
  | inr e ↦ rw e h
]

length-reindexed : (n : ℕ) (xs : List ℕ) → length (reindexed n xs) ≡ n
unfolding reindexed
length-reindexed n xs = elim (Bool-cases (length xs == n)) [
  | inl e ↦ rw e ((==_iff (length xs) n).0 e)
  | inr e ↦ rw e (length-indices 0 n)
]

-- From buffers of even lengths, as a new workspace has them, the call leaves buffers of even
-- lengths with room for the batch and its index lists, so a later call may follow.
pub ensure-IsReady : (m n k : ℕ) (ws : Workspace) → IsEven ws → IsReady m n k (ensure m n k ws)
unfolding ensure
ensure-IsReady m n k ws even =
    let a = length ws.a_bytes in
    let b = length ws.b_bytes in
    record {
      even = record {
        a_sig = grown_even a (m * k) ws.a_sig ws.a_bytes even.a_sig;
        a_noised = grown_even a (m * k) ws.a_noised ws.a_bytes even.a_noised;
        a_tiled = grown_even a (m * k) ws.a_tiled ws.a_bytes even.a_tiled;
        b_sig = grown_even b (n * k) ws.b_sig ws.b_bytes even.b_sig;
        b_noised_t = grown_even b (n * k) ws.b_noised_t ws.b_bytes even.b_noised_t;
        b_all = grown_even b (n * k) ws.b_all ws.b_bytes even.b_all;
        b_packed = grown_even b (n * k) ws.b_packed ws.b_bytes even.b_packed;
      };
      a_room = grown_enough (m * k) ws.a_bytes;
      b_room = grown_enough (n * k) ws.b_bytes;
      cells = grown_enough 512 ws.scratch;
      rows = length-reindexed m ws.a_idx;
      cols = length-reindexed n ws.b_idx;
    }
