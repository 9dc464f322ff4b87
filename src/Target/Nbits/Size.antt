-- ===== src/Target/Nbits/Size.antt =====
-- A target that `decode_nbits` (src/protocol.rs) returns is 32 bytes.
use aria_t.Base.{ℕ, ◌+◌, ◌-◌, ◌/◌, ◌^◌, ◌≡◌, refl, ◌∙◌, List, [], ◌∷◌, length, replicate}
use aria_t.Base.{Option, leb, ltb, Bool-cases, inl, inr, length-set}
use Prim.Native.Nat.{bit_and}
use aria_t.Base.Words.{u8, u64}
use aria_t.Base.Results.{ok, ◌>>=◌, ok_or, store, Gives, bind-Gives}
use aria_t.Target.Nbits.{store_three, nbits_target, nbits_bytes, decode_nbits, trim_0x}

abbrev Is32 : List ℕ → Type 0
Is32 t = length t ≡ 32

store-32 : (t : List ℕ) (i v : ℕ) → length t ≡ 32 → Gives Is32 (store t i v)
store-32 t i v h = elim (Bool-cases (ltb i (length t))) [
  | inl e ↦ rw e (length-set t i v ∙ h)
  | inr e ↦ rw e tt
]

store_three-32 : (t : List ℕ) (i m : ℕ) → length t ≡ 32 → Gives Is32 (store_three t i m)
unfolding store_three
store_three-32 t i m h =
    let v0 = u8 (bit_and (m / 2 ^ 16) 0xff) in
    let v1 = u8 (bit_and (m / 2 ^ 8) 0xff) in
    let v2 = u8 (bit_and m 0xff) in
    bind-Gives Is32 (store t i v0) (λ a. store a (u64 (i + 1)) v1 >>= λ b. store b (u64 (i + 2)) v2)
      λ a e.
        let ha : Gives Is32 (ok a) = rw e at (store-32 t i v0 h) in
        bind-Gives Is32 (store a (u64 (i + 1)) v1) (λ b. store b (u64 (i + 2)) v2)
          λ b k.
            let hb : Gives Is32 (ok b) = rw k at (store-32 a (u64 (i + 1)) v1 ha) in
            store-32 b (u64 (i + 2)) v2 hb

nbits_target-32 : (exponent mantissa : ℕ) → Gives Is32 (nbits_target exponent mantissa)
unfolding nbits_target
nbits_target-32 exponent mantissa = elim (Bool-cases (leb exponent 3)) [
  | inl e ↦ rw e (store_three-32 (replicate 32 0) _ _ refl)
  | inr e ↦ rw e (elim (Bool-cases (leb (u64 (u64 (32 + 2 ^ 64 - exponent) + 3)) 32)) [
    | inl k ↦ rw k (store_three-32 (replicate 32 0) _ _ refl)
    | inr k ↦ rw k refl
  ])
]

nbits_bytes-32 : (bs : List ℕ) → Gives Is32 (nbits_bytes bs)
unfolding nbits_bytes
nbits_bytes-32 [] = tt
nbits_bytes-32 (a ∷ []) = tt
nbits_bytes-32 (a ∷ b ∷ []) = tt
nbits_bytes-32 (a ∷ b ∷ c ∷ []) = tt
nbits_bytes-32 (a ∷ b ∷ c ∷ d ∷ []) = nbits_target-32 a _
nbits_bytes-32 (a ∷ b ∷ c ∷ d ∷ x ∷ bs) = tt

pub decode_nbits-32 :
    (hex_decode : List ℕ → Option (List ℕ)) (nbits_hex : List ℕ)
    → Gives (λ t. length t ≡ 32) (decode_nbits hex_decode nbits_hex)
unfolding decode_nbits
decode_nbits-32 hex_decode nbits_hex =
    bind-Gives Is32 (ok_or (hex_decode (trim_0x nbits_hex))) nbits_bytes λ bs e. nbits_bytes-32 bs
