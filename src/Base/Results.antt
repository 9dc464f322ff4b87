-- ===== src/Base/Results.antt =====
-- Results of fallible code: a value, an `anyhow` error, or a panic (which aborts the process in
-- the release profile).
use Prim.Native.Nat.{ℕ, ◌<◌}
use mathlib.Core.Path.{◌≡◌, refl}
use mathlib.Core.Bool.{Bool, true, false}
use mathlib.Core.List.{List}
use mathlib.Core.Option.{Option, none, some}
use aria_t.Base.Tests.{ltb, if◌then◌else◌, lt→ltb}
use aria_t.Base.Lists.{length, set}

pub data Outcome {ℓ} (A : Type ℓ) : Type ℓ where
  ok : A → Outcome A
  err : Outcome A
  panic : Outcome A

infixl 5 ◌>>=◌ ◌>>◌
abbrev pub ◌>>=◌ {ℓ κ} : {A : Type ℓ} {B : Type κ} → Outcome A → (A → Outcome B) → Outcome B
ok a >>= f = f a
err >>= f = err
panic >>= f = panic

abbrev pub ◌>>◌ {ℓ} : {B : Type ℓ} → Outcome (Unit {0}) → Outcome B → Outcome B
m >> k = m >>= λ _. k

-- `ok_or_else`, and `bail!` under a test that must hold.
abbrev pub ok_or {ℓ} : {A : Type ℓ} → Option A → Outcome A
ok_or none = err
ok_or (some a) = ok a

abbrev pub guard : Bool → Outcome (Unit {0})
guard true = ok tt
guard false = err

-- `xs[i] = v` with Rust's bounds check.
abbrev pub store {ℓ} : {A : Type ℓ} → List A → ℕ → A → Outcome (List A)
store xs i v = if ltb i (length xs) then ok (set xs i v) else panic

pub store-eq-ok {ℓ} :
    {A : Type ℓ} (xs : List A) (i : ℕ) (v : A) → i < length xs → store xs i v ≡ ok (set xs i v)
store-eq-ok xs i v h = rw (lt→ltb i (length xs) h)

-- What holds of the value, if one is returned.
abbrev pub Gives {ℓ κ} : {A : Type ℓ} → (A → Type κ) → Outcome A → Type κ
Gives P (ok a) = P a
Gives P err = Unit
Gives P panic = Unit

pub bind-Gives {ℓ κ ρ} :
    {A : Type ℓ} {B : Type κ} (P : B → Type ρ) (m : Outcome A) (f : A → Outcome B)
    → ((a : A) → m ≡ ok a → Gives P (f a))
    → Gives P (m >>= f)
bind-Gives P (ok a) f h = h a refl
bind-Gives P err f h = tt
bind-Gives P panic f h = tt
