-- ===== src/Base/Outcome.antt =====
-- Go's `(T, error)` results. Of an error only its message is observed, so it is a text.
use mathlib.Core.Path.{◌≡◌, refl}
use mathlib.Core.Logic.{◌⊎◌, inl, inr}
use agent_orchestrator_go.Base.Strings.{Text}

pub data Result {ℓ} (T : Type ℓ) : Type ℓ where
  err : (message : Text) → Result T
  ok : (value : T) → Result T

-- `if err != nil { return err }`, then the rest.
infixl 5 ◌>>=◌
abbrev pub ◌>>=◌ {ℓ κ} :
    {T : Type ℓ} → {U : Type κ} → (answer : Result T) → (rest : T → Result U) → Result U
err message >>= rest = err message
ok value >>= rest = rest value

pub ok-injective {ℓ} : {A : Type ℓ} {a b : A} → ok a ≡ ok b → a ≡ b
ok-injective e = cc

pub ok_ne_err {ℓ κ} : {A : Type ℓ} {C : Type κ} {a : A} {e : Text} → err e ≡ ok a → C
ok_ne_err h = cc

pub Result-cases {ℓ} :
    {A : Type ℓ} (r : Result A) → ((a : A) × (r ≡ ok a)) ⊎ ((e : Text) × (r ≡ err e))
Result-cases (ok a) = inl (a, refl)
Result-cases (err e) = inr (e, refl)

-- A chain that succeeds has succeeded in its first part.
pub bind-ok {ℓ κ} :
    {A : Type ℓ} {B : Type κ} (r : Result A) (f : A → Result B) (b : B)
    → (r >>= f) ≡ ok b
    → (a : A) × (r ≡ ok a) × (f a ≡ ok b)
bind-ok (ok a) f b h = (a, refl, h)
bind-ok (err e) f b h = cc
