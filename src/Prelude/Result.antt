-- ===== src/Prelude/Result.antt =====
-- `std::result::Result`, and the `?` operator as the bind of `do` blocks.
use mathlib.Core.Path.{◌≡◌, refl}
use mathlib.Core.Logic.{◌⊎◌, inl, inr}

pub data StdResult {ℓ} (E : Type 0) (A : Type ℓ) : Type ℓ where
  ok : A → StdResult E A
  err : E → StdResult E A

infixl 5 ◌>>=◌ ◌>>◌
abbrev pub ◌>>=◌ {ℓ κ} :
    {E : Type 0} {A : Type ℓ} {B : Type κ} → StdResult E A → (A → StdResult E B) → StdResult E B
ok value >>= next = next value
err failure >>= next = err failure

abbrev pub ◌>>◌ {ℓ} :
    {E : Type 0} {B : Type ℓ} → StdResult E (Unit {0}) → StdResult E B → StdResult E B
ok _ >> next = next
err failure >> next = err failure

-- A result beside the state that the call leaves: what follows an error, and what follows a value.
abbrev pub answer {ℓ κ μ} :
    {E : Type 0} {A : Type ℓ} {S : Type κ} {B : Type μ}
    → StdResult E A × S
    → (E → S → B)
    → (A → S → B)
    → B
answer (ok value, s) failing next = next value s
answer (err failure, s) failing next = failing failure s

pub Result-cases {ℓ κ} :
    {E : Type 0} {A : Type ℓ} {S : Type κ} (r : StdResult E A × S)
    → ((a : A) × (s : S) × (r ≡ (ok a, s))) ⊎ ((e : E) × (s : S) × (r ≡ (err e, s)))
Result-cases (ok a, s) = inl (a, s, refl)
Result-cases (err e, s) = inr (e, s, refl)
