-- ===== src/Prelude/Lists.antt =====
-- Lists measured and cut by native numbers, and membership as a computed type.
use Prim.Native.Nat.{ℕ, zero, suc, ◌+◌, ◌-◌, ◌≤◌, ◌<◌}
use mathlib.Core.Path.{◌≡◌, refl, ap, ◌∙◌}
use mathlib.Core.Logic.{◌⊎◌}
use mathlib.Core.Bool.{Bool, false, ◌||◌}
use mathlib.Core.List.{List, [], ◌∷◌, ◌++◌}
use mathlib.Core.Option.{Option, none, some}
use native.Mathlib.Omega.{arith}

module _ {ℓ} {A : Type ℓ} where
  abbrev pub length : List A → ℕ
  length [] = 0
  length (x ∷ xs) = suc (length xs)

  abbrev pub take : ℕ → List A → List A
  take zero xs = []
  take (suc n) [] = []
  take (suc n) (x ∷ xs) = x ∷ take n xs

  abbrev pub drop : ℕ → List A → List A
  drop zero xs = xs
  drop (suc n) [] = []
  drop (suc n) (x ∷ xs) = drop n xs

  abbrev pub get_elem? : List A → ℕ → Option A
  get_elem? [] i = none
  get_elem? (x ∷ xs) zero = some x
  get_elem? (x ∷ xs) (suc i) = get_elem? xs i

  abbrev pub any : (A → Bool) → List A → Bool
  any p [] = false
  any p (x ∷ xs) = p x || any p xs

  abbrev pub All {κ} : (A → Type κ) → List A → Type κ
  All P [] = Unit
  All P (x ∷ xs) = P x × All P xs

  abbrev pub Any : (A → Type 0) → List A → Type 0
  Any P [] = ⊥
  Any P (x ∷ xs) = P x ⊎ Any P xs

  pub length-append : (xs ys : List A) → length (xs ++ ys) ≡ length xs + length ys
  length-append [] ys = omega arith
  length-append (x ∷ xs) ys = omega (arith, length-append xs ys)

  drop-append_at : (xs ys : List A) (n m : ℕ) → m ≡ length xs + n → drop m (xs ++ ys) ≡ drop n ys
  drop-append_at [] ys n m h = ap (λ k. drop k ys) (omega arith)
  drop-append_at (x ∷ xs) ys n zero h = absurd (omega arith)
  drop-append_at (x ∷ xs) ys n (suc m) h = drop-append_at xs ys n m (omega arith)

  pub drop-append : (xs ys : List A) (n : ℕ) → drop (length xs + n) (xs ++ ys) ≡ drop n ys
  drop-append xs ys n = drop-append_at xs ys n (length xs + n) refl

  pub drop_all : (xs ys : List A) (n : ℕ) → length xs ≡ n → drop n (xs ++ ys) ≡ ys
  drop_all [] ys zero h = refl
  drop_all [] ys (suc n) h = absurd (omega arith)
  drop_all (x ∷ xs) ys zero h = absurd (omega arith)
  drop_all (x ∷ xs) ys (suc n) h = drop_all xs ys n (omega arith)

  pub take_all : (xs ys : List A) (n : ℕ) → length xs ≡ n → take n (xs ++ ys) ≡ xs
  take_all [] ys zero h = refl
  take_all [] ys (suc n) h = absurd (omega arith)
  take_all (x ∷ xs) ys zero h = absurd (omega arith)
  take_all (x ∷ xs) ys (suc n) h = ap (λ rest. x ∷ rest) (take_all xs ys n (omega arith))

  pub append_assoc : (xs ys zs : List A) → (xs ++ ys) ++ zs ≡ xs ++ (ys ++ zs)
  append_assoc [] ys zs = refl
  append_assoc (x ∷ xs) ys zs = ap (λ rest. x ∷ rest) (append_assoc xs ys zs)

  pub append_nil : (xs : List A) → xs ++ [] ≡ xs
  append_nil [] = refl
  append_nil (x ∷ xs) = ap (λ rest. x ∷ rest) (append_nil xs)

  pub length-take : (n : ℕ) (xs : List A) → n ≤ length xs → length (take n xs) ≡ n
  length-take zero xs h = refl
  length-take (suc n) [] h = absurd (omega arith)
  length-take (suc n) (x ∷ xs) h = omega (arith, length-take n xs)

  drop_at : (m n k : ℕ) (xs : List A) → k ≡ m + n → drop k xs ≡ drop n (drop m xs)
  drop_at zero n k xs h = ap (λ i. drop i xs) (omega arith)
  drop_at (suc m) n zero xs h = absurd (omega arith)
  drop_at (suc m) zero (suc k) [] h = refl
  drop_at (suc m) (suc n) (suc k) [] h = refl
  drop_at (suc m) n (suc k) (x ∷ xs) h = drop_at m n k xs (omega arith)

  pub drop_add : (m n : ℕ) (xs : List A) → drop (m + n) xs ≡ drop n (drop m xs)
  drop_add m n xs = drop_at m n (m + n) xs refl

  take-take : (w n : ℕ) (xs : List A) → w ≤ n → take w (take n xs) ≡ take w xs
  take-take zero n xs h = refl
  take-take (suc w) zero xs h = absurd (omega arith)
  take-take (suc w) (suc n) [] h = refl
  take-take (suc w) (suc n) (x ∷ xs) h = ap (λ rest. x ∷ rest) (take-take w n xs (omega arith))

  -- A slice does not see what was cut off behind it.
  pub slice_take :
      (w n o : ℕ) (xs : List A) → o + w ≤ n → take w (drop o (take n xs)) ≡ take w (drop o xs)
  slice_take w n zero xs h = take-take w n xs (omega arith)
  slice_take w zero (suc o) xs h = absurd (omega arith)
  slice_take w (suc n) (suc o) [] h = refl
  slice_take w (suc n) (suc o) (x ∷ xs) h = slice_take w n o xs (omega arith)

  pub take_append : (xs ys : List A) (n : ℕ) → n < length xs → take n (xs ++ ys) ≡ take n xs
  take_append [] ys n h = absurd (omega arith)
  take_append (x ∷ xs) ys zero h = refl
  take_append (x ∷ xs) ys (suc n) h = ap (λ rest. x ∷ rest) (take_append xs ys n (omega arith))

  pub take_beyond :
      (xs ys : List A) (n : ℕ) → length xs ≤ n → take n (xs ++ ys) ≡ xs ++ take (n - length xs) ys
  take_beyond [] ys n h = ap (λ k. take k ys) (omega arith)
  take_beyond (x ∷ xs) ys zero h = absurd (omega arith)
  take_beyond (x ∷ xs) ys (suc n) h =
      ap (λ rest. x ∷ rest)
        (take_beyond xs ys n (omega arith) ∙ ap (λ k. xs ++ take k ys) (omega arith))

  pub length-take_le : (n : ℕ) (xs : List A) → length (take n xs) ≤ length xs
  length-take_le zero xs = omega arith
  length-take_le (suc n) [] = omega arith
  length-take_le (suc n) (x ∷ xs) = omega (arith, length-take_le n xs)

  pub All-take {κ} : (P : A → Type κ) (n : ℕ) (xs : List A) → All P xs → All P (take n xs)
  All-take P zero xs h = tt
  All-take P (suc n) [] h = tt
  All-take P (suc n) (x ∷ xs) (p, h) = (p, All-take P n xs h)

  pub All-snoc {κ} : (P : A → Type κ) (xs : List A) (y : A) → All P xs → P y → All P (xs ++ y ∷ [])
  All-snoc P [] y h p = (p, tt)
  All-snoc P (x ∷ xs) y (q, h) p = (q, All-snoc P xs y h p)

  pub drop-length : (xs : List A) (n : ℕ) → length xs ≡ n → drop n xs ≡ []
  drop-length [] zero h = refl
  drop-length [] (suc n) h = absurd (omega arith)
  drop-length (x ∷ xs) zero h = absurd (omega arith)
  drop-length (x ∷ xs) (suc n) h = drop-length xs n (omega arith)

  pub drop-append_le :
      (xs ys : List A) (n : ℕ) → n ≤ length xs → drop n (xs ++ ys) ≡ drop n xs ++ ys
  drop-append_le xs ys zero h = refl
  drop-append_le [] ys (suc n) h = absurd (omega arith)
  drop-append_le (x ∷ xs) ys (suc n) h = drop-append_le xs ys n (omega arith)

pub All-append {ℓ κ} :
    {A : Type ℓ} (P : A → Type κ) (xs ys : List A) → All P xs → All P ys → All P (xs ++ ys)
All-append P [] ys h k = k
All-append P (x ∷ xs) ys (p, h) k = (p, All-append P xs ys h k)
