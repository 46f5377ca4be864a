-- ===== src/Base/Lists.antt =====
-- Lists measured by native numbers, under the library's names, and lists of numbers as sets.
use Prim.Native.Nat.{ℕ, zero, suc, ◌+◌}
use mathlib.Core.Path.{◌≡◌, refl, ap, subst}
use mathlib.Core.Bool.{Bool, true, false, ◌||◌}
use mathlib.Core.List.{List, [], ◌∷◌, ◌++◌}
use mathlib.Core.Logic.{inl, inr}
use native.Mathlib.Omega.{arith}
use grainlify_stellar_contra.Base.Tests.{Bool-cases, ◌==◌, if◌then◌else◌}

module _ {ℓ} {A : Type ℓ} where
  abbrev pub length : List A → ℕ
  length [] = 0
  length (x ∷ xs) = suc (length xs)

  pub length-append : (xs ys : List A) → length (xs ++ ys) ≡ length xs + length ys
  length-append [] ys = omega arith
  length-append (x ∷ xs) ys = omega (arith, length-append xs ys)

  -- `Vec::push_back`
  abbrev pub push_back : List A → A → List A
  push_back xs x = xs ++ x ∷ []

module _ {ℓ} {A : Type ℓ} where
  abbrev pub count_where : (A → Bool) → List A → ℕ
  count_where p [] = 0
  count_where p (x ∷ xs) = (if p x then 1 else 0) + count_where p xs

-- `Vec::contains`, at addresses and identifiers.
abbrev pub contains : List ℕ → ℕ → Bool
contains [] a = false
contains (x ∷ xs) a = x == a || contains xs a

-- No entry occurs twice.
abbrev pub IsDistinct : List ℕ → Type 0
IsDistinct [] = Unit
IsDistinct (x ∷ xs) = (contains xs x ≡ false) × IsDistinct xs

pub contains-push_back :
    (xs : List ℕ) (a b : ℕ) → contains (push_back xs b) a ≡ (contains xs a || b == a)
contains-push_back [] a b = ground arith
contains-push_back (x ∷ xs) a b = ground (arith, contains-push_back xs a b)

pub push_back-IsDistinct :
    (xs : List ℕ) (b : ℕ) → IsDistinct xs → contains xs b ≡ false → IsDistinct (push_back xs b)
push_back-IsDistinct [] b d h = (refl, tt)
push_back-IsDistinct (x ∷ xs) b d h =
    ground (arith, push_back-IsDistinct xs b d.1, contains-push_back xs x b)

-- A property of each entry.
abbrev pub All {ℓ κ} : {A : Type ℓ} → (A → Type κ) → List A → Type κ
All P [] = Unit
All P (x ∷ xs) = P x × All P xs

module _ {ℓ κ μ} {A : Type ℓ} {P : A → Type κ} {Q : A → Type μ} where
  pub All-map : (f : (x : A) → P x → Q x) (xs : List A) → All P xs → All Q xs
  All-map f [] h = tt
  All-map f (x ∷ xs) h = (f x h.0, All-map f xs h.1)

module _ {ℓ κ μ} {A : Type ℓ} (P : A → Type κ) (Q : A → Type μ) where
  pub All-both : (xs : List A) → All P xs → All Q xs → All (λ x. P x × Q x) xs
  All-both [] h k = tt
  All-both (x ∷ xs) h k = ((h.0, k.0), All-both xs h.1 k.1)

module _ {ℓ κ} {A : Type ℓ} (P : A → Type κ) where
  pub All-push_back : (xs : List A) (x : A) → All P xs → P x → All P (push_back xs x)
  All-push_back [] x h k = (k, tt)
  All-push_back (y ∷ ys) x h k = (h.0, All-push_back ys x h.1 k)

module _ {ℓ} {A : Type ℓ} where
  abbrev pub take : ℕ → List A → List A
  take n [] = []
  take zero (x ∷ xs) = []
  take (suc n) (x ∷ xs) = x ∷ take n xs

  abbrev pub drop : ℕ → List A → List A
  drop n [] = []
  drop zero (x ∷ xs) = x ∷ xs
  drop (suc n) (x ∷ xs) = drop n xs

  abbrev pub filter : (A → Bool) → List A → List A
  filter p [] = []
  filter p (x ∷ xs) = let rest = filter p xs in if p x then x ∷ rest else rest

  pub take_zero : (xs : List A) → take 0 xs ≡ []
  take_zero [] = refl
  take_zero (x ∷ xs) = refl

  pub drop_zero : (xs : List A) → drop 0 xs ≡ xs
  drop_zero [] = refl
  drop_zero (x ∷ xs) = refl

  pub drop-drop : (m n : ℕ) (xs : List A) → drop n (drop m xs) ≡ drop (m + n) xs
  drop-drop m n [] = refl
  drop-drop zero n (x ∷ xs) = ground arith
  drop-drop (suc m) n (x ∷ xs) = ground (arith, drop-drop m n xs)

  -- A piece of a list and the piece after it.
  pub take-split : (m n : ℕ) (xs : List A) → take m xs ++ take n (drop m xs) ≡ take (m + n) xs
  take-split m n [] = refl
  take-split zero n (x ∷ xs) = ground arith
  take-split (suc m) n (x ∷ xs) = ground (arith, take-split m n xs)

module _ {ℓ} {A : Type ℓ} where
  pub append_nil : (xs : List A) → xs ≡ xs ++ []
  append_nil [] = refl
  append_nil (x ∷ xs) = ap (λ (ys : List A). x ∷ ys) (append_nil xs)

  pub append_assoc_one : (xs : List A) (x : A) (ys : List A) → push_back xs x ++ ys ≡ xs ++ x ∷ ys
  append_assoc_one [] x ys = refl
  append_assoc_one (z ∷ zs) x ys = ap (λ (ws : List A). z ∷ ws) (append_assoc_one zs x ys)

-- What holds of each entry holds of one that the list contains.
pub All-contains {κ} :
    (P : ℕ → Type κ) (xs : List ℕ) (a : ℕ) → All P xs → contains xs a ≡ true → P a
All-contains P [] a h k = absurd (ground arith)
All-contains P (x ∷ xs) a h k = elim (Bool-cases (x == a)) [
  | inl same ↦ let here : x ≡ a = ground arith in subst P here h.0
  | inr other ↦ All-contains P xs a h.1 (ground arith)
]
