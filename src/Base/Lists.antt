-- ===== src/Base/Lists.antt =====
-- Lists as the rows of a table: the first row that fits, the rows that fit, rewriting the rows that
-- fit, and inserting a row or replacing the one with its key.
use Prim.Native.Nat.{ℕ, zero, suc, ◌+◌}
use mathlib.Core.Bool.{Bool, true, false, ◌||◌}
use mathlib.Core.List.{List, [], ◌∷◌, ◌++◌, map}
use mathlib.Core.Option
use mathlib.Core.Option.{Option, none, some}
use mathlib.Core.Path.{◌≡◌, refl}
use native.Mathlib.Nat.{zero-add, suc-add}
use native.Mathlib.Omega.{arith}
use proyecto_verde_auth.Base.Tests.{if◌then◌else◌}

module _ {ℓ} {A : Type ℓ} where
  abbrev pub length : List A → ℕ
  length [] = 0
  length (x ∷ xs) = suc (length xs)

  abbrev pub take : ℕ → List A → List A
  take zero xs = []
  take (suc n) [] = []
  take (suc n) (x ∷ xs) = x ∷ take n xs

  abbrev pub drop : ℕ → List A → List A
  drop zero xs = xs
  drop (suc n) [] = []
  drop (suc n) (x ∷ xs) = drop n xs

  unfoldable pub first : (A → Bool) → List A → Option A
  first p [] = none
  first p (x ∷ xs) = if p x then some x else first p xs

  unfoldable pub select : (A → Bool) → List A → List A
  select p [] = []
  select p (x ∷ xs) = let rest = select p xs in if p x then x ∷ rest else rest

  unfoldable pub any : (A → Bool) → List A → Bool
  any p [] = false
  any p (x ∷ xs) = p x || any p xs

  unfoldable pub put : (A → Bool) → A → List A → List A
  put p a [] = a ∷ []
  put p a (x ∷ xs) = if p x then a ∷ xs else x ∷ put p a xs

module _ {ℓ} {A : Type ℓ} where
  unfoldable pub rewrite : (A → Bool) → (A → A) → List A → List A
  rewrite p f = map (λ x. if p x then f x else x)

  abbrev pub All {κ} : (A → Type κ) → List A → Type κ
  All P [] = Unit
  All P (x ∷ xs) = P x × All P xs

  pub first-holds : (p : A → Bool) (xs : List A) (a : A) → first p xs ≡ some a → p a ≡ true
  unfolding first
  first-holds p [] a h = cc
  first-holds p (x ∷ xs) a h = ground (arith, first-holds p xs a)

  pub first-map :
      (p : A → Bool) (g : A → A) (xs : List A)
      → ((x : A) → p (g x) ≡ p x)
      → first p (map g xs) ≡ Option.map g (first p xs)
  unfolding first
  first-map p g [] h = refl
  first-map p g (x ∷ xs) h = ground (arith, h x, first-map p g xs h)

  pub first-All {κ} :
      (P : A → Type κ) (p : A → Bool) (xs : List A) (a : A) → All P xs → first p xs ≡ some a → P a
  unfolding first
  first-All P p [] a h e = cc
  first-All P p (x ∷ xs) a h e = ground (arith, first-All P p xs a h.1)

module _ {ℓ} {A : Type ℓ} where
  pub take-append : (n : ℕ) (xs ys : List A) → length xs ≡ n → take n (xs ++ ys) ≡ xs
  take-append zero [] ys h = refl
  take-append zero (x ∷ xs) ys h = absurd (omega arith)
  take-append (suc n) [] ys h = absurd (omega arith)
  take-append (suc n) (x ∷ xs) ys h = rw (take-append n xs ys (omega arith))

  pub drop-append : (n : ℕ) (xs ys : List A) → length xs ≡ n → drop n (xs ++ ys) ≡ ys
  drop-append zero [] ys h = refl
  drop-append zero (x ∷ xs) ys h = absurd (omega arith)
  drop-append (suc n) [] ys h = absurd (omega arith)
  drop-append (suc n) (x ∷ xs) ys h = drop-append n xs ys (omega arith)

  drop-nil : (n : ℕ) → drop n (let l : List A = [] in l) ≡ []
  drop-nil zero = refl
  drop-nil (suc n) = refl

  pub drop-drop : (m n : ℕ) (xs : List A) → drop (m + n) xs ≡ drop n (drop m xs)
  drop-drop zero n xs = rw zero-add
  drop-drop (suc m) n [] = rw (suc-add, drop-nil n)
  drop-drop (suc m) n (x ∷ xs) = rw suc-add (drop-drop m n xs)
