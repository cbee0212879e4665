-- ===== src/Base/Rows.antt =====
-- What the writes of a table do to what is read from it, and to what holds of all its rows.
use mathlib.Core.Bool.{Bool, true, false}
use mathlib.Core.List.{List, [], ◌∷◌, ◌++◌}
use mathlib.Core.Option.{some, none}
use mathlib.Core.Path.{◌≡◌, refl}
use mathlib.Core.Logic.{◌⊎◌}
use native.Mathlib.Omega.{arith}
use proyecto_verde_auth.Base.Lists.{first, select, put, rewrite, All, first-All}
use proyecto_verde_auth.Base.Strings.{Text, same, same_iff, same_refl}
use proyecto_verde_auth.Base.Tests.{if◌then◌else◌}

module _ {ℓ κ} {A : Type ℓ} (P : A → Type κ) where
  pub put-All : (p : A → Bool) (a : A) (xs : List A) → P a → All P xs → All P (put p a xs)
  unfolding put
  put-All p a [] h k = (h, tt)
  put-All p a (x ∷ xs) h k = ground (arith, put-All p a xs h k.1)

  pub select-All : (p : A → Bool) (xs : List A) → All P xs → All P (select p xs)
  unfolding select
  select-All p [] k = tt
  select-All p (x ∷ xs) k = ground (arith, select-All p xs k.1)

  pub rewrite-All :
      (p : A → Bool) (f : A → A) (xs : List A)
      → ((x : A) → P x → P (f x))
      → All P xs
      → All P (rewrite p f xs)
  unfolding rewrite
  rewrite-All p f [] h k = tt
  rewrite-All p f (x ∷ xs) h k = ground (arith, h x, rewrite-All p f xs h k.1)

-- No two rows have one key.
module _ {ℓ} {A : Type ℓ} (key : A → Text) where
  abbrev pub Distinct : List A → Type 0
  Distinct [] = Unit
  Distinct (x ∷ xs) = All (λ y. same (key x) (key y) ≡ false) xs × Distinct xs

  -- A row with a new key goes to the end.
  pub put_new :
      (a : A) (xs : List A)
      → All (λ x. same (key x) (key a) ≡ false) xs
      → put (λ x. same (key x) (key a)) a xs ≡ xs ++ a ∷ []
  unfolding put
  put_new a [] h = refl
  put_new a (x ∷ xs) h = ground (arith, put_new a xs h.1)

  -- A row written back under its key is the one that the same search finds next.
  pub first-put :
      (p : A → Bool) (a b : A) (xs : List A)
      → Distinct xs
      → first p xs ≡ some a
      → key b ≡ key a
      → p b ≡ true
      → first p (put (λ x. same (key x) (key b)) b xs) ≡ some b
  unfolding first put
  first-put p a b [] d e k h = cc
  first-put p a b (x ∷ xs) d e k h = ground (
    arith,
    same_iff (key x) (key b),
    first-put p a b xs d.1,
    first-All (λ y. same (key x) (key y) ≡ false) p xs a d.0,
  )

  -- So is a row rewritten by its key.
  pub first-rewrite :
      (p : A → Bool) (f : A → A) (a : A) (k : Text) (xs : List A)
      → Distinct xs
      → first p xs ≡ some a
      → key a ≡ k
      → p (f a) ≡ true
      → first p (rewrite (λ x. same (key x) k) f xs) ≡ some (f a)
  unfolding first rewrite
  first-rewrite p f a k [] d e i h = cc
  first-rewrite p f a k (x ∷ xs) d e i h = ground (
    arith,
    same_iff (key x) k,
    first-rewrite p f a k xs d.1,
    first-All (λ y. same (key x) (key y) ≡ false) p xs a d.0,
  )

  -- A row that some search finds is the one that its key finds.
  pub first-key :
      (p : A → Bool) (a : A) (xs : List A)
      → Distinct xs
      → first p xs ≡ some a
      → first (λ x. same (key x) (key a)) xs ≡ some a
  unfolding first
  first-key p a [] d e = cc
  first-key p a (x ∷ xs) d e = ground (
    arith,
    same_refl (key x),
    first-key p a xs d.1,
    first-All (λ y. same (key x) (key y) ≡ false) p xs a d.0,
  )

  -- If only the rows with one key fit, and rewriting them makes them unfit, no row fits afterwards.
  pub first-rewrite-none :
      (p : A → Bool) (f : A → A) (k : Text) (xs : List A)
      → All (λ x. (same (key x) k ≡ true) ⊎ (p x ≡ false)) xs
      → ((x : A) → p (f x) ≡ false)
      → first p (rewrite (λ x. same (key x) k) f xs) ≡ none
  unfolding first rewrite
  first-rewrite-none p f k [] h g = refl
  first-rewrite-none p f k (x ∷ xs) h g = ground (arith, g x, first-rewrite-none p f k xs h.1 g)

  -- If no row fits, and rewriting the row that another search finds makes it fit, it is the one found.
  pub first-rewrite_new :
      (p q : A → Bool) (f : A → A) (a : A) (xs : List A)
      → Distinct xs
      → first q xs ≡ some a
      → All (λ x. p x ≡ false) xs
      → p (f a) ≡ true
      → first p (rewrite (λ x. same (key x) (key a)) f xs) ≡ some (f a)
  unfolding first rewrite
  first-rewrite_new p q f a [] d e n h = cc
  first-rewrite_new p q f a (x ∷ xs) d e n h = ground (
    arith,
    same_iff (key x) (key a),
    same_refl (key a),
    first-rewrite_new p q f a xs d.1,
    first-All (λ y. same (key x) (key y) ≡ false) q xs a d.0,
  )

  -- Then only rows with its key fit.
  pub rewrite_sole :
      (p : A → Bool) (f : A → A) (k : Text) (xs : List A)
      → ((x : A) → key (f x) ≡ key x)
      → All (λ x. p x ≡ false) xs
      → All (λ x. (same (key x) k ≡ true) ⊎ (p x ≡ false)) (rewrite (λ x. same (key x) k) f xs)
  unfolding rewrite
  rewrite_sole p f k [] kept n = tt
  rewrite_sole p f k (x ∷ xs) kept n = ground (arith, kept x, rewrite_sole p f k xs kept n.1)

  put-keys :
      (k : Text) (b : A) (xs : List A)
      → same k (key b) ≡ false
      → All (λ y. same k (key y) ≡ false) xs
      → All (λ y. same k (key y) ≡ false) (put (λ x. same (key x) (key b)) b xs)
  put-keys k b xs = put-All (λ y. same k (key y) ≡ false) (λ x. same (key x) (key b)) b xs

  keys_eq :
      (k l : Text) (xs : List A)
      → k ≡ l
      → All (λ y. same k (key y) ≡ false) xs
      → All (λ y. same l (key y) ≡ false) xs
  keys_eq k l xs e h = rw (← e) h

  -- Writing a row keeps the keys distinct.
  pub put-Distinct :
      (b : A) (xs : List A) → Distinct xs → Distinct (put (λ x. same (key x) (key b)) b xs)
  unfolding put
  put-Distinct b [] d = (tt, tt)
  put-Distinct b (x ∷ xs) d = ground (
    arith,
    same_iff (key x) (key b),
    keys_eq (key x) (key b) xs,
    put-keys (key x) b xs,
    put-Distinct b xs d.1,
  )

  rewrite-keys :
      (k : Text) (p : A → Bool) (f : A → A) (xs : List A)
      → ((x : A) → key (f x) ≡ key x)
      → All (λ y. same k (key y) ≡ false) xs
      → All (λ y. same k (key y) ≡ false) (rewrite p f xs)
  rewrite-keys k p f xs h = rewrite-All (λ y. same k (key y) ≡ false) p f xs (λ x q. rw (h x) q)

  key_kept :
      (p : A → Bool) (f : A → A) (x : A) → key (f x) ≡ key x → key x ≡ key (if p x then f x else x)
  key_kept p f x h = ground arith

  pub rewrite-Distinct :
      (p : A → Bool) (f : A → A) (xs : List A)
      → ((x : A) → key (f x) ≡ key x)
      → Distinct xs
      → Distinct (rewrite p f xs)
  unfolding rewrite
  rewrite-Distinct p f [] h d = tt
  rewrite-Distinct p f (x ∷ xs) h d = (
    keys_eq (key x) (key (if p x then f x else x)) (rewrite p f xs) (key_kept p f x (h x))
        (rewrite-keys (key x) p f xs h d.0),
    rewrite-Distinct p f xs h d.1,
  )
