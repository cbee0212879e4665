-- ===== src/Exec/Keeps.antt =====
-- An action that keeps a property of the stored state, whether it returns or throws.
use proyecto_verde_auth.Base.{Bool, true, false, if◌then◌else◌}
use proyecto_verde_auth.Exec.{
  System, Exec, Result, ok, throws, Exception, pure, throw, gets, lift, continue, ◌>>=◌, ◌>>◌,
}

pub record Keeps (P : System → Type 0) {A : Type 0} (m : Exec A) : Type 0 where
  pub at : (s : System) → P s → P (m s).1

module _ {P : System → Type 0} where
  pub Keeps-pure : {A : Type 0} (a : A) → Keeps P (pure a)
  Keeps-pure a = record { at = λ s h. h }

  pub Keeps-throw : {A : Type 0} (e : Exception) → Keeps P (throw {A = A} e)
  Keeps-throw e = record { at = λ s h. h }

  pub Keeps-lift : {A : Type 0} (r : Result A) → Keeps P (lift r)
  Keeps-lift r = record { at = λ s h. h }

  pub Keeps-gets : {A : Type 0} (f : System → A) → Keeps P (gets f)
  Keeps-gets f = record { at = λ s h. h }

  continue_at :
      {A B : Type 0} (r : Result A) (s : System) (f : A → Exec B)
      → P s
      → ((a : A) → Keeps P (f a))
      → P (continue f r s).1
  continue_at (ok a) s f h k = (k a).at s h
  continue_at (throws e) s f h k = h

  pub Keeps-bind :
      {A B : Type 0} (m : Exec A) (f : A → Exec B)
      → Keeps P m
      → ((a : A) → Keeps P (f a))
      → Keeps P (m >>= f)
  Keeps-bind m f h k = record { at = λ s q. continue_at (m s).0 (m s).1 f (h.at s q) k }

  pub Keeps-then :
      {A B : Type 0} (m : Exec A) (n : Exec B) → Keeps P m → Keeps P n → Keeps P (m >> n)
  Keeps-then m n h k = Keeps-bind m (λ _. n) h (λ _. k)

  pub Keeps-if :
      {A : Type 0} (b : Bool) (m n : Exec A) → Keeps P m → Keeps P n → Keeps P (if b then m else n)
  Keeps-if true m n h k = h
  Keeps-if false m n h k = k

  -- After a read, what is known of the value that was read may be used.
  pub Keeps-gets_bind :
      {A B : Type 0} (Q : A → Type 0) (f : System → A) (g : A → Exec B)
      → ((s : System) → P s → Q (f s))
      → ((a : A) → Q a → Keeps P (g a))
      → Keeps P (gets f >>= g)
  Keeps-gets_bind Q f g h k = record { at = λ s q. (k (f s) (h s q)).at s q }

pub ruleset keeps_rules =
    (Keeps-pure, Keeps-throw, Keeps-lift, Keeps-gets, Keeps-bind, Keeps-then, Keeps-if)
