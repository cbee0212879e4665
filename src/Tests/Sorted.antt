-- ===== src/Tests/Sorted.antt =====
-- Insertion of rows in the order that a search asks for.
use mathlib.Core.List.{Memᴰ}
use mathlib.Core.List.Memᴰ
use proyecto_verde_auth.Audit.Entity.{AuditLog}
use proyecto_verde_auth.Audit.Newest.{
  Direction, ascending, descending, FindOptions, in_order, IsBefore, IsOrdered,
}
use proyecto_verde_auth.Base.{
  ℕ, ◌≡◌, ◌⊎◌, inl, inr, sym, subst, Bool, true, false, List, [], ◌∷◌, All, arith, if◌then◌else◌,
  Bool-cases,
}

insert : FindOptions → AuditLog → List AuditLog → List AuditLog
insert o a [] = a ∷ []
insert o a (b ∷ l) =
    let later = insert o a l in
    if in_order o.direction (o.column a) (o.column b) then a ∷ b ∷ l else b ∷ later

pub sorted : FindOptions → List AuditLog → List AuditLog
unfolding insert
sorted o [] = []
sorted o (a ∷ l) = insert o a (sorted o l)

pub either :
    (c : Bool) (x : AuditLog) (l m : List AuditLog)
    → Memᴰ x (if c then l else m)
    → Memᴰ x l ⊎ Memᴰ x m
either true x l m h = inl h
either false x l m h = inr h

in_order_total : (d : Direction) (m n : ℕ) → in_order d m n ≡ false → in_order d n m ≡ true
unfolding in_order
in_order_total ascending m n h = ground arith
in_order_total descending m n h = ground arith

in_order_trans :
    (d : Direction) (l m n : ℕ)
    → in_order d l m ≡ true
    → in_order d m n ≡ true
    → in_order d l n ≡ true
unfolding in_order
in_order_trans ascending l m n h k = ground arith
in_order_trans descending l m n h k = ground arith

All-weaken :
    (P Q : AuditLog → Type 0) (l : List AuditLog) → ((x : AuditLog) → P x → Q x) → All P l → All Q l
All-weaken P Q [] f h = tt
All-weaken P Q (x ∷ l) f h = (f x h.0, All-weaken P Q l f h.1)

pub at_member :
    (P : AuditLog → Type 0) (l : List AuditLog) (x : AuditLog) → All P l → Memᴰ x l → P x
at_member P [] x h m = absurd (Memᴰ.not-nil m)
at_member P (y ∷ l) x h m = elim (Memᴰ.cases_cons m) [
  | inl e ↦ subst P (sym e) h.0
  | inr later ↦ at_member P l x h.1 later
]

insert-All :
    (P : AuditLog → Type 0) (o : FindOptions) (a : AuditLog) (l : List AuditLog)
    → P a
    → All P l
    → All P (insert o a l)
unfolding insert
insert-All P o a [] h k = (h, tt)
insert-All P o a (b ∷ l) h k = elim (Bool-cases (in_order o.direction (o.column a) (o.column b))) [
  | inl before ↦ rw before (h, k)
  | inr after ↦ rw after (k.0, insert-All P o a l h k.1)
]

insert-IsOrdered :
    (o : FindOptions) (a : AuditLog) (l : List AuditLog)
    → IsOrdered o l
    → IsOrdered o (insert o a l)
unfolding insert
insert-IsOrdered o a [] h = (tt, tt)
insert-IsOrdered o a (b ∷ l) h =
    elim (Bool-cases (in_order o.direction (o.column a) (o.column b))) [
      | inl before ↦ rw before (
        (
          before,
          All-weaken (IsBefore o b) (IsBefore o a) l
              (λ x k. in_order_trans o.direction (o.column a) (o.column b) (o.column x) before k)
              h.0,
        ),
        h,
      )
      | inr after ↦ rw after (
        insert-All (IsBefore o b) o a l (in_order_total o.direction (o.column a) (o.column b) after)
            h.0,
        insert-IsOrdered o a l h.1,
      )
    ]

insert-Memᴰ :
    (o : FindOptions) (a x : AuditLog) (l : List AuditLog)
    → Memᴰ x (insert o a l)
    → (x ≡ a) ⊎ Memᴰ x l
unfolding insert
insert-Memᴰ o a x [] m = Memᴰ.cases_cons m
insert-Memᴰ o a x (b ∷ l) m =
    elim (either (in_order o.direction (o.column a) (o.column b)) x (a ∷ b ∷ l) (b ∷ insert o a l)
      m) [
        | inl first ↦ Memᴰ.cases_cons first
        | inr after ↦ elim (Memᴰ.cases_cons after) [
          | inl e ↦ inr (Memᴰ.head e)
          | inr later ↦ elim (insert-Memᴰ o a x l later) [
            | inl e ↦ inl e
            | inr rest ↦ inr (Memᴰ.tail rest)
          ]
        ]
      ]

-- What is inserted is there, and so is what was there.
inserted :
    (o : FindOptions) (a x : AuditLog) (l : List AuditLog)
    → (x ≡ a) ⊎ Memᴰ x l
    → Memᴰ x (insert o a l)
unfolding insert
inserted o a x [] (inl e) = Memᴰ.head e
inserted o a x [] (inr m) = Memᴰ.tail m
inserted o a x (b ∷ l) h = elim (Bool-cases (in_order o.direction (o.column a) (o.column b))) [
  | inl before ↦ rw before (elim h [ inl e ↦ Memᴰ.head e | inr m ↦ Memᴰ.tail m ])
  | inr after ↦ rw after (elim h [
    | inl e ↦ Memᴰ.tail (inserted o a x l (inl e))
    | inr m ↦ elim (Memᴰ.cases_cons m) [
      | inl e ↦ Memᴰ.head e
      | inr later ↦ Memᴰ.tail (inserted o a x l (inr later))
    ]
  ])
]

pub sorted-IsOrdered : (o : FindOptions) (l : List AuditLog) → IsOrdered o (sorted o l)
unfolding sorted
sorted-IsOrdered o [] = tt
sorted-IsOrdered o (a ∷ l) = insert-IsOrdered o a (sorted o l) (sorted-IsOrdered o l)

pub sorted-All :
    (P : AuditLog → Type 0) (o : FindOptions) (l : List AuditLog) → All P l → All P (sorted o l)
unfolding sorted
sorted-All P o [] h = tt
sorted-All P o (a ∷ l) h = insert-All P o a (sorted o l) h.0 (sorted-All P o l h.1)

pub sorted-Memᴰ :
    (o : FindOptions) (x : AuditLog) (l : List AuditLog) → Memᴰ x (sorted o l) → Memᴰ x l
unfolding sorted
sorted-Memᴰ o x [] m = m
sorted-Memᴰ o x (a ∷ l) m = elim (insert-Memᴰ o a x (sorted o l) m) [
  | inl e ↦ Memᴰ.head e
  | inr later ↦ Memᴰ.tail (sorted-Memᴰ o x l later)
]

pub in_sorted :
    (o : FindOptions) (x : AuditLog) (l : List AuditLog) → Memᴰ x l → Memᴰ x (sorted o l)
unfolding sorted
in_sorted o x [] m = m
in_sorted o x (a ∷ l) m =
    inserted o a x (sorted o l)
      (elim (Memᴰ.cases_cons m) [ inl e ↦ inl e | inr later ↦ inr (in_sorted o x l later) ])
