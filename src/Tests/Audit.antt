-- ===== src/Tests/Audit.antt =====
-- A table whose rows are sorted by insertion, and an entry of Ann's.
use mathlib.Core.List.{Memᴰ}
use mathlib.Core.List.Memᴰ
use proyecto_verde_auth.Audit.Entity.{AuditLog}
use proyecto_verde_auth.Audit.Newest.{
  FindOptions, FindMany, IsBefore, IsOrdered, IsFind, IsNewestFirst, find_by_user_id,
  log-find_by_user_id,
}
use proyecto_verde_auth.Audit.Service.{log, audit_row}
use proyecto_verde_auth.Base.{
  ℕ, zero, suc, ◌≤◌, ◌≡◌, ◌⊎◌, inl, inr, refl, ap, sym, ◌∙◌, Bool, true, List, [], ◌∷◌, none, some,
  codes, All, holds, select, take, length, arith, Bool-cases,
}
use proyecto_verde_auth.Tests.Demo.{demo, demo-IsDatabase, system, ann}
use proyecto_verde_auth.Tests.Sorted.{
  sorted, either, sorted-IsOrdered, sorted-All, sorted-Memᴰ, in_sorted, at_member,
}

abbrev find_sorted : FindMany
find_sorted o rows = take o.limit (sorted o (select o.fits rows))

select-Memᴰ :
    (p : AuditLog → Bool) (x : AuditLog) (l : List AuditLog) → Memᴰ x (select p l) → Memᴰ x l
unfolding select
select-Memᴰ p x [] m = m
select-Memᴰ p x (a ∷ l) m = elim (either (p a) x (a ∷ select p l) (select p l) m) [
  | inl kept ↦ elim (Memᴰ.cases_cons kept) [
    | inl e ↦ Memᴰ.head e
    | inr later ↦ Memᴰ.tail (select-Memᴰ p x l later)
  ]
  | inr later ↦ Memᴰ.tail (select-Memᴰ p x l later)
]

take-Memᴰ : (n : ℕ) (x : AuditLog) (l : List AuditLog) → Memᴰ x (take n l) → Memᴰ x l
take-Memᴰ zero x l m = absurd (Memᴰ.not-nil m)
take-Memᴰ (suc n) x [] m = absurd (Memᴰ.not-nil m)
take-Memᴰ (suc n) x (a ∷ l) m = elim (Memᴰ.cases_cons m) [
  | inl e ↦ Memᴰ.head e
  | inr later ↦ Memᴰ.tail (take-Memᴰ n x l later)
]

length-take_le : (n : ℕ) (l : List AuditLog) → length (take n l) ≤ n
length-take_le zero l = omega arith
length-take_le (suc n) [] = omega arith
length-take_le (suc n) (a ∷ l) = let h = length-take_le n l in omega arith

selected :
    (p : AuditLog → Bool) (x : AuditLog) (l : List AuditLog)
    → Memᴰ x l
    → p x ≡ true
    → Memᴰ x (select p l)
unfolding select
selected p x [] m h = absurd (Memᴰ.not-nil m)
selected p x (a ∷ l) m h = elim (Memᴰ.cases_cons m) [
  | inl e ↦ rw (ap p (sym e) ∙ h) (Memᴰ.head e)
  | inr later ↦ elim (Bool-cases (p a)) [
    | inl fits ↦ rw fits (Memᴰ.tail (selected p x l later h))
    | inr other ↦ rw other (selected p x l later h)
  ]
]

select-fits : (p : AuditLog → Bool) (l : List AuditLog) → All (λ a. p a ≡ true) (select p l)
unfolding select
select-fits p [] = tt
select-fits p (a ∷ l) = elim (Bool-cases (p a)) [
  | inl fits ↦ rw fits (fits, select-fits p l)
  | inr other ↦ rw other (select-fits p l)
]

take-All : (P : AuditLog → Type 0) (n : ℕ) (l : List AuditLog) → All P l → All P (take n l)
take-All P zero l h = tt
take-All P (suc n) [] h = tt
take-All P (suc n) (a ∷ l) h = (h.0, take-All P n l h.1)

take-IsOrdered :
    (o : FindOptions) (n : ℕ) (l : List AuditLog) → IsOrdered o l → IsOrdered o (take n l)
take-IsOrdered o zero l h = tt
take-IsOrdered o (suc n) [] h = tt
take-IsOrdered o (suc n) (a ∷ l) h = (take-All (IsBefore o a) n l h.0, take-IsOrdered o n l h.1)

-- What is taken, or all that is taken is before it.
taken :
    (o : FindOptions) (n : ℕ) (x : AuditLog) (l : List AuditLog)
    → IsOrdered o l
    → Memᴰ x l
    → Memᴰ x (take n l) ⊎ ((length (take n l) ≡ n) × All (λ b. IsBefore o b x) (take n l))
taken o zero x l h m = inr (refl, tt)
taken o (suc n) x [] h m = absurd (Memᴰ.not-nil m)
taken o (suc n) x (a ∷ l) h m = elim (Memᴰ.cases_cons m) [
  | inl e ↦ inl (Memᴰ.head e)
  | inr later ↦ elim (taken o n x l h.1 later) [
    | inl shown ↦ inl (Memᴰ.tail shown)
    | inr (full, before) ↦ inr (ap suc full, (at_member (IsBefore o a) l x h.0 later, before))
  ]
]

find_sorted-IsFind : IsFind find_sorted
find_sorted-IsFind = record {
  stored = λ o rows a m. select-Memᴰ o.fits a rows (
      sorted-Memᴰ o a (select o.fits rows) (take-Memᴰ o.limit a (sorted o (select o.fits rows)) m));
  fitting = λ o rows.
      take-All (λ a. o.fits a ≡ true) o.limit _
        (sorted-All (λ a. o.fits a ≡ true) o (select o.fits rows) (select-fits o.fits rows));
  bounded = λ o rows from. length-take_le o.limit (sorted o (select o.fits rows));
  ordered = λ o rows. take-IsOrdered o o.limit _ (sorted-IsOrdered o (select o.fits rows));
  complete = λ o rows a from m fits.
      taken o o.limit a (sorted o (select o.fits rows)) (sorted-IsOrdered o (select o.fits rows))
        (in_sorted o a (select o.fits rows) (selected o.fits a rows m fits));
}

log-find_by_user_id_example :
    let s' = (log demo (codes "n") 9 (codes "LOGOUT") (some ann.id) none none true system).1 in
    let shown = find_by_user_id find_sorted ann.id none s'.audit_logs in
    (length shown ≤ 100)
    × All (λ (x : AuditLog). holds x.user_id ann.id ≡ true) shown
    × IsNewestFirst shown
    × ((rest : List AuditLog) × (shown
          ≡ audit_row (codes "n") 9 (codes "LOGOUT") (some ann.id) none none true ∷ rest))
log-find_by_user_id_example =
    log-find_by_user_id find_sorted find_sorted-IsFind demo (codes "n") 9 (codes "LOGOUT") ann.id
      none none true system tt demo-IsDatabase tt none (omega arith)
