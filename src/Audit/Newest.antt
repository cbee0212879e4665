-- ===== src/Audit/Newest.antt =====
-- `findByUserId` of src/audit-log/audit-log.service.ts, which nothing calls yet, after `log`.
use mathlib.Core.List.{Memᴰ}
use mathlib.Core.List.Memᴰ
use proyecto_verde_auth.Audit.Entity.{AuditLog}
use proyecto_verde_auth.Audit.Service.{log, audit_row}
use proyecto_verde_auth.Base.{
  ℕ, ◌≤◌, ◌<◌, ◌≡◌, ◌⊎◌, inl, inr, refl, ap, sym, subst, Bool, true, false, List, [], ◌∷◌, ◌++◌,
  Option, none, some, Text, same, same_refl, holds, All, leb, length, arith, put_new,
}
use proyecto_verde_auth.Exec.{System}
use proyecto_verde_auth.Platform.{Platform, IsDatabase, IsDatabase-eq, on_tables}

pub data Direction : Type 0 where
  ascending descending : Direction

-- `where`, `order` by a column in a direction, and `take`
pub record FindOptions : Type 0 where
  pub fits : AuditLog → Bool
  pub column : AuditLog → ℕ
  pub direction : Direction
  pub limit : ℕ

-- `auditLogRepository.find`
abbrev pub FindMany : Type 0
FindMany = FindOptions → List AuditLog → List AuditLog

unfoldable pub in_order : Direction → ℕ → ℕ → Bool
in_order ascending m n = leb m n
in_order descending m n = leb n m

abbrev pub IsBefore : FindOptions → AuditLog → AuditLog → Type 0
IsBefore o a b = in_order o.direction (o.column a) (o.column b) ≡ true

-- Each row is in order with all rows after it.
abbrev pub IsOrdered : FindOptions → List AuditLog → Type 0
IsOrdered o [] = Unit
IsOrdered o (a ∷ rest) = All (IsBefore o a) rest × IsOrdered o rest

-- What TypeORM documents of `find`: rows of the table that fit, in the order asked for and no more than asked
-- for, where a row that fits is left out only if there are as many, and all in order before it.
pub record IsFind (find : FindMany) : Type 0 where
  pub stored :
      (o : FindOptions) (rows : List AuditLog) (a : AuditLog) → Memᴰ a (find o rows) → Memᴰ a rows
  pub fitting : (o : FindOptions) (rows : List AuditLog) → All (λ a. o.fits a ≡ true) (find o rows)
  pub bounded :
      (o : FindOptions) (rows : List AuditLog) → 1 ≤ o.limit → length (find o rows) ≤ o.limit
  pub ordered : (o : FindOptions) (rows : List AuditLog) → IsOrdered o (find o rows)
  pub complete :
      (o : FindOptions) (rows : List AuditLog) (a : AuditLog)
      → 1 ≤ o.limit
      → Memᴰ a rows
      → o.fits a ≡ true
      → Memᴰ a (find o rows)
        ⊎ ((length (find o rows) ≡ o.limit) × All (λ b. IsBefore o b a) (find o rows))

-- `limit = 100`
abbrev pub limit_or_default : Option ℕ → ℕ
limit_or_default none = 100
limit_or_default (some n) = n

unfoldable pub of_user : Text → Option ℕ → FindOptions
of_user user limit = record {
  fits = λ a. holds a.user_id user;
  column = λ a. a.timestamp;
  direction = descending;
  limit = limit_or_default limit;
}

unfoldable pub find_by_user_id : FindMany → Text → Option ℕ → List AuditLog → List AuditLog
unfolding of_user
find_by_user_id find user limit rows = find (of_user user limit) rows

-- Newest first: no row is older than one after it.
abbrev pub IsNewestFirst : List AuditLog → Type 0
IsNewestFirst [] = Unit
IsNewestFirst (a ∷ rest) =
    All (λ (b : AuditLog). b.timestamp ≤ a.timestamp) rest × IsNewestFirst rest

All-Memᴰ : (P : AuditLog → Type 0) (xs : List AuditLog) (a : AuditLog) → All P xs → Memᴰ a xs → P a
All-Memᴰ P [] a h m = absurd (Memᴰ.not-nil m)
All-Memᴰ P (x ∷ xs) a h (Memᴰ.head e) = subst P (sym e) h.0
All-Memᴰ P (x ∷ xs) a h (Memᴰ.tail m) = All-Memᴰ P xs a h.1 m

All-map :
    (P Q : AuditLog → Type 0) (xs : List AuditLog)
    → ((a : AuditLog) → P a → Q a)
    → All P xs
    → All Q xs
All-map P Q [] f h = tt
All-map P Q (x ∷ xs) f h = (f x h.0, All-map P Q xs f h.1)

module _ (user : Text) (limit : Option ℕ) where
  newer : (a b : AuditLog) → IsBefore (of_user user limit) a b → b.timestamp ≤ a.timestamp
  unfolding of_user in_order
  newer a b h = ground arith

  ordered-IsNewestFirst : (l : List AuditLog) → IsOrdered (of_user user limit) l → IsNewestFirst l
  ordered-IsNewestFirst [] h = tt
  ordered-IsNewestFirst (a ∷ rest) h = (
    All-map (IsBefore (of_user user limit) a) (λ (b : AuditLog). b.timestamp ≤ a.timestamp) rest
        (newer a) h.0,
    ordered-IsNewestFirst rest h.1,
  )

-- A row that is newer than all others comes first, wherever it is, or is not shown and older than others.
first_is :
    (rows shown : List AuditLog) (a : AuditLog)
    → All (λ (x : AuditLog). x.timestamp < a.timestamp) rows
    → ((b : AuditLog) → Memᴰ b shown → Memᴰ b (rows ++ a ∷ []))
    → IsNewestFirst shown
    → Memᴰ a shown ⊎ ((1 ≤ length shown) × All (λ (b : AuditLog). a.timestamp ≤ b.timestamp) shown)
    → (rest : List AuditLog) × (shown ≡ a ∷ rest)
first_is rows [] a earlier inside newest (inl m) = absurd (Memᴰ.not-nil m)
first_is rows [] a earlier inside newest (inr (some_shown, older)) = absurd (omega arith)
first_is rows (b ∷ rest) a earlier inside newest found =
    let not_older : a.timestamp ≤ b.timestamp = elim found [
      | inl m ↦ elim (Memᴰ.cases_cons m) [
        | inl is_b ↦ let same_time = ap (λ (x : AuditLog). x.timestamp) is_b in omega arith
        | inr later ↦ All-Memᴰ (λ (x : AuditLog). x.timestamp ≤ b.timestamp) rest a newest.0 later
      ]
      | inr (some_shown, older) ↦ older.0
    ] in
    elim (Memᴰ.append_cases rows (inside b (Memᴰ.head refl))) [
      | inl before ↦
          let less = All-Memᴰ (λ (x : AuditLog). x.timestamp < a.timestamp) rows b earlier before in
          absurd (omega arith)
      | inr last ↦ elim (Memᴰ.cases_cons last) [
        | inl is_a ↦ (rest, ap (λ x. x ∷ rest) is_a)
        | inr nowhere ↦ absurd (Memᴰ.not-nil nowhere)
      ]
    ]

module _ (find : FindMany) (laws : IsFind find) where
  -- What is shown of a user's rows.
  shown_rows :
      (user : Text) (limit : Option ℕ) (rows : List AuditLog)
      → 1 ≤ limit_or_default limit
      → let shown = find_by_user_id find user limit rows in
        (length shown ≤ limit_or_default limit)
        × All (λ (x : AuditLog). holds x.user_id user ≡ true) shown
        × IsNewestFirst shown
  unfolding find_by_user_id of_user
  shown_rows user limit rows from = (
    laws.bounded (of_user user limit) rows from,
    laws.fitting (of_user user limit) rows,
    ordered-IsNewestFirst user limit _ (laws.ordered (of_user user limit) rows),
  )

  row_first :
      (user : Text) (limit : Option ℕ) (rows : List AuditLog) (a : AuditLog)
      → 1 ≤ limit_or_default limit
      → holds a.user_id user ≡ true
      → All (λ (x : AuditLog). x.timestamp < a.timestamp) rows
      → (rest : List AuditLog) × (find_by_user_id find user limit (rows ++ a ∷ []) ≡ a ∷ rest)
  unfolding find_by_user_id of_user
  row_first user limit rows a from fits earlier =
      let o = of_user user limit in
      let all = rows ++ a ∷ [] in
      first_is rows (find o all) a earlier (laws.stored o all)
        (ordered-IsNewestFirst user limit _ (laws.ordered o all))
        (elim (laws.complete o all a from (Memᴰ.append_right rows (Memᴰ.head refl)) fits) [
          | inl found ↦ inl found
          | inr (full, older) ↦ inr (
            omega arith,
            All-map (λ b. IsBefore o b a) (λ (b : AuditLog). a.timestamp ≤ b.timestamp) _
                (λ b h. newer user limit b a h) older,
          )
        ])

  module _ (p : Platform) (id : Text) (now : ℕ) (action user : Text) (ip device : Option Text)
      (success : Bool) (s : System)
      (new : All (λ (x : AuditLog). same x.id id ≡ false) s.audit_logs) where
    appended :
        (log (on_tables p) id now action (some user) ip device success s).1.audit_logs
        ≡ s.audit_logs ++ audit_row id now action (some user) ip device success ∷ []
    unfolding log
    appended =
        put_new (λ (x : AuditLog). x.id) (audit_row id now action (some user) ip device success)
          s.audit_logs new

    -- On a documented database, for an id that is new to the audit log and an instant after those of all of
    -- its rows: after `log` of an action of a user, `findByUserId` for this user, with a limit of 1 or more
    -- or the default, answers with no more rows than the limit, all of them of this user and newest first,
    -- and the first is the row that `log` wrote.
    pub log-find_by_user_id :
        IsDatabase p
        → All (λ (x : AuditLog). x.timestamp < now) s.audit_logs
        → (limit : Option ℕ) → 1 ≤ limit_or_default limit
        → let s' = (log p id now action (some user) ip device success s).1 in
          let shown = find_by_user_id find user limit s'.audit_logs in
          (length shown ≤ limit_or_default limit)
          × All (λ (x : AuditLog). holds x.user_id user ≡ true) shown
          × IsNewestFirst shown
          × ((rest : List AuditLog) × (shown
                ≡ audit_row id now action (some user) ip device success ∷ rest))
    log-find_by_user_id db earlier limit from =
        rw (IsDatabase-eq p db, appended)
          (let (bounded, fitting, newest) = shown_rows user limit _ from in
            (
              bounded,
              fitting,
              newest,
              row_first user limit s.audit_logs
                  (audit_row id now action (some user) ip device success) from (same_refl user)
                  earlier,
            ))
