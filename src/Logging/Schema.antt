-- ===== src/Logging/Schema.antt =====
-- The entries that `validateLogEntry` takes.
use proyecto_verde_auth.Base.{
  ◌≡◌, ◌⊎◌, ◌↔◌, refl, Bool, true, ◌&&◌, not, List, [], ◌∷◌, ◌++◌, Option, none, some, Text, codes,
  same_iff, subst, if◌then◌else◌, arith,
}
use proyecto_verde_auth.Logging.Format.{
  is_member, includes_value, is_text, required, checked, entry_errors, validation,
  validate_log_entry,
}
use proyecto_verde_auth.Logging.Json.{
  Json, null, boolean, number, string, array, object, field, is_truthy,
}
use proyecto_verde_auth.Logging.LogSchema.{valid_services, valid_results}

abbrev pub OneOf : Text → List Text → Type 0
OneOf t [] = ⊥
OneOf t (u ∷ l) = (t ≡ u) ⊎ OneOf t l

-- The field is there, is truthy, and satisfies `P`.
abbrev pub Has : (Json → Type 0) → Option Json → Type 0
Has P o = (v : Json) × (o ≡ some v) × (is_truthy (some v) ≡ true) × P v

-- A text of the list.
abbrev pub IsAmong : List Text → Json → Type 0
IsAmong l v = (t : Text) × (v ≡ string t) × OneOf t l

pub record IsWellFormed (obj : Json) : Type 0 where
  pub timestamp : Has (λ v. Unit) (field (codes "timestamp") obj)
  pub service : Has (IsAmong valid_services) (field (codes "service") obj)
  pub action : Has (λ v. Unit) (field (codes "action") obj)
  pub result : Has (IsAmong valid_results) (field (codes "result") obj)
  pub hash : Has (λ v. Unit) (field (codes "hash") obj)
  pub hash_algorithm : Has (λ v. v ≡ string (codes "SHA-256")) (field (codes "hashAlgorithm") obj)

is_member_iff : (t : Text) (l : List Text) → (is_member t l ≡ true) ↔ OneOf t l
unfolding is_member
is_member_iff t [] = (λ h. cc, λ h. absurd h)
is_member_iff t (u ∷ l) = ground (arith, same_iff t u, is_member_iff t l)

string_text : (t u : Text) → string t ≡ string u → t ≡ u
string_text t u e = cc

pub includes_iff : (l : List Text) (v : Json) → (includes_value l v ≡ true) ↔ IsAmong l v
unfolding includes_value
includes_iff l (string t) = (
  λ h. (t, refl, (is_member_iff t l).0 h),
  λ (u, e, among). (is_member_iff t l).1 (rw (string_text t u e) among),
)
includes_iff l null = (λ h. cc, λ (u, e, among). cc e)
includes_iff l (boolean b) = (λ h. cc, λ (u, e, among). cc e)
includes_iff l (number n) = (λ h. cc, λ (u, e, among). cc e)
includes_iff l (array xs) = (λ h. cc, λ (u, e, among). cc e)
includes_iff l (object ms) = (λ h. cc, λ (u, e, among). cc e)

pub is_text_iff : (u : Text) (v : Json) → (is_text u v ≡ true) ↔ (v ≡ string u)
unfolding is_text
is_text_iff u (string t) = (λ h. cc ((same_iff t u).0 h), λ e. (same_iff t u).1 (string_text t u e))
is_text_iff u null = (λ h. cc, λ e. cc e)
is_text_iff u (boolean b) = (λ h. cc, λ e. cc e)
is_text_iff u (number n) = (λ h. cc, λ e. cc e)
is_text_iff u (array xs) = (λ h. cc, λ e. cc e)
is_text_iff u (object ms) = (λ h. cc, λ e. cc e)

both_nil : (xs ys : List Text) → xs ++ ys ≡ [] → (xs ≡ []) × (ys ≡ [])
both_nil [] ys h = (refl, h)
both_nil (x ∷ xs) ys h = cc

no_push : (b : Bool) (m : Text) → ((if b then [] else m ∷ []) ≡ []) ↔ (b ≡ true)
no_push b m = ground arith

tested : (b : Bool) (n : Text) → ((if true && not b then n ∷ [] else []) ≡ []) ↔ (b ≡ true)
tested b n = ground arith

same_value : (u v : Json) → some v ≡ some u → u ≡ v
same_value u v e = cc

truthy_same : (v u : Json) → some v ≡ some u → is_truthy (some u) ≡ true → is_truthy (some v) ≡ true
truthy_same v u e h = rw e h

presence : (o : Option Json) (m : Text) → (required o m ≡ []) ↔ Has (λ v. Unit) o
unfolding required
presence none m = (λ h. cc, λ h. cc)
presence (some v) m = (
  λ h. (v, refl, (no_push (is_truthy (some v)) m).0 h, tt),
  λ (u, e, truthy, h). (no_push (is_truthy (some v)) m).1 (truthy_same v u e truthy),
)

-- A required field that is checked gives no message exactly if it has what the check asks for.
no_message :
    (P : Json → Type 0) (test : Json → Bool) (o : Option Json) (m n : Text)
    → ((v : Json) → (test v ≡ true) ↔ P v)
    → ((required o m ≡ []) × (checked test o n ≡ [])) ↔ Has P o
unfolding required checked
no_message P test none m n iff = (λ h. cc, λ h. cc)
no_message P test (some v) m n iff = (
  λ h.
      let truthy = (no_push (is_truthy (some v)) m).0 h.0 in
      (
        v,
        refl,
        truthy,
        (iff v).0 (
            (tested (test v) n).0
              (subst (λ b. (if b && not (test v) then n ∷ [] else []) ≡ []) truthy h.1)),
      ),
  λ (u, e, truthy, q).
      let v_is_truthy = truthy_same v u e truthy in
      (
        (no_push (is_truthy (some v)) m).1 v_is_truthy,
        rw v_is_truthy ((tested (test v) n).1 ((iff v).1 (subst P (same_value u v e) q))),
      ),
)

same_errors : (l : List Text) → (validation l).valid ≡ true → l ≡ []
unfolding validation
same_errors [] h = refl
same_errors (m ∷ ms) h = cc h

-- Only an object or an array has fields, and then the answer is that of its errors.
no_errors : (obj : Json) → (validate_log_entry obj).valid ≡ true → entry_errors obj ≡ []
unfolding validate_log_entry
no_errors (object ms) h = same_errors (entry_errors (object ms)) h
no_errors (array xs) h = same_errors (entry_errors (array xs)) h
no_errors null h = cc (same_errors (codes "Entry must be an object" ∷ []) h)
no_errors (boolean b) h = cc (same_errors (codes "Entry must be an object" ∷ []) h)
no_errors (number n) h = cc (same_errors (codes "Entry must be an object" ∷ []) h)
no_errors (string t) h = cc (same_errors (codes "Entry must be an object" ∷ []) h)

entry_sound : (obj : Json) → (validate_log_entry obj).valid ≡ true → IsWellFormed obj
unfolding entry_errors
entry_sound obj h =
    let (r1, known_algorithm) = both_nil _ _ (no_errors obj h) in
    let (r2, known_result) = both_nil _ _ r1 in
    let (r3, known_service) = both_nil _ _ r2 in
    let (r4, algorithm) = both_nil _ _ r3 in
    let (r5, hash) = both_nil _ _ r4 in
    let (r6, result) = both_nil _ _ r5 in
    let (r7, action) = both_nil _ _ r6 in
    let (timestamp, service) = both_nil _ _ r7 in
    record {
      timestamp = (presence _ _).0 timestamp;
      service = (no_message _ _ _ _ _ (includes_iff valid_services)).0 (service, known_service);
      action = (presence _ _).0 action;
      result = (no_message _ _ _ _ _ (includes_iff valid_results)).0 (result, known_result);
      hash = (presence _ _).0 hash;
      hash_algorithm =
          (no_message _ _ _ _ _ (is_text_iff (codes "SHA-256"))).0 (algorithm, known_algorithm);
    }

infixl 30 ◌&◌
◌&◌ : {xs ys : List Text} → xs ≡ [] → ys ≡ [] → xs ++ ys ≡ []
h & k = rw (h, k) refl

errors_none : (obj : Json) → IsWellFormed obj → entry_errors obj ≡ []
unfolding entry_errors
errors_none obj w =
    let service = (no_message _ _ _ _ _ (includes_iff valid_services)).1 w.service in
    let result = (no_message _ _ _ _ _ (includes_iff valid_results)).1 w.result in
    let algorithm = (no_message _ _ _ _ _ (is_text_iff (codes "SHA-256"))).1 w.hash_algorithm in
    (presence _ _).1 w.timestamp
    & service.0
    & (presence _ _).1 w.action
    & result.0
    & (presence _ _).1 w.hash
    & algorithm.0
    & service.1
    & result.1
    & algorithm.1

-- A value with a field is an object.
entry_complete : (obj : Json) → IsWellFormed obj → (validate_log_entry obj).valid ≡ true
unfolding validate_log_entry field
entry_complete (object ms) w = rw (errors_none (object ms) w, validation) refl
entry_complete (array xs) w = cc (w.timestamp.1)
entry_complete null w = cc (w.timestamp.1)
entry_complete (boolean b) w = cc (w.timestamp.1)
entry_complete (number n) w = cc (w.timestamp.1)
entry_complete (string t) w = cc (w.timestamp.1)

-- `validateLogEntry` finds a value of JSON valid exactly if it has the six required fields and all of them
-- are truthy, its service and its result are of the schema's lists, and its hash algorithm is SHA-256.
pub validate_log_entry-IsWellFormed :
    (obj : Json) → ((validate_log_entry obj).valid ≡ true) ↔ IsWellFormed obj
validate_log_entry-IsWellFormed obj = (entry_sound obj, entry_complete obj)
