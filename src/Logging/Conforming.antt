-- ===== src/Logging/Conforming.antt =====
-- The values that conform to `LOG_SCHEMA` of src/common/logging/json-log-format.ts, beside those that
-- `validateLogEntry` takes.
use proyecto_verde_auth.Base.{
  ◌≡◌, ◌≢◌, inl, inr, refl, ap, sym, ◌∙◌, Bool, true, false, ◌&&◌, [], ◌∷◌, Option, none, some,
  Text, codes, same, same_iff, Bool-cases, arith, subst,
}
use proyecto_verde_auth.Logging.Conform.{conforms, is_there, all_conform, has_type, are_there}
use proyecto_verde_auth.Logging.Format.{includes_value, is_text, validate_log_entry}
use proyecto_verde_auth.Logging.Json.{
  Json, null, boolean, number, string, array, object, field, is_truthy,
}
use proyecto_verde_auth.Logging.LogSchema.{
  type, Schema, ◌▷◌, property, Properties, no_properties, ◌⨾◌, log_schema, log_properties,
  schema_of, valid_services, valid_results,
}
use proyecto_verde_auth.Logging.Schema.{
  IsWellFormed, includes_iff, is_text_iff, validate_log_entry-IsWellFormed,
}
use proyecto_verde_auth.Siem.Digest.{sha256_regex}

-- `matches` tests the pattern of a digest as a regular expression is documented to.
abbrev pub TestsDigests : (Text → Text → Bool) → Type 0
TestsDigests matches = (t : Text) → matches (codes "^[a-f0-9]{64}$") t ≡ sha256_regex t

pub both : (a b : Bool) → a && b ≡ true → (a ≡ true) × (b ≡ true)
both a b h = ground arith

there : (o : Option Json) → is_there o ≡ true → (v : Json) × (o ≡ some v)
there none h = cc h
there (some v) h = (v, refl)

pub truthy : (t : Text) → t ≢ [] → is_truthy (some (string t)) ≡ true
unfolding is_truthy same
truthy [] h = absurd (h refl)
truthy (c ∷ t) h = refl

-- A test that the empty text does not pass.
pub passing : (test : Text → Bool) (t : Text) → test [] ≡ false → test t ≡ true → t ≢ []
passing test t none_passes h e = cc (none_passes, sym h, ap test e)

module _ (matches : Text → Text → Bool) where
  given :
      (s : Schema) (o : Option Json) (u : Json)
      → (elim o [ none ↦ true | some w ↦ conforms matches s w ]) ≡ true
      → o ≡ some u
      → conforms matches s u ≡ true
  given s none u h e = cc e
  given s (some w) u h e = let wu : w ≡ u = cc e in subst (λ x. conforms matches s x ≡ true) wu h

  -- A field has the schema of its name.
  field-conforms :
      (name : Text) (ps : Properties) (v u : Json)
      → all_conform matches ps v ≡ true
      → field name v ≡ some u
      → conforms matches (schema_of name ps) u ≡ true
  unfolding conforms schema_of
  field-conforms name no_properties v u h f = refl
  field-conforms name (property k s ⨾ ps) v u h f = elim (Bool-cases (same k name)) [
    | inl here ↦
        let key = (same_iff k name).0 here in
        rw here (given s (field k v) u (both _ _ h).0 (ap (λ x. field x v) key ∙ f))
    | inr past ↦ rw past (field-conforms name ps v u (both _ _ h).1 f)
  ]

  text-conforms :
      (rest : Schema) (u : Json)
      → conforms matches (type (codes "string") ▷ rest) u ≡ true
      → (t : Text) × (u ≡ string t) × (conforms matches rest (string t) ≡ true)
  unfolding conforms has_type same
  text-conforms rest (string t) h = (t, refl, h)
  text-conforms rest null h = cc h
  text-conforms rest (boolean b) h = cc h
  text-conforms rest (number n) h = cc h
  text-conforms rest (array xs) h = cc h
  text-conforms rest (object ms) h = cc h

  log_schema-parts :
      (v : Json)
      → conforms matches log_schema v ≡ true
      → (are_there
            (codes "timestamp"
              ∷ codes "service"
              ∷ codes "action"
              ∷ codes "result"
              ∷ codes "hash"
              ∷ codes "hashAlgorithm"
              ∷ [])
            v
          ≡ true)
        × (all_conform matches log_properties v ≡ true)
  unfolding conforms has_type same
  log_schema-parts (object ms) h = let (names, rest) = both _ _ h in (names, (both _ true rest).0)
  log_schema-parts null h = cc h
  log_schema-parts (boolean b) h = cc h
  log_schema-parts (number n) h = cc h
  log_schema-parts (string t) h = cc h
  log_schema-parts (array xs) h = cc h

  -- A required field that is a text, and what its schema asks of it besides.
  text-field :
      (name : Text) (rest : Schema) (v : Json)
      → all_conform matches log_properties v ≡ true
      → schema_of name log_properties ≡ type (codes "string") ▷ rest
      → is_there (field name v) ≡ true
      → (t : Text) × (field name v ≡ some (string t)) × (conforms matches rest (string t) ≡ true)
  text-field name rest v h k n =
      let (u, f) = there (field name v) n in
      let c = field-conforms name log_properties v u h f in
      let (t, is_t, more) = text-conforms rest u (subst (λ s. conforms matches s u ≡ true) k c) in
      (t, f ∙ ap some is_t, more)

  log_schema-IsWellFormed :
      TestsDigests matches
      → (v : Json) → conforms matches log_schema v ≡ true
      → field (codes "timestamp") v ≢ some (string [])
      → field (codes "action") v ≢ some (string [])
      → IsWellFormed v
  unfolding schema_of are_there same conforms sha256_regex includes_value valid_services
      valid_results is_text
  log_schema-IsWellFormed digests v h no_time no_action =
      let (names, ps) = log_schema-parts v h in
      let (n1, names1) = both _ _ names in
      let (n2, names2) = both _ _ names1 in
      let (n3, names3) = both _ _ names2 in
      let (n4, names4) = both _ _ names3 in
      let (n5, names5) = both _ _ names4 in
      let (n6, names6) = both _ _ names5 in
      let (t1, f1, c1) = text-field (codes "timestamp") _ v ps refl n1 in
      let (t2, f2, c2) = text-field (codes "service") _ v ps refl n2 in
      let (t3, f3, c3) = text-field (codes "action") _ v ps refl n3 in
      let (t4, f4, c4) = text-field (codes "result") _ v ps refl n4 in
      let (t5, f5, c5) = text-field (codes "hash") _ v ps refl n5 in
      let (t6, f6, c6) = text-field (codes "hashAlgorithm") _ v ps refl n6 in
      let in_services = (both _ _ c2).0 in
      let in_results = (both _ _ c4).0 in
      let is_hash = sym (digests t5) ∙ (both _ _ c5).0 in
      let is_algorithm = (both _ _ c6).0 in
      record {
        timestamp = (string t1, f1, truthy t1 (λ e. no_time (cc (f1, e))), tt);
        service = (
          string t2,
          f2,
          truthy t2 (passing (λ t. includes_value valid_services (string t)) t2 refl in_services),
          (includes_iff valid_services (string t2)).0 in_services,
        );
        action = (string t3, f3, truthy t3 (λ e. no_action (cc (f3, e))), tt);
        result = (
          string t4,
          f4,
          truthy t4 (passing (λ t. includes_value valid_results (string t)) t4 refl in_results),
          (includes_iff valid_results (string t4)).0 in_results,
        );
        hash = (string t5, f5, truthy t5 (passing sha256_regex t5 refl is_hash), tt);
        hash_algorithm = (
          string t6,
          f6,
          truthy t6 (passing (λ t. is_text (codes "SHA-256") (string t)) t6 refl is_algorithm),
          (is_text_iff (codes "SHA-256") (string t6)).0 is_algorithm,
        );
      }

  -- For a test of regular expressions as documented: a value that conforms to `LOG_SCHEMA`, in draft 7 of
  -- JSON Schema, and whose timestamp and action are not empty texts, is valid for `validateLogEntry`.
  pub conforms-validated :
      TestsDigests matches
      → (v : Json) → conforms matches log_schema v ≡ true
      → field (codes "timestamp") v ≢ some (string [])
      → field (codes "action") v ≢ some (string [])
      → (validate_log_entry v).valid ≡ true
  conforms-validated digests v h no_time no_action =
      (validate_log_entry-IsWellFormed v).1 (log_schema-IsWellFormed digests v h no_time no_action)
