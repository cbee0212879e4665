-- ===== src/Siem/Signed.antt =====
-- Which events the filter of docker/siem/wazuh/filebeat/validate-hash.js marks as valid and signed.
use proyecto_verde_auth.Base.{
  ℕ, ◌≡◌, ◌⊎◌, ◌↔◌, inl, inr, refl, ap, sym, ◌||◌, ◌&&◌, ◌∙◌, Bool, true, false, [], ◌∷◌, Text,
  codes, same, same_iff, arith, Bool-cases, length,
}
use proyecto_verde_auth.Siem.Contents.{DigestLaws}
use proyecto_verde_auth.Siem.Digest.{sha256_regex, digest-length}
use proyecto_verde_auth.Siem.Ingest.{
  FieldValue, null, text, flag, EventApi, EventLaws, put_verdict, has_no_hash, is_sha256, is_digest,
  process,
}
use proyecto_verde_auth.Siem.Logger.{StandardLogFormat, LogLibrary, Siem, log, compute_hash}

digest-has_hash : (t : Text) → sha256_regex t ≡ true → has_no_hash (text t) ≡ false
unfolding has_no_hash
digest-has_hash [] d = absurd (let n : 0 ≡ 64 = digest-length [] d in omega arith)
digest-has_hash (c ∷ t) d = elim (Bool-cases (same (c ∷ t) (codes "GENESIS"))) [
  | inl g ↦
      let n : length (c ∷ t) ≡ 7 = ap length ((same_iff (c ∷ t) (codes "GENESIS")).0 g) in
      let m = digest-length (c ∷ t) d in absurd (omega arith)
  | inr other ↦ other
]

is_sha256_text : (v : FieldValue) → is_sha256 v ≡ true → v ≡ text (codes "SHA-256")
unfolding is_sha256
is_sha256_text null h = cc h
is_sha256_text (flag b) h = cc h
is_sha256_text (text t) h = ap text ((same_iff t (codes "SHA-256")).0 h)

is_digest_text :
    (v : FieldValue) → is_digest v ≡ true → (t : Text) × (v ≡ text t) × (sha256_regex t ≡ true)
unfolding is_digest
is_digest_text null h = cc h
is_digest_text (flag b) h = cc h
is_digest_text (text t) h = (t, refl, h)

module _ {Event : Type 0} (api : EventApi Event) where
  -- A digest of 64 digits, under the name of its algorithm.
  abbrev pub IsSigned : Event → Type 0
  IsSigned evt =
      (t : Text) × (api.get (codes "hash") evt ≡ text t)
      × (sha256_regex t ≡ true)
      × (api.get (codes "hashAlgorithm") evt ≡ text (codes "SHA-256"))

  -- No hash, but what the first entry of a chain has in its place.
  abbrev pub HasNoHash : Event → Type 0
  HasNoHash evt = has_no_hash (api.get (codes "hash") evt) ≡ true

  module _ (laws : EventLaws api) where
    verdict_of :
        (valid : Bool) (error : FieldValue) (evt : Event)
        → api.get (codes "hash_valid") (put_verdict api valid error evt) ≡ flag valid
    unfolding put_verdict same
    verdict_of valid error evt =
        laws.get-put_other (codes "hash_valid") (codes "hash_validation_error") error _ refl
        ∙ laws.get-put (codes "hash_valid") (flag valid) evt

    module _ (now : Text) (evt : Event) where
      abbrev kept_on : Event
      kept_on =
          api.put (codes "log_integrity") (text (codes "signed"))
            (api.put (codes "siem_ingest_time") (text now) (put_verdict api true null evt))

      passed : IsSigned evt → process api now evt ≡ kept_on
      unfolding process is_sha256 is_digest same
      passed (t, is_t, digits, algorithm) =
          ground (arith, is_t, algorithm, digits, digest-has_hash t digits)

      kept_on-valid : api.get (codes "hash_valid") kept_on ≡ flag true
      unfolding same
      kept_on-valid =
          laws.get-put_other (codes "hash_valid") (codes "log_integrity") (text (codes "signed"))
            (api.put (codes "siem_ingest_time") (text now) (put_verdict api true null evt)) refl
          ∙ laws.get-put_other (codes "hash_valid") (codes "siem_ingest_time") (text now)
              (put_verdict api true null evt) refl
          ∙ verdict_of true null evt

      valid_value :
          api.get (codes "hash_valid") (process api now evt)
          ≡ flag (
              has_no_hash (api.get (codes "hash") evt)
              || (is_sha256 (api.get (codes "hashAlgorithm") evt)
                  && is_digest (api.get (codes "hash") evt)))
      unfolding process
      valid_value = ground (
        arith,
        verdict_of true (text (codes "no_hash_present")) evt,
        verdict_of false (text (codes "unsupported_algorithm")) evt,
        verdict_of false (text (codes "invalid_hash_format")) evt,
        kept_on-valid,
      )

      marked :
          (a b c : Bool) → flag (a || (b && c)) ≡ flag true → (a ≡ true) ⊎ ((b ≡ true) × (c ≡ true))
      marked true b c h = inl refl
      marked false true true h = inr (refl, refl)
      marked false true false h = cc h
      marked false false c h = cc h

      -- For Filebeat's events as documented: the filter marks an event as valid exactly if it has no hash,
      -- or the text that stands for one before the first entry, or if its hash is 64 lowercase hexadecimal
      -- digits and its algorithm SHA-256: no other field counts.
      pub process-valid :
          (api.get (codes "hash_valid") (process api now evt) ≡ flag true)
          ↔ (HasNoHash evt ⊎ IsSigned evt)
      process-valid =
          let hash = api.get (codes "hash") evt in
          let algorithm = api.get (codes "hashAlgorithm") evt in
          (
            λ h.
                elim (marked (has_no_hash hash) (is_sha256 algorithm) (is_digest hash)
                  (sym valid_value ∙ h)) [
                    | inl none_there ↦ inl none_there
                    | inr (named, digits) ↦
                        let (t, is_t, d) = is_digest_text hash digits in
                        inr (t, is_t, d, is_sha256_text algorithm named)
                  ],
            λ h. elim h [
              | inl none_there ↦ valid_value ∙ rw none_there refl
              | inr signed ↦ ap (api.get (codes "hash_valid")) (passed signed) ∙ kept_on-valid
            ],
          )

      process_signed :
          IsSigned evt
          → (api.get (codes "hash_valid") (process api now evt) ≡ flag true)
            × (api.get (codes "hash_validation_error") (process api now evt) ≡ null)
            × (api.get (codes "siem_ingest_time") (process api now evt) ≡ text now)
            × (api.get (codes "log_integrity") (process api now evt) ≡ text (codes "signed"))
      unfolding put_verdict same
      process_signed h =
          let verdict = put_verdict api true null evt in
          let stamped = api.put (codes "siem_ingest_time") (text now) verdict in
          let signed = text (codes "signed") in
          rw (passed h) (
            kept_on-valid,
            laws.get-put_other (codes "hash_validation_error") (codes "log_integrity") signed
                  stamped refl
                ∙ laws.get-put_other (codes "hash_validation_error") (codes "siem_ingest_time")
                    (text now) verdict refl
                ∙ laws.get-put (codes "hash_validation_error") null
                    (api.put (codes "hash_valid") (flag true) evt),
            laws.get-put_other (codes "siem_ingest_time") (codes "log_integrity") signed stamped
                  refl
                ∙ laws.get-put (codes "siem_ingest_time") (text now) verdict,
            laws.get-put (codes "log_integrity") signed stamped,
          )

    module _ {Value : Type 0} (lib : LogLibrary Value) where
      -- For Filebeat's events as documented, let `log` return an entry. Any event that has this entry's
      -- hash and algorithm is marked by the filter as valid and signed, without an error, at the time of
      -- its arrival, whatever its other fields are: nothing in them has to be what the entry's hash was
      -- computed of. A digest is 64 hexadecimal digits.
      pub log-process :
          DigestLaws lib
          → (now : Text) (day : ℕ) (format : StandardLogFormat Value) (s : Siem) (arrival : Text)
            (evt : Event)
          → api.get (codes "hash") evt ≡ text (log lib now day format s).0.hash
          → api.get (codes "hashAlgorithm") evt ≡ text (log lib now day format s).0.hash_algorithm
          → (api.get (codes "hash_valid") (process api arrival evt) ≡ flag true)
            × (api.get (codes "hash_validation_error") (process api arrival evt) ≡ null)
            × (api.get (codes "siem_ingest_time") (process api arrival evt) ≡ text arrival)
            × (api.get (codes "log_integrity") (process api arrival evt) ≡ text (codes "signed"))
      unfolding log compute_hash
      log-process digests now day format s arrival evt is_hash is_algorithm =
          process_signed arrival evt (_, is_hash, digests.sha256_hex _, is_algorithm)
