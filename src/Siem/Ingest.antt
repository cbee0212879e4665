-- ===== src/Siem/Ingest.antt =====
-- docker/siem/wazuh/filebeat/validate-hash.js: the filter that each line of the log passes on its way into the
-- monitoring. An event's fields are strings, flags or null.
use proyecto_verde_auth.Base.{
  ◌≡◌, Bool, true, false, not, [], ◌∷◌, Text, codes, same, if◌then◌else◌,
}
use proyecto_verde_auth.Siem.Digest.{sha256_regex}

pub data FieldValue : Type 0 where
  null : FieldValue
  text : Text → FieldValue
  flag : Bool → FieldValue

-- Filebeat's event: `evt.Get(key)`, null where there is no such field, and `evt.Put(key, value)`.
pub record EventApi (Event : Type 0) : Type 0 where
  pub get : Text → Event → FieldValue
  pub put : Text → FieldValue → Event → Event

-- What Filebeat documents: a field that was put has its value, and the others are as they were.
pub record EventLaws {Event : Type 0} (api : EventApi Event) : Type 0 where
  pub get-put :
      (key : Text) (value : FieldValue) (evt : Event) → api.get key (api.put key value evt) ≡ value
  pub get-put_other :
      (key other : Text) (value : FieldValue) (evt : Event)
      → same other key ≡ false
      → api.get key (api.put other value evt) ≡ api.get key evt

-- `!hash || hash === "" || hash === "GENESIS"`
unfoldable pub has_no_hash : FieldValue → Bool
has_no_hash null = true
has_no_hash (flag b) = not b
has_no_hash (text []) = true
has_no_hash (text (c ∷ t)) = same (c ∷ t) (codes "GENESIS")

-- `hashAlgorithm === "SHA-256"`
unfoldable pub is_sha256 : FieldValue → Bool
is_sha256 null = false
is_sha256 (flag b) = false
is_sha256 (text t) = same t (codes "SHA-256")

-- `sha256Regex.test(hash)`, where the text of any other value, null, true or false, is shorter
unfoldable pub is_digest : FieldValue → Bool
unfolding sha256_regex
is_digest null = false
is_digest (flag b) = false
is_digest (text t) = sha256_regex t

module _ {Event : Type 0} (api : EventApi Event) where
  -- The two fields that every branch puts.
  unfoldable pub put_verdict : Bool → FieldValue → Event → Event
  put_verdict valid error evt =
      api.put (codes "hash_validation_error") error (api.put (codes "hash_valid") (flag valid) evt)

  unfoldable pub process : Text → Event → Event
  unfolding put_verdict has_no_hash is_sha256 is_digest
  process now evt =
      let hash = api.get (codes "hash") evt in
      if has_no_hash hash
      then put_verdict true (text (codes "no_hash_present")) evt
      else if not (is_sha256 (api.get (codes "hashAlgorithm") evt))
      then put_verdict false (text (codes "unsupported_algorithm")) evt
      else if not (is_digest hash)
      then put_verdict false (text (codes "invalid_hash_format")) evt
      else api.put (codes "log_integrity") (text (codes "signed"))
          (api.put (codes "siem_ingest_time") (text now) (put_verdict true null evt))
