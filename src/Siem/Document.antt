-- ===== src/Siem/Document.antt =====
-- The entries of src/common/logging/siem-logger.service.ts as values of JSON, beside `LOG_SCHEMA` of
-- src/common/logging/json-log-format.ts.
use mathlib.Core.Option
use proyecto_verde_auth.Base.{
  ℕ, ◌≡◌, refl, ◌∙◌, false, Option, none, some, Text, codes, same, same_refl, String,
}
use proyecto_verde_auth.Logging.Json.{
  Json, string, object, whole, Members, no_members, member, member_of, field,
}
use proyecto_verde_auth.Siem.Logger.{StandardLogFormat, LogEntry}

-- `JSON.stringify` leaves out a field that is undefined.
unfoldable pub optional : Text → Option Json → Members → Members
optional name none rest = rest
optional name (some v) rest = member name v rest

abbrev pub text_member : String → Text → Members → Members
text_member name t = member (codes name) (string t)

abbrev pub hash_members : LogEntry Json → Members
hash_members e = text_member "hash" e.hash (
    text_member "hashAlgorithm" e.hash_algorithm (
      text_member "previousHash" e.previous_hash
        (member (codes "logSequenceNumber") (whole e.log_sequence_number) no_members)))

-- `fullEntry`, in the order of its fields
unfoldable pub document_of : LogEntry Json → Json
unfolding optional
document_of e =
    let f = e.format in
    object (
      optional (codes "timestamp") (Option.map string f.timestamp) (
        text_member "service" f.service (
          text_member "user" f.user (
            text_member "action" f.action (
              text_member "result" f.result (
                text_member "ip" f.ip (
                  optional (codes "device") f.device (
                    optional (codes "geo") f.geo
                      (optional (codes "metadata") f.metadata (hash_members e))))))))))

skip :
    (name k : Text) (o : Option Json) (rest : Members)
    → same k name ≡ false
    → member_of name (optional k o rest) ≡ member_of name rest
unfolding member_of optional
skip name k none rest h = refl
skip name k (some v) rest h = rw h refl

found :
    (name : Text) (o : Option Json) (rest : Members)
    → member_of name rest ≡ none
    → member_of name (optional name o rest) ≡ o
unfolding member_of optional
found name none rest h = h
found name (some v) rest h = rw (same_refl name) refl

-- The fields of a document.
pub record HasFields (timestamp : Text) (e : LogEntry Json) (v : Json) : Type 0 where
  pub at_timestamp : field (codes "timestamp") v ≡ some (string timestamp)
  pub at_service : field (codes "service") v ≡ some (string e.format.service)
  pub at_user : field (codes "user") v ≡ some (string e.format.user)
  pub at_action : field (codes "action") v ≡ some (string e.format.action)
  pub at_result : field (codes "result") v ≡ some (string e.format.result)
  pub at_ip : field (codes "ip") v ≡ some (string e.format.ip)
  pub at_device : field (codes "device") v ≡ e.format.device
  pub at_geo : field (codes "geo") v ≡ e.format.geo
  pub at_metadata : field (codes "metadata") v ≡ e.format.metadata
  pub at_hash : field (codes "hash") v ≡ some (string e.hash)
  pub at_hash_algorithm : field (codes "hashAlgorithm") v ≡ some (string e.hash_algorithm)
  pub at_previous_hash : field (codes "previousHash") v ≡ some (string e.previous_hash)
  pub at_sequence_number : field (codes "logSequenceNumber") v ≡ some (whole e.log_sequence_number)

-- The members that may be absent are passed by one after the other.
past :
    (name : Text) (a b c : Option Json) (rest : Members)
    → same (codes "device") name ≡ false
    → same (codes "geo") name ≡ false
    → same (codes "metadata") name ≡ false
    → member_of name (
        optional (codes "device") a (optional (codes "geo") b (optional (codes "metadata") c rest)))
      ≡ member_of name rest
past name a b c rest g h k =
    skip name (codes "device") a _ g
    ∙ skip name (codes "geo") b _ h
    ∙ skip name (codes "metadata") c rest k

abbrev pub stamped : Text → StandardLogFormat Json → Text → Text → Text → ℕ → LogEntry Json
stamped timestamp f hash algorithm previous n = record {
  format = record f { timestamp = some timestamp };
  hash = hash;
  hash_algorithm = algorithm;
  previous_hash = previous;
  log_sequence_number = n;
}

pub document_of-HasFields :
    (timestamp : Text) (f : StandardLogFormat Json) (hash algorithm previous : Text) (n : ℕ)
    → let e = stamped timestamp f hash algorithm previous n in HasFields timestamp e (document_of e)
unfolding document_of field member_of same
document_of-HasFields timestamp f hash algorithm previous n =
    let e = stamped timestamp f hash algorithm previous n in
    record {
      at_timestamp = refl;
      at_service = refl;
      at_user = refl;
      at_action = refl;
      at_result = refl;
      at_ip = refl;
      at_device = found (codes "device") f.device _ (
          skip (codes "device") (codes "geo") f.geo _ refl
          ∙ skip (codes "device") (codes "metadata") f.metadata _ refl);
      at_geo =
          skip (codes "geo") (codes "device") f.device _ refl
          ∙ found (codes "geo") f.geo _ (skip (codes "geo") (codes "metadata") f.metadata _ refl);
      at_metadata =
          skip (codes "metadata") (codes "device") f.device _ refl
          ∙ skip (codes "metadata") (codes "geo") f.geo _ refl
          ∙ found (codes "metadata") f.metadata (hash_members e) refl;
      at_hash = past (codes "hash") f.device f.geo f.metadata (hash_members e) refl refl refl;
      at_hash_algorithm =
          past (codes "hashAlgorithm") f.device f.geo f.metadata (hash_members e) refl refl refl;
      at_previous_hash =
          past (codes "previousHash") f.device f.geo f.metadata (hash_members e) refl refl refl;
      at_sequence_number =
          past (codes "logSequenceNumber") f.device f.geo f.metadata (hash_members e) refl refl
            refl;
    }
