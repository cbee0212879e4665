-- ===== src/Tests/Standard.antt =====
-- Entries with the fields that the log's format asks for, and events made of them.
use proyecto_verde_auth.Base.{
  ℕ, ◌≡◌, ◌≢◌, inl, inr, refl, List, [], ◌∷◌, Bool, true, false, none, some, Text, codes, same,
  same_iff, same_refl, ap, ◌∙◌, arith, Bool-cases, if◌then◌else◌,
}
use proyecto_verde_auth.Logging.Conform.{conforms}
use proyecto_verde_auth.Logging.Conforming.{conforms-validated}
use proyecto_verde_auth.Logging.Format.{validate_log_entry}
use proyecto_verde_auth.Logging.Json.{Json, string, object, whole, no_members, member, field}
use proyecto_verde_auth.Logging.LogSchema.{
  log_schema, metadata_schema, valid_services, valid_results,
}
use proyecto_verde_auth.Siem.Contents.{DigestLaws}
use proyecto_verde_auth.Siem.Digest.{sha256_regex, every, is_hex_unit}
use proyecto_verde_auth.Siem.Document.{document_of}
use proyecto_verde_auth.Siem.Ingest.{FieldValue, null, text, flag, EventApi, EventLaws, process}
use proyecto_verde_auth.Siem.Logger.{
  StandardLogFormat, LogLibrary, fresh, log, compute_hash, or_now,
}
use proyecto_verde_auth.Siem.Signed.{log-process}
use proyecto_verde_auth.Siem.Standard.{IsStandard, log-conforms}
use proyecto_verde_auth.Tests.Tamper.{is_even, digits, digits-sha256_regex}

-- Every pattern as the one of a digest.
abbrev matches : Text → Text → Bool
matches pattern t = sha256_regex t

-- The lines are not read here.
abbrev json_lib : LogLibrary Json
json_lib = record {
  sha256 = λ t. digits (is_even t);
  stringify = λ f. b'{' ∷ f.action;
  line_of = λ e. e.hash;
  parse = λ t. none;
}

json_lib-DigestLaws : DigestLaws json_lib
json_lib-DigestLaws = record {
  sha256_hex = λ t. digits-sha256_regex (is_even t);
  stringify_object = λ f. (f.action, refl);
}

abbrev phone : Json
phone = object (member (codes "type") (string (codes "mobile")) no_members)

abbrev risk : ℕ → Json
risk n = object (member (codes "riskScore") (whole n) no_members)

abbrev transfer : StandardLogFormat Json
transfer = record {
  timestamp = none;
  service = codes "core-bancario";
  user = codes "7";
  action = codes "TRANSFER";
  result = codes "PENDING";
  ip = codes "::1";
  device = some phone;
  geo = none;
  metadata = some (risk 40);
}

transfer-IsStandard : IsStandard matches transfer
unfolding conforms same valid_services valid_results
transfer-IsStandard = record {
  service = inr (inl refl);
  result = inr (inr (inr (inl refl)));
  device = refl;
  geo = refl;
  metadata = refl;
}

high_risk_refused : conforms matches metadata_schema (risk 101) ≡ false
unfolding conforms same
high_risk_refused = refl

log-conforms_example :
    let e = (log json_lib (codes "t1") 3 transfer (fresh [])).0 in
    ((validate_log_entry (document_of e)).valid ≡ true)
    × (conforms matches log_schema (document_of e) ≡ sha256_regex (codes "GENESIS"))
log-conforms_example =
    log-conforms matches json_lib json_lib-DigestLaws (λ t. refl) (codes "t1") 3 transfer (fresh [])
      transfer-IsStandard (λ e. cc e) (λ e. cc e)

-- The second entry of a log.
abbrev second : Json
second =
    document_of
      (log json_lib (codes "t2") 3 transfer (log json_lib (codes "t1") 3 transfer (fresh [])).1).0

second-conforms : conforms matches log_schema second ≡ true
unfolding log compute_hash or_now document_of conforms same sha256_regex every is_hex_unit
    valid_services valid_results
second-conforms = refl

second-timed : field (codes "timestamp") second ≢ some (string [])
unfolding log or_now document_of field same
second-timed e = cc e

second-acts : field (codes "action") second ≢ some (string [])
unfolding log document_of field same
second-acts e = cc e

conforms-validated_example : (validate_log_entry second).valid ≡ true
conforms-validated_example =
    conforms-validated matches (λ t. refl) second second-conforms second-timed second-acts

-- An event by its fields.
abbrev Event : Type 0
Event = List (Text × FieldValue)

get_field : Text → Event → FieldValue
get_field key [] = null
get_field key ((k, v) ∷ rest) = if same k key then v else get_field key rest

put_field : Text → FieldValue → Event → Event
put_field key value [] = (key, value) ∷ []
put_field key value ((k, v) ∷ rest) =
    if same k key then (k, value) ∷ rest else (k, v) ∷ put_field key value rest

get-put :
    (key : Text) (value : FieldValue) (evt : Event)
    → get_field key (put_field key value evt) ≡ value
unfolding get_field put_field
get-put key value [] = rw (same_refl key) refl
get-put key value ((k, v) ∷ rest) = ground (arith, get-put key value rest)

get-put_other :
    (key other : Text) (value : FieldValue) (evt : Event)
    → same other key ≡ false
    → get_field key (put_field other value evt) ≡ get_field key evt
unfolding get_field put_field
get-put_other key other value [] h = rw h refl
get-put_other key other value ((k, v) ∷ rest) h = elim (Bool-cases (same k other)) [
  | inl at ↦
      let k_is : k ≡ other = (same_iff k other).0 at in
      let differs : same k key ≡ false = ap (λ t. same t key) k_is ∙ h in rw (at, differs) refl
  | inr past ↦ rw past (ground (arith, get-put_other key other value rest h))
]

abbrev event_api : EventApi Event
event_api = record { get = get_field; put = put_field }

event_api-EventLaws : EventLaws event_api
event_api-EventLaws = record { get-put = get-put; get-put_other = get-put_other }

-- The hash of an entry, beside a user that the entry was not of.
abbrev altered : Event
altered =
    (codes "hash", text (log json_lib (codes "t1") 3 transfer (fresh [])).0.hash)
    ∷ (codes "hashAlgorithm", text (codes "SHA-256"))
    ∷ (codes "user", text (codes "8"))
    ∷ []

altered-hash :
    get_field (codes "hash") altered ≡ text (log json_lib (codes "t1") 3 transfer (fresh [])).0.hash
unfolding get_field same
altered-hash = refl

altered-algorithm : get_field (codes "hashAlgorithm") altered ≡ text (codes "SHA-256")
unfolding get_field same
altered-algorithm = refl

log-process_example :
    let after = process event_api (codes "t9") altered in
    (get_field (codes "hash_valid") after ≡ flag true)
    × (get_field (codes "hash_validation_error") after ≡ null)
    × (get_field (codes "siem_ingest_time") after ≡ text (codes "t9"))
    × (get_field (codes "log_integrity") after ≡ text (codes "signed"))
unfolding log
log-process_example =
    log-process event_api event_api-EventLaws json_lib json_lib-DigestLaws (codes "t1") 3 transfer
      (fresh []) (codes "t9") altered altered-hash altered-algorithm
