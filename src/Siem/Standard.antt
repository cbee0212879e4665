-- ===== src/Siem/Standard.antt =====
-- The entries that src/common/logging/siem-logger.service.ts writes, beside `LOG_SCHEMA` and
-- `validateLogEntry` of src/common/logging/json-log-format.ts.
use Prim.Native.Nat.{◌%◌}
use proyecto_verde_auth.Base.{
  ℕ, ◌≡◌, ◌≢◌, refl, ap, ◌∙◌, Bool, true, ◌&&◌, [], ◌∷◌, Option, none, some, Text, codes, same,
  same_iff, arith, leb, ◌==◌, ◌≤◌,
}
use proyecto_verde_auth.Logging.Conform.{conforms, has_type, are_there}
use proyecto_verde_auth.Logging.Conforming.{TestsDigests, truthy, passing}
use proyecto_verde_auth.Logging.Format.{includes_value, is_text, validate_log_entry}
use proyecto_verde_auth.Logging.Json.{Json, string, object, Members}
use proyecto_verde_auth.Logging.LogSchema.{
  Schema, log_schema, device_schema, geo_schema, metadata_schema, valid_services, valid_results,
}
use proyecto_verde_auth.Logging.Schema.{OneOf, includes_iff, validate_log_entry-IsWellFormed}
use proyecto_verde_auth.Siem.Contents.{DigestLaws}
use proyecto_verde_auth.Siem.Digest.{sha256_regex}
use proyecto_verde_auth.Siem.Document.{document_of, HasFields, document_of-HasFields}
use proyecto_verde_auth.Siem.Logger.{
  StandardLogFormat, LogEntry, LogLibrary, Siem, log, compute_hash, or_now, or_text,
}

all_hold :
    {a b c d g h i j k x : Bool}
    → a ≡ true
    → b ≡ true
    → c ≡ true
    → d ≡ true
    → g ≡ true
    → h ≡ true
    → i ≡ true
    → j ≡ true
    → k ≡ true
    → (((a && true)
          && ((b && true)
              && (c
                  && (d
                      && (g
                          && ((h && true)
                              && ((i && true)
                                  && ((x && true) && ((j && (k && true)) && true)))))))))
        && true)
      ≡ x
all_hold p1 p2 p3 p4 p5 p6 p7 p8 p9 = ground arith

remainder_one : (n : ℕ) → (n % 1 == 0) ≡ true
remainder_one n = ground arith

positive : (n : ℕ) → 1 ≤ n → leb 1 n ≡ true
positive n h = ground arith

or_now-nonempty : (t : Option Text) (now : Text) → now ≢ [] → or_now t now ≢ []
unfolding or_now or_text
or_now-nonempty none now h = h
or_now-nonempty (some []) now h = h
or_now-nonempty (some (c ∷ t)) now h = λ e. cc e

service_nonempty : (t : Text) → OneOf t valid_services → t ≢ []
unfolding includes_value valid_services same
service_nonempty t h =
    passing (λ u. includes_value valid_services (string u)) t refl
      ((includes_iff valid_services (string t)).1 (t, refl, h))

result_nonempty : (t : Text) → OneOf t valid_results → t ≢ []
unfolding includes_value valid_results same
result_nonempty t h =
    passing (λ u. includes_value valid_results (string u)) t refl
      ((includes_iff valid_results (string t)).1 (t, refl, h))

fields_validated :
    (timestamp : Text) (e : LogEntry Json) (v : Json)
    → HasFields timestamp e v
    → OneOf e.format.service valid_services
    → OneOf e.format.result valid_results
    → e.format.action ≢ []
    → timestamp ≢ []
    → sha256_regex e.hash ≡ true
    → e.hash_algorithm ≡ codes "SHA-256"
    → (validate_log_entry v).valid ≡ true
unfolding sha256_regex
fields_validated timestamp e v h service result acts timed hash algorithm =
    let f = e.format in
    (validate_log_entry-IsWellFormed v).1 (record {
      timestamp = (string timestamp, h.at_timestamp, truthy timestamp timed, tt);
      service = (
        string f.service,
        h.at_service,
        truthy f.service (service_nonempty f.service service),
        (f.service, refl, service),
      );
      action = (string f.action, h.at_action, truthy f.action acts, tt);
      result = (
        string f.result,
        h.at_result,
        truthy f.result (result_nonempty f.result result),
        (f.result, refl, result),
      );
      hash = (string e.hash, h.at_hash, truthy e.hash (passing sha256_regex e.hash refl hash), tt);
      hash_algorithm = (
        string e.hash_algorithm,
        h.at_hash_algorithm,
        truthy e.hash_algorithm (λ b. cc (algorithm, b)),
        ap string algorithm,
      );
    })

module _ (matches : Text → Text → Bool) where
  -- A field that may be absent has its schema where it is there.
  abbrev pub fits : Schema → Option Json → Bool
  fits s o = elim o [ none ↦ true | some v ↦ conforms matches s v ]

  -- What a caller hands over: a service and a result of the lists, and the other values as the schema has them.
  pub record IsStandard (f : StandardLogFormat Json) : Type 0 where
    pub service : OneOf f.service valid_services
    pub result : OneOf f.result valid_results
    pub device : fits device_schema f.device ≡ true
    pub geo : fits geo_schema f.geo ≡ true
    pub metadata : fits metadata_schema f.metadata ≡ true

  fields_conform :
      TestsDigests matches
      → (timestamp : Text) (e : LogEntry Json) (ms : Members) → HasFields timestamp e (object ms)
      → IsStandard e.format
      → sha256_regex e.hash ≡ true
      → e.hash_algorithm ≡ codes "SHA-256"
      → 1 ≤ e.log_sequence_number
      → conforms matches log_schema (object ms) ≡ sha256_regex e.previous_hash
  unfolding conforms has_type are_there same is_text includes_value valid_services valid_results
  fields_conform digests timestamp e ms h f hash algorithm from =
      let in_services =
        (includes_iff valid_services (string e.format.service)).1
          (e.format.service, refl, f.service) in
      let in_results =
        (includes_iff valid_results (string e.format.result)).1 (e.format.result, refl, f.result) in
      rw
        (
          h.at_timestamp, h.at_service, h.at_user, h.at_action, h.at_result, h.at_ip, h.at_device,
          h.at_geo, h.at_metadata, h.at_hash, h.at_hash_algorithm, h.at_previous_hash,
          h.at_sequence_number,
        )
        (all_hold in_services in_results f.device f.geo f.metadata (digests e.hash ∙ hash)
            ((same_iff e.hash_algorithm (codes "SHA-256")).1 algorithm)
            (remainder_one e.log_sequence_number) (positive e.log_sequence_number from)
          ∙ digests e.previous_hash)

  same-IsStandard :
      (timestamp : Text) (f : StandardLogFormat Json)
      → IsStandard f
      → IsStandard (record f { timestamp = some timestamp })
  same-IsStandard timestamp f h = record {
    service = h.service;
    result = h.result;
    device = h.device;
    geo = h.geo;
    metadata = h.metadata;
  }

  module _ (lib : LogLibrary Json) where
    -- For documented digests and a test of regular expressions as documented, and a call of `log` whose
    -- service and result are of the schema's lists, whose action is not empty, whose time is not empty, and
    -- whose device, place and metadata conform to their schemas where they are there: the returned entry is
    -- valid for `validateLogEntry`, and it conforms to `LOG_SCHEMA` exactly if the service's last hash was
    -- a digest, which it is not before the first entry.
    pub log-conforms :
        DigestLaws lib
        → TestsDigests matches
        → (now : Text) (day : ℕ) (format : StandardLogFormat Json) (s : Siem) → IsStandard format
        → format.action ≢ []
        → now ≢ []
        → ((validate_log_entry (document_of (log lib now day format s).0)).valid ≡ true)
          × (conforms matches log_schema (document_of (log lib now day format s).0)
              ≡ sha256_regex s.last_hash)
    unfolding log compute_hash document_of
    log-conforms laws digests now day format s standard acts timed =
        let e = (log lib now day format s).0 in
        let timestamp = or_now format.timestamp now in
        let fields =
          document_of-HasFields timestamp format e.hash e.hash_algorithm e.previous_hash
            e.log_sequence_number in
        let hash = laws.sha256_hex _ in
        (
          fields_validated timestamp e (document_of e) fields standard.service standard.result acts
              (or_now-nonempty format.timestamp now timed) hash refl,
          fields_conform digests timestamp e _ fields (same-IsStandard timestamp format standard)
              hash refl (omega arith),
        )
