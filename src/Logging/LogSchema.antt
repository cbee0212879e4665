-- ===== src/Logging/LogSchema.antt =====
-- `LOG_SCHEMA` of src/common/logging/json-log-format.ts, with the keywords of JSON Schema that it uses.
use proyecto_verde_auth.Base.{ℕ, List, [], ◌∷◌, Text, codes, same, if◌then◌else◌}

-- A schema is a list of keywords; `properties` gives a schema to each of its names.
infixr 30 ◌▷◌
infixr 20 ◌⨾◌
mutual
  pub data Keyword : Type 0 where
    schema_uri : Text → Keyword
    type : Text → Keyword
    required : List Text → Keyword
    properties : Properties → Keyword
    format : Text → Keyword
    pattern : Text → Keyword
    enum : List Text → Keyword
    const : Text → Keyword
    minimum : ℕ → Keyword
    maximum : ℕ → Keyword
    examples : List Text → Keyword
    description : Text → Keyword

  pub data Schema : Type 0 where
    any_value : Schema
    ◌▷◌ : Keyword → Schema → Schema

  pub data Property : Type 0 where
    property : Text → Schema → Property

  pub data Properties : Type 0 where
    no_properties : Properties
    ◌⨾◌ : Property → Properties → Properties

abbrev pub device_properties : Properties
device_properties =
    property (codes "type") (
      type (codes "string")
      ▷ examples (codes "mobile" ∷ codes "desktop" ∷ codes "tablet" ∷ [])
      ▷ any_value)
    ⨾ property (codes "os") (
        type (codes "string")
        ▷ examples (codes "iOS 17.2" ∷ codes "Android 14" ∷ codes "Windows 11" ∷ [])
        ▷ any_value)
    ⨾ property (codes "browser") (type (codes "string") ▷ any_value)
    ⨾ property (codes "name")
        (type (codes "string") ▷ description (codes "Device friendly name") ▷ any_value)
    ⨾ property (codes "fingerprint")
        (type (codes "string") ▷ description (codes "Device fingerprint hash") ▷ any_value)
    ⨾ no_properties

abbrev pub geo_properties : Properties
geo_properties =
    property (codes "country")
      (type (codes "string") ▷ examples (codes "MX" ∷ codes "US" ∷ codes "CO" ∷ []) ▷ any_value)
    ⨾ property (codes "city") (type (codes "string") ▷ any_value)
    ⨾ property (codes "latitude") (type (codes "number") ▷ any_value)
    ⨾ property (codes "longitude") (type (codes "number") ▷ any_value)
    ⨾ property (codes "timezone") (type (codes "string") ▷ any_value)
    ⨾ no_properties

abbrev pub metadata_properties : Properties
metadata_properties =
    property (codes "reason")
      (type (codes "string") ▷ description (codes "Failure reason") ▷ any_value)
    ⨾ property (codes "attempts")
        (type (codes "integer") ▷ description (codes "Login attempts count") ▷ any_value)
    ⨾ property (codes "sessionId") (type (codes "string") ▷ any_value)
    ⨾ property (codes "transactionId") (type (codes "string") ▷ any_value)
    ⨾ property (codes "amount") (type (codes "number") ▷ any_value)
    ⨾ property (codes "currency")
        (type (codes "string") ▷ examples (codes "MXN" ∷ codes "USD" ∷ []) ▷ any_value)
    ⨾ property (codes "riskScore") (type (codes "number") ▷ minimum 0 ▷ maximum 100 ▷ any_value)
    ⨾ no_properties

abbrev pub device_schema : Schema
device_schema = type (codes "object") ▷ properties device_properties ▷ any_value

abbrev pub geo_schema : Schema
geo_schema = type (codes "object") ▷ properties geo_properties ▷ any_value

abbrev pub metadata_schema : Schema
metadata_schema =
    type (codes "object")
    ▷ description (codes "Action-specific additional data")
    ▷ properties metadata_properties
    ▷ any_value

abbrev pub log_properties : Properties
log_properties =
    property (codes "timestamp") (
      type (codes "string")
      ▷ format (codes "date-time")
      ▷ description (codes "ISO 8601 timestamp with timezone (UTC preferred)")
      ▷ any_value)
    ⨾ property (codes "service") (
        type (codes "string")
        ▷ enum (
            codes "api-gateway"
            ∷ codes "core-bancario"
            ∷ codes "motor-fraude"
            ∷ codes "app-movil"
            ∷ codes "iam-service"
            ∷ [])
        ▷ description (codes "Source service identifier")
        ▷ any_value)
    ⨾ property (codes "user") (
        type (codes "string")
        ▷ description (codes "User ID or \"anonymous\" for unauthenticated requests")
        ▷ any_value)
    ⨾ property (codes "action") (
        type (codes "string")
        ▷ description (codes "Action performed")
        ▷ examples (
            codes "LOGIN"
            ∷ codes "LOGOUT"
            ∷ codes "PASSWORD_CHANGE"
            ∷ codes "TRANSFER"
            ∷ codes "FRAUD_CHECK"
            ∷ [])
        ▷ any_value)
    ⨾ property (codes "result") (
        type (codes "string")
        ▷ enum (codes "SUCCESS" ∷ codes "FAILED" ∷ codes "BLOCKED" ∷ codes "PENDING" ∷ [])
        ▷ description (codes "Outcome of the action")
        ▷ any_value)
    ⨾ property (codes "ip")
        (type (codes "string") ▷ description (codes "Client IP address") ▷ any_value)
    ⨾ property (codes "device") device_schema
    ⨾ property (codes "geo") geo_schema
    ⨾ property (codes "metadata") metadata_schema
    ⨾ property (codes "hash") (
        type (codes "string")
        ▷ pattern (codes "^[a-f0-9]{64}$")
        ▷ description (codes "SHA-256 hash of previous hash + current log entry")
        ▷ any_value)
    ⨾ property (codes "hashAlgorithm") (
        type (codes "string")
        ▷ const (codes "SHA-256")
        ▷ description (codes "Hash algorithm identifier")
        ▷ any_value)
    ⨾ property (codes "previousHash") (
        type (codes "string")
        ▷ pattern (codes "^[a-f0-9]{64}$")
        ▷ description (codes "Hash of previous log entry")
        ▷ any_value)
    ⨾ property (codes "logSequenceNumber") (
        type (codes "integer")
        ▷ minimum 1
        ▷ description (codes "Sequential log number within service")
        ▷ any_value)
    ⨾ no_properties

abbrev pub log_schema : Schema
log_schema =
    schema_uri (codes "http://json-schema.org/draft-07/schema#")
    ▷ type (codes "object")
    ▷ required (
        codes "timestamp"
        ∷ codes "service"
        ∷ codes "action"
        ∷ codes "result"
        ∷ codes "hash"
        ∷ codes "hashAlgorithm"
        ∷ [])
    ▷ properties log_properties
    ▷ any_value

-- `schema.properties`
unfoldable pub properties_of : Schema → Properties
properties_of any_value = no_properties
properties_of (properties ps ▷ rest) = ps
properties_of (k ▷ rest) = properties_of rest

-- `properties[name]`
unfoldable pub schema_of : Text → Properties → Schema
schema_of name no_properties = any_value
schema_of name (property k s ⨾ rest) = if same k name then s else schema_of name rest

-- `schema.enum`
unfoldable pub enum_of : Schema → List Text
enum_of any_value = []
enum_of (enum l ▷ rest) = l
enum_of (k ▷ rest) = enum_of rest

-- `VALID_SERVICES` and `VALID_RESULTS`
unfoldable pub valid_services : List Text
unfolding properties_of schema_of enum_of same
valid_services = enum_of (schema_of (codes "service") (properties_of log_schema))

unfoldable pub valid_results : List Text
unfolding properties_of schema_of enum_of same
valid_results = enum_of (schema_of (codes "result") (properties_of log_schema))
