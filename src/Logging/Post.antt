-- ===== src/Logging/Post.antt =====
-- src/common/logging/loki-transport.service.ts: the request that `flushLogs` makes of the streams, and what it says of
-- the answer.
use proyecto_verde_auth.Base.{
  ℕ, ◌≡◌, refl, ◌∙◌, List, [], ◌∷◌, ◌++◌, Option, none, some, Text, codes, or_else, to_decimal, map,
  ◌==◌, ◌||◌, if◌then◌else◌,
}
use proyecto_verde_auth.Logging.Delivery.{
  Event, after, idle_transport, entries_of, all_streams, flush-after,
}
use proyecto_verde_auth.Logging.Loki.{Stream, stream_of, close_loki_logger}

-- What the module takes from JavaScript and Node: `parseInt`, `JSON.stringify({ streams })` and `Buffer.byteLength`.
pub record PostLibrary : Type 0 where
  pub parse_int : Text → Option ℕ
  pub stringify : List Stream → Text
  pub byte_length : Text → ℕ

-- The environment: `LOKI_HOST` and `LOKI_PORT`.
pub record LokiSettings : Type 0 where
  pub host : Option Text
  pub port : Option Text

-- `http.RequestOptions`, with the body that is written.
pub record PushRequest : Type 0 where
  pub hostname : Text
  pub port : Option ℕ
  pub path : Text
  pub method : Text
  pub content_type : Text
  pub content_length : ℕ
  pub timeout : ℕ
  pub body : Text

unfoldable pub request_of : PostLibrary → LokiSettings → List Stream → PushRequest
request_of lib settings streams =
    let payload = lib.stringify streams in
    record {
      hostname = or_else settings.host (codes "localhost");
      port = lib.parse_int (or_else settings.port (codes "3100"));
      path = codes "/loki/api/v1/push";
      method = codes "POST";
      content_type = codes "application/json";
      content_length = lib.byte_length payload;
      timeout = 5000;
      body = payload;
    }

-- A status, or the message of an error.
pub data PushAnswer : Type 0 where
  status : ℕ → PushAnswer
  failed : Text → PushAnswer

-- What is said on the console; nothing else is done, and the streams are not kept.
unfoldable pub complaint : PushAnswer → Option Text
unfolding to_decimal
complaint (status code) =
    if (code == 204) || (code == 200)
    then none
    else some (codes "Loki: Failed to send logs, status " ++ to_decimal code)
complaint (failed message) = some (codes "Loki: Error sending logs - " ++ message)

abbrev taken : Option Text → List Stream → List Stream
taken none streams = streams
taken (some message) streams = []

-- The streams that Loki took, where it answers each request.
unfoldable pub delivered :
    PostLibrary → LokiSettings → (PushRequest → PushAnswer) → List (List Stream) → List Stream
unfolding request_of complaint
delivered lib settings answer [] = []
delivered lib settings answer (streams ∷ posted) =
    taken (complaint (answer (request_of lib settings streams))) streams
    ++ delivered lib settings answer posted

module _ (lib : PostLibrary) (settings : LokiSettings) (answer : PushRequest → PushAnswer) where
  all_delivered :
      ((r : PushRequest) → complaint (answer r) ≡ none)
      → (posted : List (List Stream)) → delivered lib settings answer posted ≡ all_streams posted
  unfolding delivered all_streams
  all_delivered h [] = refl
  all_delivered h (streams ∷ posted) =
      rw (h (request_of lib settings streams), all_delivered h posted) refl

  none_delivered :
      ((r : PushRequest) → (m : Text) × (complaint (answer r) ≡ some m))
      → (posted : List (List Stream)) → delivered lib settings answer posted ≡ []
  unfolding delivered
  none_delivered h [] = refl
  none_delivered h (streams ∷ posted) =
      rw ((h (request_of lib settings streams)).1, none_delivered h posted) refl

  -- While Loki takes every request: after any entries, intervals and closings from an idle transport on, and once the
  -- logger is closed, Loki has the streams of the entries, each once and in order.
  pub closed-delivers :
      (nano_time : Text → Text) (env : Text) (events : List Event)
      → ((r : PushRequest) → complaint (answer r) ≡ none)
      → let t = close_loki_logger nano_time env (after nano_time env events idle_transport) in
        delivered lib settings answer t.posted ≡ map (stream_of nano_time env) (entries_of events)
  closed-delivers nano_time env events h =
      let (timed, empty, stopped, streams) = flush-after nano_time env events in
      all_delivered h _ ∙ streams

  -- What Loki refuses is lost: it is in no later request and not in the buffer either.
  pub refused-lost :
      (nano_time : Text → Text) (env : Text) (events : List Event)
      → ((r : PushRequest) → (m : Text) × (complaint (answer r) ≡ some m))
      → let t = close_loki_logger nano_time env (after nano_time env events idle_transport) in
        (delivered lib settings answer t.posted ≡ []) × (t.log_buffer ≡ [])
  refused-lost nano_time env events h =
      let (timed, empty, stopped, streams) = flush-after nano_time env events in
      (none_delivered h _, empty)
