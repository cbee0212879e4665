-- ===== src/Logging/Delivery.antt =====
-- What becomes of the entries that are pushed into the Loki transport.
use proyecto_verde_auth.Base.{
  ◌≡◌, ◌⊎◌, inl, inr, refl, Bool, true, false, if◌then◌else◌, List, [], ◌∷◌, ◌++◌, Text, map, ap,
  sym, ◌∙◌,
}
use proyecto_verde_auth.Logging.Loki.{
  LokiEntry, Stream, Transport, stream_of, push_entry, flush_logs, start_flush_timer, fire,
  close_loki_logger,
}

-- What happens to the transport: an entry is logged, the interval of the timer passes, or the logger is closed.
pub data Event : Type 0 where
  logged : LokiEntry → Event
  timer : Event
  closed : Event

unfoldable pub entries_of : List Event → List LokiEntry
entries_of [] = []
entries_of (logged e ∷ events) = e ∷ entries_of events
entries_of (timer ∷ events) = entries_of events
entries_of (closed ∷ events) = entries_of events

unfoldable pub all_streams : List (List Stream) → List Stream
all_streams [] = []
all_streams (l ∷ ls) = l ++ all_streams ls

module _ (nano_time : Text → Text) (env : Text) where
  unfoldable pub after : List Event → Transport → Transport
  after [] t = t
  after (logged e ∷ events) t = after events (push_entry e t)
  after (timer ∷ events) t = after events (fire nano_time env t)
  after (closed ∷ events) t = after events (close_loki_logger nano_time env t)

abbrev pub idle_transport : Transport
idle_transport = record { log_buffer = []; flush_timer = false; posted = [] }

module _ {A : Type 0} where
  pub append-nil : (xs : List A) → xs ++ [] ≡ xs
  append-nil [] = refl
  append-nil (x ∷ xs) = ap (◌∷◌ x) (append-nil xs)

  pub append_assoc : (xs ys zs : List A) → (xs ++ ys) ++ zs ≡ xs ++ (ys ++ zs)
  append_assoc [] ys zs = refl
  append_assoc (x ∷ xs) ys zs = ap (◌∷◌ x) (append_assoc xs ys zs)

  pub map-snoc :
      {B : Type 0} (f : A → B) (xs : List A) (x : A)
      → map f (xs ++ (x ∷ [])) ≡ map f xs ++ (f x ∷ [])
  map-snoc f [] x = refl
  map-snoc f (y ∷ xs) x = ap (◌∷◌ (f y)) (map-snoc f xs x)

all_streams-snoc :
    (ls : List (List Stream)) (l : List Stream) → all_streams (ls ++ (l ∷ [])) ≡ all_streams ls ++ l
unfolding all_streams
all_streams-snoc [] l = append-nil l
all_streams-snoc (k ∷ ls) l = rw (all_streams-snoc ls l, append_assoc k (all_streams ls) l) refl

module _ (nano_time : Text → Text) (env : Text) where
  -- What was posted and what waits, in order.
  abbrev pub total : Transport → List Stream
  total t = all_streams t.posted ++ map (stream_of nano_time env) t.log_buffer

  pub total-push :
      (e : LokiEntry) (t : Transport)
      → total (push_entry e t) ≡ total t ++ (stream_of nano_time env e ∷ [])
  unfolding push_entry
  total-push e t =
      rw
        (
          map-snoc (stream_of nano_time env) t.log_buffer e,
          append_assoc (all_streams t.posted) (map (stream_of nano_time env) t.log_buffer)
              (stream_of nano_time env e ∷ []),
        )
        refl

  flushed_all :
      (buffer : List LokiEntry) (runs : Bool) (posted : List (List Stream))
      → total (
          flush_logs nano_time env
            (record { log_buffer = buffer; flush_timer = runs; posted = posted }))
        ≡ total (record { log_buffer = buffer; flush_timer = runs; posted = posted })
  unfolding flush_logs
  flushed_all [] runs posted = refl
  flushed_all (e ∷ buffer) runs posted =
      rw
        (
          all_streams-snoc posted (map (stream_of nano_time env) (e ∷ buffer)),
          append-nil (all_streams posted ++ map (stream_of nano_time env) (e ∷ buffer)),
        )
        refl

  pub flushed : (t : Transport) → total (flush_logs nano_time env t) ≡ total t
  flushed t = flushed_all t.log_buffer t.flush_timer t.posted

  total-close : (t : Transport) → total (close_loki_logger nano_time env t) ≡ total t
  unfolding close_loki_logger
  total-close t = flushed (record t { flush_timer = false })

  fired : (b : Bool) (t : Transport) → total (if b then flush_logs nano_time env t else t) ≡ total t
  fired true t = flushed t
  fired false t = refl

  total-fire : (t : Transport) → total (fire nano_time env t) ≡ total t
  unfolding fire
  total-fire t = fired t.flush_timer t

  after-total :
      (events : List Event) (t : Transport)
      → total (after nano_time env events t)
        ≡ total t ++ map (stream_of nano_time env) (entries_of events)
  unfolding after entries_of
  after-total [] t = sym (append-nil (total t))
  after-total (logged e ∷ events) t =
      rw
        (
          after-total events (push_entry e t),
          total-push e t,
          append_assoc (total t) (stream_of nano_time env e ∷ [])
              (map (stream_of nano_time env) (entries_of events)),
        )
        refl
  after-total (timer ∷ events) t = rw (after-total events (fire nano_time env t), total-fire t) refl
  after-total (closed ∷ events) t =
      rw (after-total events (close_loki_logger nano_time env t), total-close t) refl

  -- No entry waits without a timer that runs.
  abbrev pub IsTimed : Transport → Type 0
  IsTimed t = (t.log_buffer ≡ []) ⊎ (t.flush_timer ≡ true)

  fired-IsTimed :
      (b : Bool) (t : Transport) → IsTimed t → IsTimed (if b then flush_logs nano_time env t else t)
  unfolding flush_logs
  fired-IsTimed true t h = inl refl
  fired-IsTimed false t h = h

  after-IsTimed :
      (events : List Event) (t : Transport) → IsTimed t → IsTimed (after nano_time env events t)
  unfolding after push_entry start_flush_timer fire close_loki_logger flush_logs
  after-IsTimed [] t h = h
  after-IsTimed (logged e ∷ events) t h = after-IsTimed events (push_entry e t) (inr refl)
  after-IsTimed (timer ∷ events) t h =
      after-IsTimed events (fire nano_time env t) (fired-IsTimed t.flush_timer t h)
  after-IsTimed (closed ∷ events) t h =
      after-IsTimed events (close_loki_logger nano_time env t) (inl refl)

  -- From an idle transport, whatever entries are logged, and whenever the interval passes or the logger is
  -- closed: entries wait only while the timer runs; and once the logger is closed the buffer is empty, the
  -- timer is stopped, and the posted streams, taken together in order, are those of the logged entries,
  -- each once and in the order in which they were logged.
  pub flush-after :
      (events : List Event)
      → let t = after nano_time env events idle_transport in
        let t' = close_loki_logger nano_time env t in
        IsTimed t
        × (t'.log_buffer ≡ [])
        × (t'.flush_timer ≡ false)
        × (all_streams t'.posted ≡ map (stream_of nano_time env) (entries_of events))
  unfolding close_loki_logger flush_logs entries_of all_streams
  flush-after events =
      let t = after nano_time env events idle_transport in
      (
        after-IsTimed events idle_transport (inl refl),
        refl,
        refl,
        sym (append-nil (all_streams (close_loki_logger nano_time env t).posted))
            ∙ total-close t
            ∙ after-total events idle_transport,
      )
