-- ===== src/Connectors/Session/Kept.antt =====
-- backend/app/connectors/runtime.py: what every call of a session keeps of its buffer.
use Prim.Native.Char.{code}
use carhibou.Prelude.{
  eqb, ℕ, ◌≡◌, refl, subst, Bool, true, false, ◌&&◌, ◌||◌, not, Option, none, some, is_some, String,
  List, [], ◌∷◌, Bool-cases, inl, inr, if◌then◌else◌,
}
use carhibou.Prelude.Equality.{◌==◌, get, string_eq}
use carhibou.Prelude.Float.{Float}
use carhibou.Prelude.Math.{Math, Texts}
use carhibou.Prelude.Text.{Characters, any_char, after_prefix}
use carhibou.Prelude.Time.{Instant}
use carhibou.Telemetry.Values.Coercion.{Parsing}
use carhibou.Telemetry.Candidates.{Agent, PositionObservation, TelemetrySample}
use carhibou.Telemetry.Ingest.{IngestionResult, Ingestion, ingested, retired_source}
use carhibou.Telemetry.State.{Db}
use carhibou.Profiles.Mapping.{MappedValue, map_message}
use carhibou.Sources.{Source}
use carhibou.Connectors.{Connector}
use carhibou.Connectors.Session.{
  SessionDefinition, SessionState, Store, StatusWrite, topic_prefix, write_status, written,
  too_soon, flush_status, acknowledge, pending_write, same_reading,
}
use carhibou.Connectors.Session.Messages.{
  buffered, record_mapping_notes, take_mapped, take_key, handle_message,
}
use carhibou.Connectors.Session.Flush.{
  Flushed, raises, returns, sample_of, emptied, next_sequence, waits, valid_position, valid_sample,
  checked_position, pair_position, buffered_position, stored, send, flush_sample, flush,
}

abbrev pub left_by : {A : Type 0} → Flushed A → A
left_by (raises a) = a
left_by (returns b a) = a

-- Whether a session ignores the topic of a message.
abbrev foreign_key : Option String → Bool
foreign_key none = true
foreign_key (some key) = key == "" || any_char (λ c. eqb (code c) b'/') key

-- A predicate that does not look at what is outside the buffer.
abbrev pub OfBuffer : {F : Type 0} → (SessionState F → Type 0) → Type 0
OfBuffer {F} P =
    (s : SessionState F) (boot_id : String) (sequence : ℕ) (last : Option ℕ) (errors : ℕ)
    (message : Bool) (error : Option String)
    → P s
    → P (record s {
      boot_id = boot_id;
      sequence = sequence;
      last_status_write = last;
      mapping_errors = errors;
      pending_message = message;
      pending_error = error;
    })

module _ {F : Type 0} (P : SessionState F → Type 0) (other : OfBuffer P) where
  noted-keeps :
      (decimal : ℕ → String) (notes : List String) (s : SessionState F)
      → P s
      → P (record_mapping_notes decimal notes s)
  noted-keeps decimal [] s h = h
  noted-keeps decimal (n ∷ notes) s h = other s _ _ _ _ _ _ h

  module _ {C : Type 0} where
    written-keeps :
        (mono : ℕ) (s : SessionState F) (r : Bool × Store C F) → P s → P (written mono s r).0
    written-keeps mono s (true, store) h = other s _ _ _ _ _ _ h
    written-keeps mono s (false, store) h = h

    pub write_status-keeps :
        (d : SessionDefinition F) (w : StatusWrite) (mono now : ℕ) (p : SessionState F × Store C F)
        → P p.0
        → P (write_status d w mono now p).0
    unfolding write_status
    write_status-keeps d w mono now (s, store) h =
        elim (Bool-cases (not w.force && too_soon mono s.last_status_write)) [
          | inl early ↦ rw (early, if◌then◌else◌) h
          | inr due ↦ rw (due, if◌then◌else◌) (written-keeps mono s _ h)
        ]

    acknowledge-keeps :
        (before : Option ℕ) (p : SessionState F × Store C F) → P p.0 → P (acknowledge before p).0
    acknowledge-keeps before (s, store) h =
        elim (Bool-cases (same_reading s.last_status_write before)) [
          | inl same ↦ rw (same, if◌then◌else◌) h
          | inr new ↦ rw (new, if◌then◌else◌) (other s _ _ _ _ _ _ h)
        ]

    pub flush_status-keeps :
        (d : SessionDefinition F) (force : Bool) (mono now : ℕ) (p : SessionState F × Store C F)
        → P p.0
        → P (flush_status d force mono now p).0
    unfolding flush_status
    flush_status-keeps d force mono now (s, store) h =
        elim (Bool-cases (not s.pending_message && not (is_some s.pending_error))) [
          | inl quiet ↦ rw (quiet, if◌then◌else◌) h
          | inr pending ↦
              rw (pending, if◌then◌else◌)
                (acknowledge-keeps s.last_status_write _
                  (write_status-keeps d (pending_write force s) mono now (s, store) h))
        ]

  module _ {C : Type 0} ⦃ops : Float F⦄ ⦃fs : Math F⦄ ⦃texts : Texts String⦄ ⦃chars : Characters⦄
      ⦃ps : Parsing F⦄ (decimal : ℕ → String) where
    -- A call of `handle_message` that ends without an exception.
    abbrev Left : Option (SessionState F × Store C F) → Type 0
    Left none = Unit
    Left (some p) = P p.0

    take_mapped-keeps :
        (d : SessionDefinition F) (mono now : ℕ) (o : Option (MappedValue F))
        (p : SessionState F × Store C F)
        → ((r : MappedValue F) → o ≡ some r → P (buffered now mono r p.0))
        → Left (take_mapped decimal d mono now o p)
    take_mapped-keeps d mono now none (s, store) m = tt
    take_mapped-keeps d mono now (some mapped) (s, store) m =
        let noted = record_mapping_notes decimal mapped.errors (buffered now mono mapped s) in
        flush_status-keeps d false mono now (record noted { pending_message = true }, store)
          (other noted noted.boot_id noted.sequence noted.last_status_write noted.mapping_errors
            true noted.pending_error
            (noted-keeps decimal mapped.errors (buffered now mono mapped s) (m mapped refl)))

    take_key-keeps :
        (d : SessionDefinition F) (payload : Option String) (mono now : ℕ)
        (p : SessionState F × Store C F) (o : Option String)
        → (((key : String)
              → o ≡ some key
              → (key == "" || any_char (λ c. eqb (code c) b'/') key) ≡ true)
            → P p.0)
        → ((key : String) (r : MappedValue F)
            → o ≡ some key
            → (key == "" || any_char (λ c. eqb (code c) b'/') key) ≡ false
            → map_message d.mapping_profile key payload ≡ some r
            → P (buffered now mono r p.0))
        → Left (take_key decimal d payload mono now p o)
    take_key-keeps d payload mono now p none h m = h (λ key e. absurd (cc e))
    take_key-keeps d payload mono now p (some key) h m =
        elim (Bool-cases (key == "" || any_char (λ c. eqb (code c) b'/') key)) [
          | inl foreign ↦
              rw (foreign, if◌then◌else◌)
                (h (λ k e. subst (λ (o : Option String). foreign_key o ≡ true) e foreign))
          | inr own ↦
              rw (own, if◌then◌else◌)
                (take_mapped-keeps d mono now (map_message d.mapping_profile key payload) p
                  (λ r e. m key r refl own e))
        ]

    pub handle_message-keeps :
        (d : SessionDefinition F) (topic : String) (payload : Option String) (mono now : ℕ)
        (p : SessionState F × Store C F) {q : SessionState F × Store C F}
        → handle_message decimal d topic payload mono now p ≡ some q
        → (((key : String)
              → after_prefix (topic_prefix d) topic ≡ some key
              → (key == "" || any_char (λ c. eqb (code c) b'/') key) ≡ true)
            → P p.0)
        → ((key : String) (r : MappedValue F)
            → after_prefix (topic_prefix d) topic ≡ some key
            → (key == "" || any_char (λ c. eqb (code c) b'/') key) ≡ false
            → map_message d.mapping_profile key payload ≡ some r
            → P (buffered now mono r p.0))
        → P q.0
    unfolding handle_message
    handle_message-keeps d topic payload mono now p e h m =
        subst Left e (take_key-keeps d payload mono now p (after_prefix (topic_prefix d) topic) h m)

  module _ ⦃ops : Float F⦄ where
    checked_position-keeps :
        (decimal : ℕ → String) (now : Instant) (x y : F) (s : SessionState F)
        → P s
        → P (checked_position decimal now x y s).1
    checked_position-keeps decimal now x y s h = elim (Bool-cases (valid_position s.position)) [
      | inl good ↦ rw (good, if◌then◌else◌) h
      | inr bad ↦
          rw (bad, if◌then◌else◌)
            (noted-keeps decimal ("buffered position failed validation" ∷ []) s h)
    ]

    pair_position-keeps :
        (decimal : ℕ → String) (now : Instant) (a b : Option F) (s : SessionState F)
        → P s
        → P (pair_position decimal now a b s).1
    pair_position-keeps decimal now none b s h = h
    pair_position-keeps decimal now (some x) none s h = h
    pair_position-keeps decimal now (some x) (some y) s h =
        checked_position-keeps decimal now x y s h

  module _ {C : Type 0} ⦃ops : Float F⦄ (empty : (s : SessionState F) → P (emptied s)) where
    stored-keeps :
        (source : Source) (connector : Connector C) (now : Instant) (p : SessionState F × Store C F)
        (r : Ingestion (IngestionResult × Agent × Db F))
        → P p.0
        → P (left_by (stored source connector now p r)).0
    stored-keeps source connector now (s, store) retired_source h = h
    stored-keeps source connector now (s, store) (ingested (result, agent, db)) h =
        empty (next_sequence s)

    send-keeps :
        (sample : TelemetrySample F) (now : Instant) (source : Option Source)
        (connector : Option (Connector C)) (p : SessionState F × Store C F)
        → P p.0
        → P (left_by (send sample now source connector p)).0
    send-keeps sample now none connector (s, store) h = empty s
    send-keeps sample now (some source) none (s, store) h = empty s
    send-keeps sample now (some source) (some connector) (s, store) h =
        elim (Bool-cases (not connector.enabled)) [
          | inl off ↦ rw (off, if◌then◌else◌) (empty s)
          | inr on ↦ rw (on, if◌then◌else◌) (stored-keeps source connector now (s, store) _ h)
        ]

    module _ ⦃chars : Characters⦄ where
      flush_sample-keeps :
          (d : SessionDefinition F) (sample : TelemetrySample F) (now : Instant)
          (p : SessionState F × Store C F)
          → P p.0
          → P (left_by (flush_sample d sample now p)).0
      flush_sample-keeps d sample now (s, store) h = elim (Bool-cases (not (valid_sample sample))) [
        | inl wrong ↦ rw (wrong, if◌then◌else◌) h
        | inr right ↦ rw (right, if◌then◌else◌) (send-keeps sample now _ _ (s, store) h)
      ]

      pub flush-keeps :
          (decimal : ℕ → String) (d : SessionDefinition F) (force : Bool) (mono : ℕ) (now : Instant)
          (id : String) (p : SessionState F × Store C F)
          → P p.0
          → P (left_by (flush decimal d force mono now id p)).0
      unfolding flush
      flush-keeps decimal d force mono now id (s, store) h =
          elim (Bool-cases (waits force mono d s.window_started)) [
            | inl early ↦ rw (early, if◌then◌else◌) h
            | inr due ↦
                let r : Option (PositionObservation F) × SessionState F =
                  buffered_position decimal now s in
                rw (due, if◌then◌else◌)
                  (flush_sample-keeps d (sample_of id now r.0 r.1) now (r.1, store)
                    (pair_position-keeps decimal now (get "latitude" s.position)
                      (get "longitude" s.position) s h))
          ]
