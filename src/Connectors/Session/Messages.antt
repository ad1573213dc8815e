-- ===== src/Connectors/Session/Messages.antt =====
-- backend/app/connectors/runtime.py: `handle_message`, which maps a message into the buffer.
use Prim.Native.Char.{code}
use Prim.Native.String.{◌++◌ as append_text}
use carhibou.Prelude.{
  ℕ, ◌+◌, Bool, true, false, ◌&&◌, ◌||◌, Option, none, some, String, List, [], ◌∷◌, length, eqb,
  last_or, or_else, if◌then◌else◌,
}
use carhibou.Prelude.Equality.{◌==◌, Dict, insert, string_eq}
use carhibou.Prelude.Float.{Float}
use carhibou.Prelude.Math.{Math, Texts}
use carhibou.Prelude.Text.{Characters, any_char, after_prefix}
use carhibou.Prelude.Time.{Instant}
use carhibou.Telemetry.Values.Coercion.{Parsing}
use carhibou.Profiles.Mapping.{MappedValue, merge, map_message}
use carhibou.Connectors.Session.{SessionDefinition, SessionState, Store, topic_prefix, flush_status}

-- `_record_mapping_notes`
abbrev pub record_mapping_notes :
    {F : Type 0} → (ℕ → String) → List String → SessionState F → SessionState F
record_mapping_notes decimal [] s = s
record_mapping_notes decimal (n ∷ notes) s =
    let errors = s.mapping_errors + length (n ∷ notes) in
    record s {
      mapping_errors = errors;
      pending_error = some (
          append_text (decimal errors)
            (append_text " mapping error(s); latest: " (last_or n notes)));
    }

-- `{name: observed_at for name in mapped.metrics}`, as an update.
abbrev pub stamp_all :
    {V : Type 0} → Instant → Dict String V → Dict String Instant → Dict String Instant
stamp_all now [] old = old
stamp_all now ((k, v) ∷ new) old = stamp_all now new (insert k now old)

abbrev pub is_empty : {V : Type 0} → Dict String V → Bool
is_empty [] = true
is_empty (row ∷ d) = false

module _ {F : Type 0} where
  -- The buffer after a mapped message.
  abbrev pub buffered : Instant → ℕ → MappedValue F → SessionState F → SessionState F
  buffered observed_at mono mapped s = record s {
    metrics = merge s.metrics mapped.metrics;
    metric_observed_at = stamp_all observed_at mapped.metrics s.metric_observed_at;
    position = merge s.position mapped.position;
    position_observed_at =
        if is_empty mapped.position then s.position_observed_at else some observed_at;
    window_started =
        if is_empty mapped.metrics && is_empty mapped.position
        then s.window_started
        else or_else s.window_started (some mono);
  }

module _ {C F : Type 0} ⦃ops : Float F⦄ ⦃fs : Math F⦄ ⦃texts : Texts String⦄ ⦃chars : Characters⦄
    ⦃ps : Parsing F⦄ (decimal : ℕ → String) where
  abbrev pub take_mapped :
      SessionDefinition F
      → ℕ
      → Instant
      → Option (MappedValue F)
      → SessionState F × Store C F
      → Option (SessionState F × Store C F)
  take_mapped d mono now none (s, store) = none
  take_mapped d mono now (some mapped) (s, store) =
      let noted = record_mapping_notes decimal mapped.errors (buffered now mono mapped s) in
      some (flush_status d false mono now (record noted { pending_message = true }, store))

  abbrev pub take_key :
      SessionDefinition F
      → Option String
      → ℕ
      → Instant
      → SessionState F × Store C F
      → Option String
      → Option (SessionState F × Store C F)
  take_key d payload mono now p none = some p
  take_key d payload mono now p (some key) =
      if key == "" || any_char (λ c. eqb (code c) b'/') key
      then some p
      else take_mapped d mono now (map_message d.mapping_profile key payload) p

  -- `handle_message`, or none where the mapping raises an exception.
  unfoldable pub handle_message :
      SessionDefinition F
      → String
      → Option String
      → ℕ
      → Instant
      → SessionState F × Store C F
      → Option (SessionState F × Store C F)
  handle_message d topic payload mono now p =
      take_key d payload mono now p (after_prefix (topic_prefix d) topic)
