-- ===== src/Profiles/Tests.antt =====
-- Runs of the mapping of messages.
use carhibou.Prelude.{◌≡◌, refl, ◌⊎◌, true, false, none, some, String, [], ◌∷◌}
use carhibou.Prelude.Equality.{string_eq}
use carhibou.Prelude.Hundredths.{hundredths}
use carhibou.Prelude.Int.{ℤ, pos}
use carhibou.Telemetry.Values.Coercion.{is_number}
use carhibou.Telemetry.Values.Coercion.{is_number, coerce_value, coerce_value_number}
use carhibou.Telemetry.Values.{finite_number}
use carhibou.Profiles.{MappingRule, MappingProfileDefinition}
use carhibou.Profiles.Readers.{lower_case, ascii, reader, unused}
use carhibou.Profiles.Mapping.{MappedValue, map_message, apply_rule, store, valid_metric_key}
use carhibou.Profiles.Mapping.Outcomes.{IsMapped}
use carhibou.Profiles.Mapping.Message.{Unmappable, UnreadablePayload, map_message-IsMapped}

-- `NUMBER` on texts with and without a point, a sign and an exponent.
numbers :
    (is_number "12.5" ≡ true)
    × (is_number "-.5e+3" ≡ true)
    × (is_number "1e" ≡ false)
    × (is_number "." ≡ false)
unfolding is_number
numbers = (refl, refl, refl, refl)

abbrev to_field : String → MappingRule ℤ
to_field target = record { match = "speed"; target = target; transform = none }

abbrev profile : String → MappingProfileDefinition ℤ
profile target = record { passthrough_prefix = ""; ignore = []; rules = to_field target ∷ [] }

mapped_speed :
    map_message (profile "position.speed") "speed" (some "12.5")
    ≡ some (record { metrics = []; position = ("speed", pos 1250) ∷ []; errors = [] })
unfolding map_message apply_rule store valid_metric_key coerce_value coerce_value_number is_number
    finite_number
mapped_speed = refl

map_message-IsMapped_example :
    ((r : MappedValue ℤ) × (map_message (profile "position.speed") "speed" (some "12.5") ≡ some r)
      × IsMapped r)
    ⊎ ((map_message (profile "position.speed") "speed" (some "12.5") ≡ none)
        × (Unmappable (profile "position.speed") ⊎ UnreadablePayload ℤ (some "12.5")))
map_message-IsMapped_example = map_message-IsMapped (profile "position.speed") "speed" (some "12.5")
