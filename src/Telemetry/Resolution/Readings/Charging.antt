-- ===== src/Telemetry/Resolution/Readings/Charging.antt =====
-- backend/app/telemetry/resolution.py: what the readings about charging are inferred from.
use carhibou.Prelude.{
  ◌≡◌, refl, sym, ◌∙◌, Bool, true, false, ◌||◌, Option, none, some, String, List, arith, or_else,
}
use carhibou.Prelude.Int.{pos}
use carhibou.Prelude.Equality.{get, string_eq}
use carhibou.Prelude.Float.{Float}
use carhibou.Prelude.Time.{Instant}
use carhibou.Telemetry.Values.{bool, float, finite_number}
use carhibou.Telemetry.Registry.{definition_for}
use carhibou.Telemetry.Resolution.{Candidate, Reading, reading_as, candidate_is_fresh, retains}
use carhibou.Telemetry.Resolution.Choice.{choose_sound}
use carhibou.Telemetry.Resolution.Readings.{
  is_true, derive, number_of, reaches_floor, absorbs, inferred_from, explicit_or, origin_fresh,
  negative_power, charging_from, derived_power, power_reading, resolve_readings,
}
use carhibou.Telemetry.Resolution.Readings.Lookup.{
  named, chosen, charging_of, get-charging_active, get-charging_power,
}

-- The evidence for charging is not kept once it is stale.
pub retains-charging_power : retains (definition_for "charging.power") ≡ false
unfolding definition_for
retains-charging_power = refl

pub retains-battery_power : retains (definition_for "battery.power") ≡ false
unfolding definition_for
retains-battery_power = refl

module _ {F : Type 0} where
  pub chosen-fresh :
      (key : String) (cs : List (Candidate F)) (now : Instant) {c : Candidate F}
      → chosen key cs now ≡ some c
      → retains (definition_for key) ≡ false
      → candidate_is_fresh c now ≡ true
  chosen-fresh key cs now {c} e drops =
      ground (arith, choose_sound key (named key cs) now {c = c} e)

module _ {F : Type 0} ⦃ops : Float F⦄ where
  -- Without a usable explicit state, a charger's power decides, together with the battery's, and
  -- the reading is marked as derived from the charger's.
  pub charging_active_inferred :
      (cs : List (Candidate F)) (now : Instant) {c : Candidate F}
      → chosen "charging.active" cs now ≡ none
      → chosen "charging.power" cs now ≡ some c
      → get "charging.active" (resolve_readings cs now)
        ≡ some (
            reading_as
              (derive c "charging.active" (
                bool (
                  reaches_floor (finite_number c.value)
                  || absorbs (number_of (chosen "battery.power" cs now)))))
              true)
  unfolding charging_from
  charging_active_inferred cs now {c} absent e =
      rw get-charging_active
        (rw (absent, e) (rw (chosen-fresh "charging.power" cs now e retains-charging_power) refl))

  explicit_or-active :
      (explicit origin : Option (Candidate F)) (active : Bool) (now : Instant)
      → (explicit_or explicit (inferred_from origin active) now).0 ≡ some true
      → (a : Reading F) × ((explicit_or explicit (inferred_from origin active) now).1 ≡ some a)
        × (is_true a.value ≡ true)
  explicit_or-active none none active now e = cc
  explicit_or-active none (some origin) active now e = (_, refl, ground arith)
  explicit_or-active (some c) origin active now e = (_, refl, ground arith)

  charging_from-active :
      (explicit evidence battery : Option (Candidate F)) (now : Instant)
      → (charging_from explicit evidence battery now).0 ≡ some true
      → (a : Reading F) × ((charging_from explicit evidence battery now).1 ≡ some a)
        × (is_true a.value ≡ true)
  unfolding charging_from
  charging_from-active explicit evidence battery now e =
      explicit_or-active (origin_fresh explicit now) (origin_fresh (or_else evidence battery) now) _
        now e

  negative_power_sound :
      (b : Candidate F) (o : Option F) {r : Reading F}
      → finite_number b.value ≡ o
      → negative_power b o ≡ some r
      → (b' : Candidate F) × (p : F) × (◌≡◌ {A = Option (Candidate F)} (some b) (some b'))
        × (finite_number b'.value ≡ some p)
        × (ops.lt p (ops.of_int (pos 0)) ≡ true)
        × (r ≡ reading_as (derive b' "charging.power" (float (ops.abs p))) true)
  negative_power_sound b none f e = cc
  negative_power_sound b (some p) f e = (b, p, refl, f, ground arith, ground arith)

  derived_power_sound :
      (battery : Option (Candidate F)) {r : Reading F}
      → derived_power battery ≡ some r
      → (b : Candidate F) × (p : F) × (battery ≡ some b)
        × (finite_number b.value ≡ some p)
        × (ops.lt p (ops.of_int (pos 0)) ≡ true)
        × (r ≡ reading_as (derive b "charging.power" (float (ops.abs p))) true)
  unfolding derived_power
  derived_power_sound none e = cc
  derived_power_sound (some b) e = negative_power_sound b (finite_number b.value) refl e

  power_reading-inferred :
      (evidence battery : Option (Candidate F)) (active : Option Bool) (now : Instant)
      {r : Reading F}
      → evidence ≡ none
      → power_reading evidence battery active now ≡ some r
      → (derived_power battery ≡ some r) × (active ≡ some true)
  unfolding power_reading
  power_reading-inferred (some c) battery active now absent e = cc
  power_reading-inferred none battery none now absent e = cc
  power_reading-inferred none battery (some true) now absent e = (e, refl)
  power_reading-inferred none battery (some false) now absent e = cc

  -- A power for charging is made up from the battery's only while the vehicle is shown as charging,
  -- and only from a battery power below zero.
  pub charging_power_inferred :
      (cs : List (Candidate F)) (now : Instant) {r : Reading F}
      → chosen "charging.power" cs now ≡ none
      → get "charging.power" (resolve_readings cs now) ≡ some r
      → (b : Candidate F) × (p : F) × (a : Reading F) × (chosen "battery.power" cs now ≡ some b)
        × (finite_number b.value ≡ some p)
        × (ops.lt p (ops.of_int (pos 0)) ≡ true)
        × (r ≡ reading_as (derive b "charging.power" (float (ops.abs p))) true)
        × (get "charging.active" (resolve_readings cs now) ≡ some a)
        × (is_true a.value ≡ true)
  charging_power_inferred cs now {r} absent e =
      let (derived, active) =
        power_reading-inferred (chosen "charging.power" cs now) (chosen "battery.power" cs now)
          (charging_of cs now).0 now {r = r} absent (sym (get-charging_power cs now) ∙ e) in
      let (b, p, eb, ep, negative, shape) =
        derived_power_sound (chosen "battery.power" cs now) derived in
      let (a, ea, shown) = charging_from-active _ _ _ now active in
      (b, p, a, eb, ep, negative, shape, get-charging_active cs now ∙ ea, shown)
