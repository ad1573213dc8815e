-- ===== src/Telemetry/Registry/Validation.antt =====
-- backend/app/telemetry/registry.py: what `normalize_value` lets through.
use carhibou.Prelude.{◌≡◌, refl, Bool, true, false, ◌&&◌, not, Option, none, some, String, arith}
use carhibou.Prelude.Float.{Float}
use carhibou.Telemetry.Values.{Value, null, bool, int, float, text, finite_number}
use carhibou.Telemetry.Registry.{
  definition_for, below, above, within, validate_as, validate, validated, normalize_value,
}
use carhibou.Telemetry.Registry.Catalog.{MetricDefinition, ValueType}

module _ {F : Type 0} ⦃ops : Float F⦄ where
  -- A stored value has the type that the registry gives, and a number is finite and in range.
  abbrev fits_as : ValueType → MetricDefinition → Value F → Bool
  fits_as ValueType.boolean d (bool b) = true
  fits_as ValueType.boolean d _ = false
  fits_as ValueType.string d (text s) = true
  fits_as ValueType.string d _ = false
  fits_as ValueType.number d (float x) =
      ops.is_finite x && (not (below x d.minimum) && not (above x d.maximum))
  fits_as ValueType.number d _ = false

  -- No value fits every definition: it withdraws the last one.
  abbrev pub fits : MetricDefinition → Value F → Bool
  fits d null = true
  fits d v = fits_as d.value_type d v

  within-fits :
      (d : MetricDefinition) (x : F) {w : Value F}
      → ops.is_finite x ≡ true
      → within d (some x) ≡ some w
      → fits_as ValueType.number d w ≡ true
  within-fits d x {w} finite e = ground arith

  validate_as-fits :
      (t : ValueType) (d : MetricDefinition) (v : Value F) {w : Value F}
      → validate_as t d v ≡ some w
      → (fits_as t d w ≡ true) × (validate_as t d w ≡ some w)
  unfolding validate_as finite_number
  validate_as-fits ValueType.boolean d (bool b) {w} e = ground arith
  validate_as-fits ValueType.boolean d _ e = cc
  validate_as-fits ValueType.string d (text s) {w} e = ground arith
  validate_as-fits ValueType.string d _ e = cc
  validate_as-fits ValueType.number d (int n) {w} e = ground arith
  validate_as-fits ValueType.number d (float x) {w} e = ground arith
  validate_as-fits ValueType.number d _ e = cc

  fits_as-null :
      (t : ValueType) (d : MetricDefinition) (w : Value F) → w ≡ null → fits_as t d w ≡ false
  fits_as-null ValueType.boolean d w e = ground arith
  fits_as-null ValueType.string d w e = ground arith
  fits_as-null ValueType.number d w e = ground arith

  fits_of :
      (d : MetricDefinition) (w : Value F)
      → (fits_as d.value_type d w ≡ true) × (validate_as d.value_type d w ≡ some w)
      → (fits d w ≡ true) × (validate d w ≡ some w)
  unfolding validate
  fits_of d null h = cc (fits_as-null d.value_type d null refl, h.0)
  fits_of d _ h = h

  validate-fits :
      (d : MetricDefinition) (v : Value F) {w : Value F}
      → validate d v ≡ some w
      → (fits d w ≡ true) × (validate d w ≡ some w)
  unfolding validate
  validate-fits d null e = cc
  validate-fits d v {w} e = fits_of d w (validate_as-fits d.value_type d v e)

  validated-some : (o : Option (Value F)) (w : Value F) → validated o ≡ (true, w) → o ≡ some w
  validated-some none w e = ground arith
  validated-some (some v) w e = ground arith

  normalize_value-known :
      (key : String) (w : Value F) {d : MetricDefinition}
      → definition_for key ≡ some d
      → validate d w ≡ some w
      → normalize_value key w ≡ (true, w)
  unfolding normalize_value
  normalize_value-known key null known e = refl
  normalize_value-known key _ known e = rw (known, e)

  -- What an accepted observation of a registered metric stores fits the registry: no value, or one
  -- of its type, finite and in range. Storing it again changes nothing.
  pub normalize_value-fits :
      (key : String) (v w : Value F) {d : MetricDefinition}
      → definition_for key ≡ some d
      → normalize_value key v ≡ (true, w)
      → (fits d w ≡ true) × (normalize_value key w ≡ (true, w))
  unfolding normalize_value
  normalize_value-fits key null w {d} known e = ground arith
  normalize_value-fits key v w {d} known e =
      let (fit, again) = validate-fits d v (validated-some (validate d v) w (rw known at e)) in
      (fit, normalize_value-known key w known again)
