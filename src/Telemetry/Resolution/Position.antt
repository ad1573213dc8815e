-- ===== src/Telemetry/Resolution/Position.antt =====
-- backend/app/telemetry/resolution.py: `resolve_position`.
use carhibou.Prelude.{
  ℕ, ◌≡◌, refl, Bool, false, Option, none, some, String, List, [], ◌∷◌, In, arith, filter,
  if◌then◌else◌, ◌↔◌,
}
use carhibou.Prelude.Maximum.{
  max_of, by_triple, by_triple-IsWeakOrder, max_of-In, prefer, prefer-max, prefer-filter-In, worse,
}
use carhibou.Prelude.Time.{Instant}
use carhibou.Telemetry.Registry.{Liveness, observation_is_fresh}
use carhibou.Telemetry.Resolution.{Channel, Method, SourceKind, is_direct}

-- `V` is the fix itself, a dictionary that the resolution passes on as one whole.
pub record PositionCandidateValue (V : Type 0) : Type 0 where
  pub value : V
  pub observed_at : Instant
  pub source_id : String
  pub source_kind : SourceKind
  pub channel : Channel
  pub method : Method
  pub source : Liveness

pub record PositionReading (V : Type 0) : Type 0 where
  pub value : V
  pub observed_at : Instant
  pub source_id : String
  pub source_kind : SourceKind
  pub channel : Channel
  pub method : Method
  pub fresh : Bool

module _ {V : Type 0} where
  -- `_position_is_fresh`
  unfoldable pub position_is_fresh : PositionCandidateValue V → Instant → Bool
  position_is_fresh c now = observation_is_fresh "vehicle.speed" c.observed_at now c.source

  -- The key of the maximum, as a triple with nothing in the middle.
  abbrev pub position_priority : PositionCandidateValue V → ℕ × ℕ × ℕ
  position_priority c = (if is_direct c.method then 1 else 0, 0, c.observed_at)

  abbrev pub position_reading : PositionCandidateValue V → Instant → PositionReading V
  position_reading c now = record {
    value = c.value;
    observed_at = c.observed_at;
    source_id = c.source_id;
    source_kind = c.source_kind;
    channel = c.channel;
    method = c.method;
    fresh = position_is_fresh c now;
  }

  unfoldable pub select_position :
      List (PositionCandidateValue V) → Instant → Option (PositionCandidateValue V)
  select_position candidates now =
      max_of (by_triple position_priority)
        (prefer (filter (λ c. position_is_fresh c now) candidates) candidates)

  abbrev selected_reading : Option (PositionCandidateValue V) → Instant → Option (PositionReading V)
  selected_reading none now = none
  selected_reading (some selected) now = some (position_reading selected now)

  -- `resolve_position`
  unfoldable pub resolve_position :
      List (PositionCandidateValue V) → Instant → Option (PositionReading V)
  resolve_position candidates now = selected_reading (select_position candidates now) now

module _ {V : Type 0} where
  -- `d` comes before `c`: a fresh fix before a stale one, then by the key of the maximum.
  abbrev pub position_outranks :
      Instant → PositionCandidateValue V → PositionCandidateValue V → Bool
  position_outranks now d c =
      worse (position_is_fresh c now) (position_is_fresh d now) (by_triple position_priority c d)

  select_position-max :
      (cs : List (PositionCandidateValue V)) (now : Instant) {c : PositionCandidateValue V}
      (d : PositionCandidateValue V)
      → select_position cs now ≡ some c
      → In d cs
      → In c cs × (position_outranks now d c ≡ false)
  unfolding select_position
  select_position-max cs now {c} d e h = (
    prefer-filter-In (λ c. position_is_fresh c now) cs c
        (max_of-In (by_triple position_priority) _ e),
    prefer-max (by_triple position_priority) (by_triple-IsWeakOrder position_priority)
        (λ c. position_is_fresh c now) cs d e h,
  )

  selection-max :
      (cs : List (PositionCandidateValue V)) (now : Instant) (o : Option (PositionCandidateValue V))
      {r : PositionReading V} (d : PositionCandidateValue V)
      → select_position cs now ≡ o
      → selected_reading o now ≡ some r
      → In d cs
      → (c : PositionCandidateValue V) × In c cs
        × (r ≡ position_reading c now)
        × (position_outranks now d c ≡ false)
  selection-max cs now none d s e h = cc
  selection-max cs now (some c) d s e h =
      let (mem, highest) = select_position-max cs now d s h in (c, mem, ground arith, highest)

  -- The resolved position is one candidate's fix, as one whole and with its own freshness, and no
  -- other candidate comes before that one.
  pub resolve_position-max :
      (cs : List (PositionCandidateValue V)) (now : Instant) {r : PositionReading V}
      (d : PositionCandidateValue V)
      → resolve_position cs now ≡ some r
      → In d cs
      → (c : PositionCandidateValue V) × In c cs
        × (r ≡ position_reading c now)
        × (position_outranks now d c ≡ false)
  unfolding resolve_position
  resolve_position-max cs now d e h = selection-max cs now (select_position cs now) d refl e h

  -- There is a position whenever there is a candidate, however stale.
  pub resolve_position_total :
      (cs : List (PositionCandidateValue V)) (now : Instant)
      → (resolve_position cs now ≡ none) ↔ (cs ≡ [])
  unfolding resolve_position select_position max_of
  resolve_position_total [] now = (λ _. refl, λ _. refl)
  resolve_position_total (c ∷ cs) now = (λ e. ground arith, λ e. cc)
