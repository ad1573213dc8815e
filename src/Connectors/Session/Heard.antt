-- ===== src/Connectors/Session/Heard.antt =====
-- backend/app/connectors/runtime.py: the messages that the buffer of a session comes from.
use Prim.Native.Char.{code}
use carhibou.Prelude.{
  eqb, ℕ, ◌≡◌, refl, sym, ◌∙◌, ap, true, false, ◌||◌, ◌⊎◌, Option, none, some, is_some, String,
  List, [], ◌∷◌, Bool-cases, inl, inr, if◌then◌else◌, In, arith,
}
use carhibou.Prelude.Equality.{◌==◌, Dict, get, insert, string_eq, get-insert}
use carhibou.Prelude.Float.{Float}
use carhibou.Prelude.Math.{Math, Texts}
use carhibou.Prelude.Text.{Characters, any_char, after_prefix}
use carhibou.Prelude.Time.{Instant}
use carhibou.Telemetry.Values.{Value}
use carhibou.Telemetry.Values.Coercion.{Parsing}
use carhibou.Profiles.Mapping.{MappedValue, merge, map_message}
use carhibou.Connectors.Session.{SessionDefinition, SessionState, topic_prefix}
use carhibou.Connectors.Session.Messages.{is_empty, stamp_all, buffered}
use carhibou.Connectors.Session.Flush.{emptied}
use carhibou.Connectors.Session.Kept.{OfBuffer}

-- A message that a session was given, and when.
pub record Message : Type 0 where
  pub topic : String
  pub payload : Option String
  pub at : Instant

get-merge :
    {V : Type 0} (name : String) (v : V) (old new : Dict String V)
    → get name (merge old new) ≡ some v
    → In (name, v) new ⊎ ((get name old ≡ some v) × (get name new ≡ none))
get-merge name v old [] e = inr (e, refl)
get-merge name v old ((k, u) ∷ new) e = elim (get-merge name v (insert k u old) new e) [
  | inl m ↦ inl (inr m)
  | inr (found, none_later) ↦ elim (Bool-cases (k == name)) [
    | inl same ↦ inl (
        inl (
          rw ((string_eq.same_iff k name).0 same)
            (ap (λ w. (name, w)) (ground (arith, same, found, get-insert k name u old)))))
    | inr other ↦ inr (
      ground (arith, other, found, get-insert k name u old),
      rw (other, if◌then◌else◌) none_later,
    )
  ]
]

get-stamp_all :
    {V : Type 0} (name : String) (now : Instant) (new : Dict String V) (times : Dict String Instant)
    → get name (stamp_all now new times)
      ≡ (if is_some (get name new) then some now else get name times)
get-stamp_all name now [] times = refl
get-stamp_all name now ((k, u) ∷ new) times =
    get-stamp_all name now new (insert k now times) ∙ ground (arith, get-insert k name now times)

In-is_some :
    {V : Type 0} (name : String) (v : V) (d : Dict String V)
    → In (name, v) d
    → is_some (get name d) ≡ true
In-is_some {V} name v [] m = absurd m
In-is_some {V} name v ((k, u) ∷ d) (inl e) =
    let same : (k == name) ≡ true =
      (string_eq.same_iff k name).1 (ap (λ (r : String × V). r.0) (sym e)) in
    rw (same, if◌then◌else◌) refl
In-is_some {V} name v ((k, u) ∷ d) (inr m) = ground (arith, In-is_some name v d m)

In-is_empty : {V : Type 0} (row : String × V) (d : Dict String V) → In row d → is_empty d ≡ false
In-is_empty row [] m = absurd m
In-is_empty row (x ∷ d) m = refl

module _ {F : Type 0} ⦃ops : Float F⦄ ⦃fs : Math F⦄ ⦃texts : Texts String⦄ ⦃chars : Characters⦄
    ⦃ps : Parsing F⦄ (d : SessionDefinition F) where
  -- The message is one of the session's topics, and this is what its payload is mapped to.
  abbrev pub Maps : Message → MappedValue F → Type 0
  Maps m mapped =
      (key : String) × (after_prefix (topic_prefix d) m.topic ≡ some key)
      × ((key == "" || any_char (λ c. eqb (code c) b'/') key) ≡ false)
      × (map_message d.mapping_profile key m.payload ≡ some mapped)

  -- Of the messages, the last one first, the last that gives a value for a name gave this one, and
  -- came at this time.
  abbrev pub LastOf :
      {V : Type 0} → (MappedValue F → Dict String V) → List Message → String → V → Instant → Type 0
  LastOf part [] name v t = ⊥
  LastOf part (m ∷ log) name v t =
      ((mapped : MappedValue F) × Maps m mapped × In (name, v) (part mapped) × (t ≡ m.at))
      ⊎ (((mapped : MappedValue F) → Maps m mapped → get name (part mapped) ≡ none)
          × LastOf part log name v t)

  -- The last message that gives any field of a position came at this time.
  abbrev pub LastPlaced : List Message → Instant → Type 0
  LastPlaced [] t = ⊥
  LastPlaced (m ∷ log) t =
      ((mapped : MappedValue F) × Maps m mapped × (is_empty mapped.position ≡ false) × (t ≡ m.at))
      ⊎ (((mapped : MappedValue F) → Maps m mapped → is_empty mapped.position ≡ true)
          × LastPlaced log t)

  -- What the buffer holds comes from the last message that gives it: a metric with the time of that
  -- message, a field of the position at some time, and the position as a whole at the time of the
  -- last message with a position.
  pub record IsHeard (log : List Message) (s : SessionState F) : Type 0 where
    pub metric :
        (name : String) (v : Value F)
        → get name s.metrics ≡ some v
        → (t : Instant) × (get name s.metric_observed_at ≡ some t)
          × LastOf (λ mapped. mapped.metrics) log name v t
    pub field :
        (name : String) (x : F)
        → get name s.position ≡ some x
        → (t : Instant) × LastOf (λ mapped. mapped.position) log name x t
    pub placed :
        (name : String) (x : F)
        → get name s.position ≡ some x
        → (t : Instant) × (s.position_observed_at ≡ some t) × LastPlaced log t

  pub IsHeard-OfBuffer : (log : List Message) → OfBuffer (λ (s : SessionState F). IsHeard log s)
  IsHeard-OfBuffer log s boot_id sequence last errors message error h = record {
    metric = h.metric;
    field = h.field;
    placed = h.placed;
  }

  Maps-unique : (m : Message) (a b : MappedValue F) → Maps m a → Maps m b → a ≡ b
  Maps-unique m a b (key, e, own, f) (key', e', own', f') =
      let same : key ≡ key' = cc (e, e') in cc (same, f, f')

  -- A message that is mapped into the buffer.
  pub buffered-IsHeard :
      (m : Message) (mono : ℕ) (r : MappedValue F) (log : List Message) (s : SessionState F)
      → Maps m r
      → IsHeard log s
      → IsHeard (m ∷ log) (buffered m.at mono r s)
  buffered-IsHeard m mono r log s maps h = record {
    metric = λ name v e. elim (get-merge name v s.metrics r.metrics e) [
      | inl new ↦ (
        m.at,
        get-stamp_all name m.at r.metrics s.metric_observed_at
            ∙ rw (In-is_some name v r.metrics new, if◌then◌else◌) refl,
        inl (r, maps, new, refl),
      )
      | inr (old, silent) ↦
          let (t, at, last) = h.metric name v old in
          (
            t,
            get-stamp_all name m.at r.metrics s.metric_observed_at ∙ rw (silent, if◌then◌else◌) at,
            inr (λ r' maps'. rw (Maps-unique m r' r maps' maps) silent, last),
          )
    ];
    field = λ name x e. elim (get-merge name x s.position r.position e) [
      | inl new ↦ (m.at, inl (r, maps, new, refl))
      | inr (old, silent) ↦
          let (t, last) = h.field name x old in
          (t, inr (λ r' maps'. rw (Maps-unique m r' r maps' maps) silent, last))
    ];
    placed = λ name x e. elim (Bool-cases (is_empty r.position)) [
      | inr full ↦ (m.at, rw (full, if◌then◌else◌) refl, inl (r, maps, full, refl))
      | inl empty ↦ elim (get-merge name x s.position r.position e) [
        | inl new ↦ absurd (cc (empty, In-is_empty (name, x) r.position new))
        | inr (old, silent) ↦
            let (t, at, last) = h.placed name x old in
            (
              t,
              rw (empty, if◌then◌else◌) at,
              inr (λ r' maps'. rw (Maps-unique m r' r maps' maps) empty, last),
            )
      ]
    ];
  }

  -- A message that the session ignores.
  pub ignored-IsHeard :
      (m : Message) (log : List Message) (s : SessionState F)
      → ((mapped : MappedValue F) → Maps m mapped → ⊥)
      → IsHeard log s
      → IsHeard (m ∷ log) s
  ignored-IsHeard m log s ignored h = record {
    metric = λ name v e.
        let (t, at, last) = h.metric name v e in
        (t, at, inr (λ r maps. absurd (ignored r maps), last));
    field = λ name x e.
        let (t, last) = h.field name x e in (t, inr (λ r maps. absurd (ignored r maps), last));
    placed = λ name x e.
        let (t, at, last) = h.placed name x e in
        (t, at, inr (λ r maps. absurd (ignored r maps), last));
  }

  pub emptied-IsHeard : (log : List Message) (s : SessionState F) → IsHeard log (emptied s)
  emptied-IsHeard log s = record {
    metric = λ name v e. absurd (cc e);
    field = λ name x e. absurd (cc e);
    placed = λ name x e. absurd (cc e);
  }
