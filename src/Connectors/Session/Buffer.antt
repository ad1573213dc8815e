-- ===== src/Connectors/Session/Buffer.antt =====
-- backend/app/connectors/runtime.py: what the buffer of a session holds after any calls.
use carhibou.Prelude.{
  ℕ, ◌≡◌, refl, subst, true, ◌&&◌, Option, none, some, is_some, String, [], ◌∷◌, inl, inr,
  if◌then◌else◌, or_else, All,
}
use carhibou.Prelude.Equality.{Dict}
use carhibou.Prelude.Float.{Float}
use carhibou.Prelude.Math.{Math, Texts}
use carhibou.Prelude.Text.{Characters}
use carhibou.Telemetry.Values.Coercion.{Parsing}
use carhibou.Profiles.{MappingProfileDefinition}
use carhibou.Profiles.Mapping.{MappedValue, merge, map_message}
use carhibou.Profiles.Mapping.Outcomes.{Lies, IsMapped, merge-Lies}
use carhibou.Profiles.Mapping.Message.{map_message-IsMapped}
use carhibou.Connectors.Session.{SessionState, new_session}
use carhibou.Connectors.Session.Messages.{is_empty, buffered}
use carhibou.Connectors.Session.Flush.{emptied}
use carhibou.Connectors.Session.Kept.{OfBuffer}

-- The buffer is empty outside a window, and its positions lie in range.
pub record IsBuffered {F : Type 0} ⦃ops : Float F⦄ (s : SessionState F) : Type 0 where
  pub idle : s.window_started ≡ none → (s.metrics ≡ []) × (s.position ≡ [])
  pub in_place : All Lies s.position

started : (w : Option ℕ) (mono : ℕ) → is_some (or_else w (some mono)) ≡ true
started none mono = refl
started (some t) mono = refl

idle_after :
    {V W : Type 0} (new old : Dict String V) (new_places places : Dict String W) (w : Option ℕ)
    (mono : ℕ)
    → (w ≡ none → (old ≡ []) × (places ≡ []))
    → (if is_empty new && is_empty new_places then w else or_else w (some mono)) ≡ none
    → (merge old new ≡ []) × (merge places new_places ≡ [])
idle_after [] old [] places w mono h e = h e
idle_after [] old (p ∷ ps) places w mono h e = absurd (cc (e, started w mono))
idle_after (m ∷ ms) old ps places w mono h e = absurd (cc (e, started w mono))

module _ {F : Type 0} ⦃ops : Float F⦄ where
  pub buffered-IsBuffered :
      (now mono : ℕ) (mapped : MappedValue F) (s : SessionState F)
      → IsMapped mapped
      → IsBuffered s
      → IsBuffered (buffered now mono mapped s)
  buffered-IsBuffered now mono mapped s m h = record {
    idle =
        idle_after mapped.metrics s.metrics mapped.position s.position s.window_started mono h.idle;
    in_place = merge-Lies s.position mapped.position h.in_place m.in_place;
  }

  pub IsBuffered-OfBuffer : OfBuffer (λ (s : SessionState F). IsBuffered s)
  IsBuffered-OfBuffer s boot_id sequence last errors message error h = record {
    idle = h.idle;
    in_place = h.in_place;
  }

  pub emptied-IsBuffered : (s : SessionState F) → IsBuffered (emptied s)
  emptied-IsBuffered s = record { idle = λ e. (refl, refl); in_place = tt }

  pub new_session-IsBuffered : (boot_id : String) → IsBuffered (new_session {F = F} boot_id)
  new_session-IsBuffered boot_id = record { idle = λ e. (refl, refl); in_place = tt }

module _ {F : Type 0} ⦃ops : Float F⦄ ⦃fs : Math F⦄ ⦃texts : Texts String⦄ ⦃chars : Characters⦄
    ⦃ps : Parsing F⦄ where
  pub message-IsMapped :
      (d : MappingProfileDefinition F) (key : String) (payload : Option String) (r : MappedValue F)
      → map_message d key payload ≡ some r
      → IsMapped r
  message-IsMapped d key payload r e = elim (map_message-IsMapped d key payload) [
    | inl (q, found, m) ↦ subst IsMapped (cc (found, e)) m
    | inr (raised, u) ↦ absurd (cc (e, raised))
  ]
