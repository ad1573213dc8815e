-- ===== src/Sources/Settings.antt =====
-- backend/app/agents/services.py: the settings of a source and the version of its configuration.
use carhibou.Prelude.{
  ◌+◌, ◌≡◌, ◌≢◌, refl, ap, Bool, true, false, Option, none, some, String, Bool-cases, inl, inr,
  if◌then◌else◌, arith,
}
use carhibou.Prelude.Equality.{string_eq, ==_refl}
use carhibou.Sources.{
  Source, AgentSettings, AgentConfig, done, agent_config, lacks_profile, same_text,
  changes_configuration, configure, bump, update_agent,
}

-- What an agent is told to do, without the version.
abbrev pub directions : Source → AgentConfig
directions agent = record (agent_config agent) { version = 0 }

same_text_iff : (a b : Option String) → (same_text a b ≡ true) → a ≡ b
same_text_iff none none e = refl
same_text_iff none (some b) e = cc e
same_text_iff (some a) none e = cc e
same_text_iff (some a) (some b) e = ap some ((string_eq.same_iff a b).0 e)

same_text_refl : (a : Option String) → same_text a a ≡ true
same_text_refl none = refl
same_text_refl (some a) = ==_refl a

-- Settings that change nothing give the configuration that there was.
unchanged :
    (form : AgentSettings) (agent : Source)
    → changes_configuration form agent ≡ false
    → configure form agent ≡ record agent { name = form.name }
unchanged form agent e = ground (arith, same_text_iff agent.vehicle_profile form.vehicle_profile)

changed :
    (form : AgentSettings) (agent : Source)
    → changes_configuration form agent ≡ true
    → directions (configure form agent) ≢ directions agent
changed form agent e same =
    let profile : form.vehicle_profile ≡ agent.vehicle_profile = ap (λ c. c.vehicle_profile) same in
    let matching : same_text agent.vehicle_profile form.vehicle_profile ≡ true =
      rw profile (same_text_refl agent.vehicle_profile) in
    ground (
      arith,
      matching,
      ap (λ c. c.default_sampling) same,
      ap (λ c. c.parked_sampling) same,
      ap (λ c. c.default_upload) same,
      ap (λ c. c.parked_upload) same,
    )

repeated :
    (form : AgentSettings) (agent : Source) (b : Bool)
    → changes_configuration form (bump b (configure form agent)) ≡ false
repeated form agent true = ground (arith, same_text_refl form.vehicle_profile)
repeated form agent false = ground (arith, same_text_refl form.vehicle_profile)

-- The settings take effect, and the version of the configuration tells whether the source has to be
-- told: it grows by one exactly where the directions for the source differ from those before, and
-- stays where they do not. To apply the same settings again changes nothing. The settings are
-- refused only for a profile that is not available.
pub update_agent-version :
    (available : String → Bool) (form : AgentSettings) (agent : Source)
    → lacks_profile available form.vehicle_profile ≡ false
    → (told : Bool) × ((after : Source) × (update_agent available form agent ≡ done (told, after))
        × (directions after ≡ directions (configure form agent))
        × (told ≡ true
            → (after.config_version ≡ agent.config_version + 1)
              × (directions after ≢ directions agent))
        × (told ≡ false → after ≡ record agent { name = form.name })
        × (update_agent available form after ≡ done (false, after)))
unfolding update_agent
update_agent-version available form agent listed =
    elim (Bool-cases (changes_configuration form agent)) [
      | inl e ↦ (
        true,
        (
          bump true (configure form agent),
          rw (listed, if◌then◌else◌) (rw e),
          refl,
          λ _. (refl, changed form agent e),
          λ f. absurd (cc f),
          rw (listed, if◌then◌else◌) (rw (repeated form agent true)),
        ),
      )
      | inr e ↦ (
        false,
        (
          configure form agent,
          rw (listed, if◌then◌else◌) (rw e),
          refl,
          λ f. absurd (cc f),
          λ _. unchanged form agent e,
          rw (listed, if◌then◌else◌) (rw (repeated form agent false)),
        ),
      )
    ]
