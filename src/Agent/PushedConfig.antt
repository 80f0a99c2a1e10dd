-- ===== src/Agent/PushedConfig.antt =====
-- `apply_config` of src/remote_host_mcp/report_agent.py: settings that the Hub pushes.
use remote_host_mcp.Prelude.{◌≡◌, refl, Bool, true, false, Option, none, some, List, [], ◌∷◌, arith}
use remote_host_mcp.Prelude.Text.{Text, text_eq}
use remote_host_mcp.Prelude.Dict.{lookup}
use remote_host_mcp.Json.{Json, null, bool, int, float, str, arr, obj, Event}
use remote_host_mcp.HubSettings.{report_levels, output_modes}
use remote_host_mcp.HubSettings.Parsers.{member}
use remote_host_mcp.Agent.{
  Agent, Change, level_change, mode_change, choose, switch, note_text, note_bool, apply_config,
}

text_eq_refl : (t : Text) → text_eq t t ≡ true
text_eq_refl [] = refl
text_eq_refl (c ∷ t) = ground (arith, text_eq_refl t)

choose-member :
    (allowed : List Text) (current : Text) (v : Option Json)
    → member current allowed ≡ true
    → member (choose allowed current v) allowed ≡ true
unfolding choose
choose-member allowed current none h = h
choose-member allowed current (some (str t)) h = ground arith
choose-member allowed current (some null) h = h
choose-member allowed current (some (bool b)) h = h
choose-member allowed current (some (int z)) h = h
choose-member allowed current (some (float b t)) h = h
choose-member allowed current (some (arr xs)) h = h
choose-member allowed current (some (obj xs)) h = h

choose-again :
    (allowed : List Text) (current : Text) (v : Option Json)
    → choose allowed (choose allowed current v) v ≡ choose allowed current v
unfolding choose
choose-again allowed current none = refl
choose-again allowed current (some (str t)) = ground arith
choose-again allowed current (some null) = refl
choose-again allowed current (some (bool b)) = refl
choose-again allowed current (some (int z)) = refl
choose-again allowed current (some (float b t)) = refl
choose-again allowed current (some (arr xs)) = refl
choose-again allowed current (some (obj xs)) = refl

switch-again : (current : Bool) (v : Option Json) → switch (switch current v) v ≡ switch current v
unfolding switch
switch-again current none = refl
switch-again current (some (str t)) = refl
switch-again current (some null) = refl
switch-again current (some (bool b)) = refl
switch-again current (some (int z)) = refl
switch-again current (some (float b t)) = refl
switch-again current (some (arr xs)) = refl
switch-again current (some (obj xs)) = refl

-- The effective settings are values that the agent knows.
pub record IsKnown (a : Agent) : Type 0 where
  pub level : member a.report_level report_levels ≡ true
  pub mode : member a.output_mode output_modes ≡ true

-- Whatever object the Hub sends, the effective report level and output mode stay among the values
-- that the agent knows.
pub apply_config-IsKnown :
    (config : Event) (a : Agent) → IsKnown a → IsKnown (apply_config config a).1
unfolding apply_config
apply_config-IsKnown config a k = record {
  level = choose-member report_levels a.report_level (lookup "reportLevel" config) k.level;
  mode = choose-member output_modes a.output_mode (lookup "outputMode" config) k.mode;
}

note_text-same : (change : Text → Text → Change) (t : Text) → note_text change t t ≡ []
note_text-same change t = rw (text_eq_refl t) refl

note_bool-same : (b : Bool) → note_bool b b ≡ []
note_bool-same true = refl
note_bool-same false = refl

-- Applying one configuration twice is applying it once, and the second time reports no change.
pub apply_config-again :
    (config : Event) (a : Agent)
    → apply_config config (apply_config config a).1 ≡ ([], (apply_config config a).1)
unfolding apply_config
apply_config-again config a =
    let l = lookup "reportLevel" config in
    let r = lookup "redactEnabled" config in
    let m = lookup "outputMode" config in
    rw
      (
        choose-again report_levels a.report_level l,
        switch-again a.redact_enabled r,
        choose-again output_modes a.output_mode m,
        note_text-same level_change (choose report_levels a.report_level l),
        note_bool-same (switch a.redact_enabled r),
        note_text-same mode_change (choose output_modes a.output_mode m),
      )
      refl

-- A configuration without one of the three fields leaves that setting as it is, and nothing else of
-- the agent's state is touched by any configuration.
pub apply_config-unsent :
    (config : Event) (a : Agent)
    → (lookup "reportLevel" config ≡ none → (apply_config config a).1.report_level ≡ a.report_level)
      × (lookup "redactEnabled" config ≡ none
          → (apply_config config a).1.redact_enabled ≡ a.redact_enabled)
      × (lookup "outputMode" config ≡ none → (apply_config config a).1.output_mode ≡ a.output_mode)
      × ((apply_config config a).1 ≡ record a {
        report_level = (apply_config config a).1.report_level;
        redact_enabled = (apply_config config a).1.redact_enabled;
        output_mode = (apply_config config a).1.output_mode;
      })
unfolding apply_config choose switch
apply_config-unsent config a = (λ h. rw h refl, λ h. rw h refl, λ h. rw h refl, refl)
