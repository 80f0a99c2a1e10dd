-- ===== src/HubSettings/Modes.antt =====
-- The strict and the lenient reading of the RHMCP_HUB_* variables.
use remote_host_mcp.Prelude.{◌≡◌}
use remote_host_mcp.Prelude.Text.{Text}
use remote_host_mcp.HubSettings.{Parsed, value, config_error, value_error}

-- Neither reading fails by a ValueError; the second one does not fail, and is the first one where that does not fail.
abbrev pub Agrees : {A : Type 0} → Parsed A → Parsed A → Type 0
Agrees (value a) q = q ≡ value a
Agrees {A = A} (config_error name) q = (a : A) × (q ≡ value a)
Agrees value_error q = ⊥
