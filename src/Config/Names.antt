-- ===== src/Config/Names.antt =====
-- The two prefixes of the variables of src/remote_host_mcp/config.py.
use remote_host_mcp.Prelude.{◌≡◌, refl, String, Option, none, some, ap}
use remote_host_mcp.Prelude.Text.{Text, text_eq_refl}
use remote_host_mcp.Config.Variables.{Env, choose, raw}
use remote_host_mcp.Config.{settings_from, from_env}

abbrev pub with_canonical : (String → Option Text) → Env
with_canonical e = record { canonical = e; legacy = λ _. none }

abbrev pub with_legacy : (String → Option Text) → Env
with_legacy e = record { canonical = λ _. none; legacy = e }

abbrev pub with_both : (String → Option Text) → Env
with_both e = record { canonical = e; legacy = e }

choose-legacy : (name : String) (v : Option Text) → choose name none v ≡ choose name v none
choose-legacy name none = refl
choose-legacy name (some t) = refl

choose-both : (name : String) (v : Option Text) → choose name v v ≡ choose name v none
choose-both name none = refl
choose-both name (some t) = rw (text_eq_refl t) refl

-- An environment with the old prefix, or with both prefixes and the same values, gives the same
-- settings, or the same error, as the one with the new prefix.
pub from_env-renamed :
    (resolve : Text → Text) (home : Text) (e : String → Option Text)
    → (from_env resolve home (with_legacy e) ≡ from_env resolve home (with_canonical e))
      × (from_env resolve home (with_both e) ≡ from_env resolve home (with_canonical e))
unfolding from_env raw
from_env-renamed resolve home e =
    let legacy : raw (with_legacy e) ≡ raw (with_canonical e) =
      λ i name. choose-legacy name (e name) i in
    let both : raw (with_both e) ≡ raw (with_canonical e) = λ i name. choose-both name (e name) i in
    (ap (settings_from resolve home) legacy, ap (settings_from resolve home) both)
