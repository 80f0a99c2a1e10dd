-- ===== src/Redact/PathKey.antt =====
-- `_redact` of src/remote_host_mcp/jobs.py and src/remote_host_mcp/terminal.py: the key of the server's
-- path is taken out of a text.
use remote_host_mcp.Prelude.{ℕ, zero, suc, ◌-◌, [], ◌∷◌, ◌++◌, length, is_nil, if◌then◌else◌}
use remote_host_mcp.Prelude.Text.{Text, codes}
use remote_host_mcp.HubSettings.Parsers.{starts_with}

-- `str.replace`, with so many characters of an occurrence still to be passed over
unfoldable pub replace_from : ℕ → Text → Text → Text → Text
replace_from skip old new [] = []
replace_from (suc n) old new (c ∷ t) = replace_from n old new t
replace_from zero old new (c ∷ t) =
    let behind = replace_from (length old - 1) old new t in
    let on = replace_from zero old new t in
    if starts_with old (c ∷ t) then new ++ behind else c ∷ on

unfoldable pub hide_key : Text → Text → Text
unfolding replace_from
hide_key path_key text =
    if is_nil path_key then text else replace_from 0 path_key (codes "[REDACTED]") text
