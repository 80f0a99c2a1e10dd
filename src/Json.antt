-- ===== src/Json.antt =====
-- The values that `json.loads` returns, and the tests that the reporting code makes on them.
use remote_host_mcp.Prelude.{String, Bool, true, false, not, Option, none, some, [], ◌∷◌}
use remote_host_mcp.Prelude.Text.{Text}
use remote_host_mcp.Prelude.Dict.{Dict}
use remote_host_mcp.Prelude.Int.{ℤ, pos, eq_ℤ}

-- A float is known by whether it is non-zero and by its text.
mutual
  pub data Json : Type 0 where
    null : Json
    bool : Bool → Json
    int : ℤ → Json
    float : Bool → Text → Json
    str : Text → Json
    arr : Items → Json
    obj : Fields → Json

  pub data Items : Type 0 where
    nil : Items
    cons : Json → Items → Items

  pub data Fields : Type 0 where
    end : Fields
    field : String → Json → Fields → Fields

-- A decoded object: one audit event, or one answer of the Hub.
abbrev pub Event : Type 0
Event = Dict Json

abbrev pub to_dict : Fields → Event
to_dict end = []
to_dict (field k v rest) = (k, v) ∷ to_dict rest

-- `bool(value)`
abbrev pub truthy : Json → Bool
truthy null = false
truthy (bool b) = b
truthy (int z) = not (eq_ℤ z (pos 0))
truthy (float nonzero _) = nonzero
truthy (str []) = false
truthy (str (_ ∷ _)) = true
truthy (arr nil) = false
truthy (arr (cons _ _)) = true
truthy (obj end) = false
truthy (obj (field _ _ _)) = true

-- `bool(d.get(key))`, the key's value in hand
abbrev pub truthy_or_absent : Option Json → Bool
truthy_or_absent none = false
truthy_or_absent (some v) = truthy v
