-- ===== src/Prelude/Assoc.antt =====
-- A `dict` whose keys are texts that the program computes, as an association list in the order of
-- insertion.
use mathlib.Core.Path.{◌≡◌, refl}
use mathlib.Core.Option.{Option, none, some}
use mathlib.Core.List.{List, [], ◌∷◌}
use native.Mathlib.Omega.{arith}
use remote_host_mcp.Prelude.Tests.{if◌then◌else◌}
use remote_host_mcp.Prelude.Text.{Text, text_eq, text_eq_refl, text_eq_sound}

module _ {ℓ} {V : Type ℓ} where
  unfoldable pub find : Text → List (Text × V) → Option V
  find k [] = none
  find k ((j, v) ∷ d) = if text_eq j k then some v else find k d

  unfoldable pub put : Text → V → List (Text × V) → List (Text × V)
  put k v [] = (k, v) ∷ []
  put k v ((j, w) ∷ d) = if text_eq j k then (k, v) ∷ d else (j, w) ∷ put k v d

  unfoldable pub drop_key : Text → List (Text × V) → List (Text × V)
  drop_key k [] = []
  drop_key k ((j, v) ∷ d) = let rest = drop_key k d in if text_eq j k then rest else (j, v) ∷ rest

  pub find-put :
      (j k : Text) (v : V) (d : List (Text × V))
      → find k (put j v d) ≡ (if text_eq j k then some v else find k d)
  unfolding find put
  find-put j k v [] = refl
  find-put j k v ((i, w) ∷ d) = ground (
    arith,
    find-put j k v d,
    text_eq_refl j,
    text_eq_sound i j,
    text_eq_sound j k,
    text_eq_sound i k,
  )

  pub find-drop_key :
      (j k : Text) (d : List (Text × V))
      → find k (drop_key j d) ≡ (if text_eq j k then none else find k d)
  unfolding find drop_key
  find-drop_key j k [] = ground arith
  find-drop_key j k ((i, v) ∷ d) = ground (
    arith,
    find-drop_key j k d,
    text_eq_refl j,
    text_eq_sound i j,
    text_eq_sound j k,
    text_eq_sound i k,
  )
