-- ===== src/Paths.antt =====
-- The path policy: src/remote_host_mcp/secure_paths.py, with the three methods of `Settings` of
-- src/remote_host_mcp/config.py that it uses. A path is the list of its components.
pub mod Beneath
mod Tests
use mathlib.Core.List.{reverse}
use remote_host_mcp.Prelude.{
  Bool, true, false, not, ◌&&◌, ◌||◌, Option, none, some, List, [], ◌∷◌, ◌++◌, ◌==◌, is_nil,
  if◌then◌else◌,
}
use remote_host_mcp.Prelude.Text.{Text, codes, text_eq}

abbrev pub PathOf : Type 0
PathOf = List Text

-- `path.relative_to(root)`; none is the ValueError
unfoldable pub relative_to : PathOf → PathOf → Option PathOf
relative_to [] path = some path
relative_to (c ∷ root) [] = none
relative_to (c ∷ root) (d ∷ path) = if text_eq c d then relative_to root path else none

abbrev pub is_there : Option PathOf → Bool
is_there none = false
is_there (some p) = true

-- `_is_under_allowed_root`
unfoldable pub is_under : List PathOf → PathOf → Bool
unfolding relative_to
is_under [] path = false
is_under (root ∷ roots) path = is_there (relative_to root path) || is_under roots path

unfoldable pub split_slashes : Text → List Text
split_slashes [] = [] ∷ []
split_slashes (c ∷ cs) =
    let rest = split_slashes cs in
    if c == 47 then [] ∷ rest else elim rest [ [] ↦ (c ∷ []) ∷ [] | w ∷ ws ↦ (c ∷ w) ∷ ws ]

abbrev pub drop_last : PathOf → PathOf
drop_last [] = []
drop_last (c ∷ cs) = cs

-- The components behind those that are kept already, the last one first
unfoldable pub normalize : PathOf → List Text → PathOf
normalize kept [] = reverse kept
normalize kept (c ∷ cs) =
    let up = normalize (drop_last kept) cs in
    let same = normalize kept cs in
    let down = normalize (c ∷ kept) cs in
    if is_nil c || text_eq c (codes ".") then same else if text_eq c (codes "..") then up else down

abbrev pub behind_slash : Text → Option Text
behind_slash [] = none
behind_slash (c ∷ cs) = if c == 47 then some cs else none

-- Two slashes in front, and no third, are a root of their own.
abbrev pub is_double : Text → Bool
is_double t = elim (behind_slash t) [
  | none ↦ false
  | some u ↦ elim (behind_slash u) [
    | none ↦ false
    | some v ↦ elim (behind_slash v) [ none ↦ true | some _ ↦ false ]
  ]
]

-- `os.path.normpath` of an absolute path; none for every other one
unfoldable pub lexical_path : Text → Option PathOf
unfolding split_slashes normalize
lexical_path raw = elim (behind_slash raw) [
  | none ↦ none
  | some rest ↦ if is_double raw then none else some (normalize [] (split_slashes rest))
]

-- The first allowed root that holds a path, and the rest of the path
unfoldable pub root_of : List PathOf → PathOf → Option (PathOf × PathOf)
unfolding relative_to
root_of [] path = none
root_of (root ∷ roots) path =
    let later = root_of roots path in
    elim (relative_to root path) [ some relative ↦ some (root, relative) | none ↦ later ]

pub data Errno : Type 0 where
  exdev eloop enosys einval eperm other_error : Errno

abbrev pub is_escape : Errno → Bool
is_escape exdev = true
is_escape eloop = true
is_escape enosys = false
is_escape einval = false
is_escape eperm = false
is_escape other_error = false

abbrev pub is_unsupported : Errno → Bool
is_unsupported exdev = false
is_unsupported eloop = false
is_unsupported enosys = true
is_unsupported einval = true
is_unsupported eperm = true
is_unsupported other_error = false

-- What a system call opens: a descriptor is what it stands for.
pub data Opened : Type 0 where
  descriptor : PathOf → Opened
  fails : Errno → Opened

-- The system: `openat2` beneath a directory, with or without links; `os.open`, with or without
-- O_NOFOLLOW; the name of a descriptor in /proc; and `Path.resolve`.
pub record System : Type 0 where
  pub openat2 : PathOf → PathOf → Bool → Opened
  pub open_path : PathOf → Bool → Opened
  pub descriptor_path : PathOf → Option PathOf
  pub resolve : PathOf → PathOf
  pub opens_root : PathOf → Bool

pub data OpenAnswer : Type 0 where
  opened : PathOf → OpenAnswer
  value_error : OpenAnswer
  os_error : Errno → OpenAnswer

module _ (s : System) (roots : List PathOf) where
  -- `resolve_allowed_path` of a path that is absolute
  unfoldable pub resolve_allowed_path : PathOf → Option PathOf
  unfolding is_under
  resolve_allowed_path path =
      let resolved = s.resolve path in if is_under roots resolved then some resolved else none

  abbrev pub is_root : List PathOf → PathOf → Bool
  is_root [] path = false
  is_root (root ∷ rest) path = elim (relative_to root path) [
    | none ↦ is_root rest path
    | some relative ↦ is_nil relative || is_root rest path
  ]

  abbrev pub with_name : PathOf → PathOf → PathOf
  with_name parent [] = parent
  with_name parent (name ∷ _) = parent ++ name ∷ []

  -- `resolve_allowed_entry`
  unfoldable pub resolve_allowed_entry : PathOf → Option PathOf
  unfolding is_under relative_to
  resolve_allowed_entry path =
      let parent = s.resolve (reverse (drop_last (reverse path))) in
      if is_root roots path
      then some path
      else if is_under roots parent
      then some (with_name parent (reverse path))
      else none

  -- The last lines of `open_beneath`, with `_verify_fd_beneath`
  unfoldable pub open_fallback : PathOf → Bool → OpenAnswer
  unfolding is_under
  open_fallback safe no_follow = elim (s.open_path safe no_follow) [
    | fails e ↦ os_error e
    | descriptor p ↦ elim (s.descriptor_path p) [
      | none ↦ opened p
      | some q ↦ if is_under roots q then opened p else value_error
    ]
  ]

  -- `_open_canonical_with_kernel`; none if the kernel does not support it
  unfoldable pub open_canonical : PathOf → Option OpenAnswer
  unfolding root_of
  open_canonical safe = elim (root_of roots safe) [
    | none ↦ some value_error
    | some (root, relative) ↦
        if not (s.opens_root root)
        then some (os_error other_error)
        else elim (s.openat2 root relative true) [
          | descriptor p ↦ some (opened p)
          | fails e ↦
              if is_unsupported e
              then none
              else if is_escape e
              then some value_error
              else some (os_error e)
        ]
  ]

  -- `open_beneath`, where a link leads out of the root or is absolute
  unfoldable pub open_escaped : PathOf → Bool → OpenAnswer
  unfolding resolve_allowed_path open_canonical open_fallback
  open_escaped lexical no_symlinks =
      if no_symlinks then value_error else elim (resolve_allowed_path lexical) [
        | none ↦ value_error
        | some safe ↦ elim (open_canonical safe) [
          | some answer ↦ answer
          | none ↦ open_fallback safe false
        ]
      ]

  -- `open_beneath`, where the kernel does not support `openat2`
  unfoldable pub open_compatible : PathOf → Bool → OpenAnswer
  unfolding resolve_allowed_entry resolve_allowed_path open_fallback
  open_compatible lexical no_symlinks =
      elim (if no_symlinks then resolve_allowed_entry lexical else resolve_allowed_path lexical) [
        | none ↦ value_error
        | some safe ↦ open_fallback safe no_symlinks
      ]

  -- `open_beneath` of a normalized path
  unfoldable pub open_lexical : PathOf → Bool → OpenAnswer
  unfolding root_of open_escaped open_compatible
  open_lexical lexical no_symlinks = elim (root_of roots lexical) [
    | none ↦ value_error
    | some (root, relative) ↦
        if not (s.opens_root root)
        then os_error other_error
        else elim (s.openat2 root relative no_symlinks) [
          | descriptor p ↦ opened p
          | fails e ↦
              if is_escape e
              then open_escaped lexical no_symlinks
              else if is_unsupported e
              then open_compatible lexical no_symlinks
              else os_error e
        ]
  ]

  -- `open_beneath`; `~` is expanded already
  unfoldable pub open_beneath : Text → Bool → OpenAnswer
  unfolding lexical_path open_lexical
  open_beneath raw no_symlinks = elim (lexical_path raw) [
    | none ↦ value_error
    | some lexical ↦ open_lexical lexical no_symlinks
  ]

  -- `open_parent_beneath`: the directory, and the name in it
  unfoldable pub open_parent_beneath : Text → OpenAnswer × Option Text
  unfolding lexical_path root_of open_lexical
  open_parent_beneath raw = elim (lexical_path raw) [
    | none ↦ (value_error, none)
    | some lexical ↦ elim (root_of roots lexical) [
      | none ↦ (value_error, none)
      | some _ ↦ if is_root roots lexical then (value_error, none) else elim (reverse lexical) [
        | [] ↦ (value_error, none)
        | name ∷ up ↦ (open_lexical (reverse up) false, some name)
      ]
    ]
  ]
