-- ===== src/Files/Writing.antt =====
-- `write_text_file` of src/remote_host_mcp/filesystem.py, among other processes that write to the same
-- destination.
use remote_host_mcp.Prelude.{
  ℕ, Bool, true, false, not, ◌&&◌, Option, none, some, length, leb, ◌==◌, if◌then◌else◌,
}
use remote_host_mcp.Prelude.Text.{Text, text_eq, lower, all_hex}
use remote_host_mcp.Disk.{Bytes}

pub data Kind : Type 0 where
  regular symlink directory special : Kind

abbrev pub is_regular : Kind → Bool
is_regular regular = true
is_regular symlink = false
is_regular directory = false
is_regular special = false

abbrev pub is_directory : Kind → Bool
is_directory regular = false
is_directory symlink = false
is_directory directory = true
is_directory special = false

-- What a name stands for; the inode stands for the device and the inode.
pub record Node : Type 0 where
  pub inode : ℕ
  pub kind : Kind
  pub content : Bytes
  pub modified : ℕ

-- The two names that a write is about: the destination, and the temporary name beside it.
pub record Place : Type 0 where
  pub at_name : Option Node
  pub at_temporary : Option Node

-- What other processes make of the destination between the calls of a write: after it is looked at,
-- before the new file is put there, after that, and in the middle of the way back. The temporary
-- name is random, so they leave it alone.
pub record Others : Type 0 where
  pub after_look : Option Node → Option Node
  pub before_commit : Option Node → Option Node
  pub after_commit : Option Node → Option Node
  pub before_rollback : Option Node → Option Node

pub data Refusal : Type 0 where
  bad_mode : Refusal
  symlink_destination : Refusal
  not_regular : Refusal
  already_there : Refusal
  bad_digest : Refusal
  nothing_there : Refusal
  other_content : Refusal
  not_stored : Refusal
  disappeared : Refusal
  changed : Refusal
  appeared : Refusal
  system_error : Refusal

pub data Written : Type 0 where
  done : Written
  refused : Refusal → Written

-- `_content_identity`, compared
unfoldable pub same_identity : Node → Node → Bool
same_identity a b =
    a.inode == b.inode && length a.content == length b.content && a.modified == b.modified

-- `_inode_identity` of what is there, compared
abbrev pub is_ours : Node → Option Node → Bool
is_ours new none = false
is_ours new (some d) = d.inode == new.inode

-- The checks of what stands at the destination
unfoldable pub check_existing : Bool → Option Node → Option Refusal
check_existing overwrite none = none
check_existing overwrite (some d) = elim d.kind [
  | symlink ↦ some symlink_destination
  | directory ↦ some not_regular
  | special ↦ some not_regular
  | regular ↦ if overwrite then none else some already_there
]

-- `_is_sha256`; what else `int` reads at that length is no digest either, and is refused at the
-- comparison
unfoldable pub is_sha256 : Text → Bool
is_sha256 t = length t == 64 && all_hex t

-- The commit without an expected digest: `os.replace` or `rename_noreplace`
unfoldable pub commit_plain : Bool → Node → Option Node → Others → Written × Place
commit_plain overwrite new none o =
    (done, record { at_name = o.after_commit (some new); at_temporary = none })
commit_plain overwrite new (some d) o =
    if not overwrite
    then (refused appeared, record { at_name = some d; at_temporary = none })
    else if is_directory d.kind
    then (refused system_error, record { at_name = some d; at_temporary = none })
    else (done, record { at_name = o.after_commit (some new); at_temporary = none })

-- `_rollback_exchange_if_ours`, and the end of a guarded write that is not to be
unfoldable pub roll_back : Node → Node → Option Node → Others → Written × Place
roll_back new old now o =
    if not (is_ours new now)
    then (refused changed, record { at_name = now; at_temporary = some old })
    else elim (o.before_rollback now) [
      | none ↦ (refused system_error, record { at_name = none; at_temporary = none })
      | some d ↦ (refused changed, record { at_name = some old; at_temporary = none })
    ]

module _ (sha256 : Bytes → Text) where
  -- Whether what was exchanged is what was looked at
  unfoldable pub is_expected : Text → Node → Node → Bool
  unfolding same_identity
  is_expected expected known old =
      is_regular old.kind && same_identity old known && text_eq (sha256 old.content) expected

  -- The commit with an expected digest: `rename_exchange`, and the look at what was there
  unfoldable pub commit_guarded : Text → Node → Node → Option Node → Others → Written × Place
  unfolding is_expected roll_back
  commit_guarded expected known new none o =
      (refused disappeared, record { at_name = none; at_temporary = none })
  commit_guarded expected known new (some old) o =
      let now = o.after_commit (some new) in
      if is_expected expected known old
      then (done, record { at_name = now; at_temporary = none })
      else roll_back new old now o

  -- The look at the content of the destination
  unfoldable pub check_content : Text → Option Node → Option Refusal
  check_content expected none = some system_error
  check_content expected (some d) =
      if not (is_regular d.kind)
      then some system_error
      else if text_eq (sha256 d.content) expected
      then none
      else some other_content

  -- A write with an expected digest, behind the checks of the destination: `stores` tells whether
  -- the new file can be written beside it
  unfoldable pub write_guarded : Text → Bool → Node → Option Node → Others → Written × Place
  unfolding is_sha256 check_content commit_guarded
  write_guarded raw stores new existing o =
      let expected = lower raw in
      let seen = o.after_look existing in
      let here : Refusal → Written × Place =
        λ why. (refused why, record { at_name = seen; at_temporary = none }) in
      if not (is_sha256 expected) then here bad_digest else elim existing [
        | none ↦ here nothing_there
        | some _ ↦ elim seen [
          | none ↦ here system_error
          | some known ↦ elim (check_content expected (some known)) [
            | some why ↦ here why
            | none ↦
                if stores
                then commit_guarded expected known new (o.before_commit (some known)) o
                else here not_stored
          ]
        ]
      ]

  -- `write_text_file` for the new file `new`
  unfoldable pub write_text_file :
      Bool → Option Text → ℕ → Bool → Node → Option Node → Others → Written × Place
  unfolding check_existing write_guarded commit_plain
  write_text_file overwrite expected_sha256 mode stores new existing o =
      let here : Refusal → Written × Place =
        λ why. (refused why, record { at_name = existing; at_temporary = none }) in
      if not (leb mode 511) then here bad_mode else elim (check_existing overwrite existing) [
        | some why ↦ here why
        | none ↦ elim expected_sha256 [
          | some raw ↦ write_guarded raw stores new existing o
          | none ↦
              let seen = o.before_commit (o.after_look existing) in
              if stores
              then commit_plain overwrite new seen o
              else (refused not_stored, record { at_name = seen; at_temporary = none })
        ]
      ]
