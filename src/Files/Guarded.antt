-- ===== src/Files/Guarded.antt =====
-- A write of src/remote_host_mcp/filesystem.py with an expected digest replaces what it expects, or
-- nothing.
use remote_host_mcp.Prelude.{
  ℕ, Bool, true, false, ◌≡◌, refl, ap, sym, ◌∙◌, Option, none, some, leb, ◌⊎◌, inl, inr, Bool-cases,
  Option-cases, arith,
}
use remote_host_mcp.Prelude.Text.{Text, text_eq, lower}
use mathlib.Core.Path.{subst}
use remote_host_mcp.Disk.{Bytes}
use remote_host_mcp.Files.Writing.{
  Node, Place, Others, Refusal, changed, bad_mode, bad_digest, nothing_there, system_error,
  not_stored, disappeared, Written, done, refused, is_ours, roll_back, is_expected, commit_guarded,
  check_content, write_guarded, write_text_file, check_existing, is_sha256,
}

-- How a guarded write may end: what stood at the destination when the new file was put there, which
-- had the expected digest, has been replaced; or the new file was never there; or what was there is
-- back; or it is kept under the temporary name, since somebody else has taken the destination.
pub data Fate (sha256 : Bytes → Text) (expected : Text) (new : Node) (existing : Option Node)
    (o : Others) : Written × Place → Type 0 where
  replaces :
      (old : Node) (p : Place)
      → o.before_commit (o.after_look existing) ≡ some old
      → text_eq (sha256 old.content) expected ≡ true
      → p.at_name ≡ o.after_commit (some new)
      → p.at_temporary ≡ none
      → Fate sha256 expected new existing o (done, p)
  never_there :
      (why : Refusal) (p : Place)
      → (p.at_name ≡ existing)
        ⊎ ((p.at_name ≡ o.after_look existing)
            ⊎ (p.at_name ≡ o.before_commit (o.after_look existing)))
      → p.at_temporary ≡ none
      → Fate sha256 expected new existing o (refused why, p)
  kept :
      (why : Refusal) (p : Place)
      → p.at_name ≡ o.after_commit (some new)
      → is_ours new p.at_name ≡ false
      → p.at_temporary ≡ o.before_commit (o.after_look existing)
      → Fate sha256 expected new existing o (refused why, p)

module _ (sha256 : Bytes → Text) where
  roll_back-Fate :
      (expected : Text) (new old : Node) (existing : Option Node) (o : Others)
      → ((d : Option Node) → o.before_rollback d ≡ d)
      → o.before_commit (o.after_look existing) ≡ some old
      → Fate sha256 expected new existing o (roll_back new old (o.after_commit (some new)) o)
  unfolding roll_back
  roll_back-Fate expected new old existing o quiet was =
      let now = o.after_commit (some new) in
      elim (Bool-cases (is_ours new now)) [
        | inr e ↦ rw e (kept changed _ refl e (sym was))
        | inl e ↦ elim (Option-cases now) [
          | inl gone ↦ absurd (ground (arith, sym (ap (is_ours new) gone) ∙ e))
          | inr (d, there) ↦
              rw (e, quiet now, there) (never_there changed _ (inr (inr (sym was))) refl)
        ]
      ]

  commit_guarded-Fate :
      (expected : Text) (known new : Node) (existing : Option Node) (o : Others)
      → ((d : Option Node) → o.before_rollback d ≡ d)
      → Fate sha256 expected new existing o
          (commit_guarded sha256 expected known new (o.before_commit (o.after_look existing)) o)
  unfolding commit_guarded is_expected
  commit_guarded-Fate expected known new existing o quiet =
      elim (Option-cases (o.before_commit (o.after_look existing))) [
        | inl gone ↦ rw gone (never_there disappeared _ (inr (inr (sym gone))) refl)
        | inr (old, was) ↦ elim (Bool-cases (is_expected sha256 expected known old)) [
          | inl e ↦ rw (was, e) (replaces old _ was (ground (arith, e)) refl refl)
          | inr e ↦ rw (was, e) (roll_back-Fate expected new old existing o quiet was)
        ]
      ]

  write_guarded-Fate :
      (raw : Text) (stores : Bool) (new : Node) (existing : Option Node) (o : Others)
      → ((d : Option Node) → o.before_rollback d ≡ d)
      → Fate sha256 (lower raw) new existing o (write_guarded sha256 raw stores new existing o)
  unfolding write_guarded
  write_guarded-Fate raw stores new none o quiet = elim (Bool-cases (is_sha256 (lower raw))) [
    | inr bad ↦ rw bad (never_there bad_digest _ (inr (inl refl)) refl)
    | inl good ↦ rw good (never_there nothing_there _ (inr (inl refl)) refl)
  ]
  write_guarded-Fate raw stores new (some d) o quiet = elim (Bool-cases (is_sha256 (lower raw))) [
    | inr bad ↦ rw bad (never_there bad_digest _ (inr (inl refl)) refl)
    | inl good ↦ elim (Option-cases (o.after_look (some d))) [
      | inl gone ↦ rw (good, gone) (never_there system_error _ (inr (inl refl)) refl)
      | inr (known, seen) ↦ elim (Option-cases (check_content sha256 (lower raw) (some known))) [
        | inr (why, e) ↦ rw (good, seen, e) (never_there why _ (inr (inl refl)) refl)
        | inl e ↦ elim (Bool-cases stores) [
          | inr full ↦ rw (good, seen, e, full) (never_there not_stored _ (inr (inl refl)) refl)
          | inl fine ↦
              let fate = commit_guarded-Fate (lower raw) known new (some d) o quiet in
              rw (good, seen, e, fine)
                (subst
                  (λ n.
                    Fate sha256 (lower raw) new (some d) o
                      (commit_guarded sha256 (lower raw) known new (o.before_commit n) o))
                  seen fate)
        ]
      ]
    ]
  ]

  -- A write with an expected digest replaces only a destination with that digest, whatever other
  -- processes do to the destination in the meantime, as long as none of them acts in the middle of
  -- the way back: it is done only if what stood there when the new file was put in its place had
  -- the digest; otherwise the destination is as the others left it, or what stood there is kept
  -- under the temporary name, since another process has taken the place of the new file.
  pub write_text_file-Fate :
      (overwrite : Bool) (raw : Text) (mode : ℕ) (stores : Bool) (new : Node)
      (existing : Option Node) (o : Others)
      → ((d : Option Node) → o.before_rollback d ≡ d)
      → Fate sha256
          (lower raw)
          new
          existing
          o
          (write_text_file sha256 overwrite (some raw) mode stores new existing o)
  unfolding write_text_file
  write_text_file-Fate overwrite raw mode stores new existing o quiet =
      elim (Bool-cases (leb mode 511)) [
        | inr bad ↦ rw bad (never_there bad_mode _ (inl refl) refl)
        | inl good ↦ elim (Option-cases (check_existing overwrite existing)) [
          | inr (why, e) ↦ rw (good, e) (never_there why _ (inl refl) refl)
          | inl e ↦ rw (good, e) (write_guarded-Fate raw stores new existing o quiet)
        ]
      ]
