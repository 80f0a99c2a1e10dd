-- ===== src/Audit/Rotation.antt =====
-- What a rotation of the audit log does to the generations.
use mathlib.Core.Path.{fun_ext}
use remote_host_mcp.Prelude.{
  ℕ, zero, suc, ◌-◌, ◌≡◌, refl, true, false, Option, none, some, arith, ltb, ◌==◌, if◌then◌else◌,
  [],
}
use remote_host_mcp.Disk.{Disk, update, unlink, replace}
use remote_host_mcp.Audit.{Faults, Writer, shift_up, rotate_files, rotate_locked, get_handle}

-- No call on the directory fails.
pub record NoFaults (f : Faults) : Type 0 where
  pub opens : f.open_fails ≡ false
  pub unlinks : f.unlink_fails ≡ false
  pub renames : (i : ℕ) → f.rename_fails i ≡ false

-- Where generation i of the result comes from, when 1, …, n moved up by one.
abbrev pub shifted : ℕ → (ℕ → Option ℕ) → ℕ → Option ℕ
shifted n names i =
    if i == 0
    then names 0
    else if ltb (suc n) i
    then names i
    else if i == 1
    then (if n == 0 then names 1 else none)
    else names (i - 1)

module _ (f : Faults) (ok : NoFaults f) where
  shift_up-true : (n : ℕ) (d : Disk) → (shift_up f n d).1 ≡ true
  unfolding shift_up
  shift_up-true zero d = refl
  shift_up-true (suc n) d = ground (
    arith,
    ok.renames (suc n),
    shift_up-true n d,
    shift_up-true n (replace (suc n) (suc (suc n)) d),
  )

  shift_up-contents : (n : ℕ) (d : Disk) → (shift_up f n d).0.contents ≡ d.contents
  unfolding shift_up
  shift_up-contents zero d = refl
  shift_up-contents (suc n) d = ground (
    arith,
    ok.renames (suc n),
    shift_up-contents n d,
    shift_up-contents n (replace (suc n) (suc (suc n)) d),
  )

  shift_up-names :
      (n : ℕ) (d : Disk) (i : ℕ)
      → d.names (suc n) ≡ none
      → (shift_up f n d).0.names i ≡ shifted n d.names i
  unfolding shift_up
  shift_up-names zero d i h = ground arith
  shift_up-names (suc n) d i h = ground (
    arith,
    ok.renames (suc n),
    shift_up-names n d i,
    shift_up-names n (replace (suc n) (suc (suc n)) d) i,
  )

  shift_up-fresh : (n : ℕ) (d : Disk) → (shift_up f n d).0.fresh ≡ d.fresh
  unfolding shift_up
  shift_up-fresh zero d = refl
  shift_up-fresh (suc n) d = ground (
    arith,
    ok.renames (suc n),
    shift_up-fresh n d,
    shift_up-fresh n (replace (suc n) (suc (suc n)) d),
  )

-- After a rotation there is no main file, generations up to `keep` hold what stood one below, and
-- those beyond are as they were.
abbrev pub rotated : ℕ → (ℕ → Option ℕ) → ℕ → Option ℕ
rotated keep names i = if i == 0 then none else if ltb keep i then names i else names (i - 1)

abbrev pub rotated_disk : ℕ → Disk → Disk
rotated_disk keep d = record d { names = rotated keep d.names }

Disk-eq : (d e : Disk) → d.names ≡ e.names → d.contents ≡ e.contents → d.fresh ≡ e.fresh → d ≡ e
Disk-eq d e p q r = λ i. record { names = p i; contents = q i; fresh = r i }

module _ (f : Faults) (ok : NoFaults f) where
  -- With no failing call the rotation moves every generation up by one, drops the oldest, and
  -- changes no byte of what is kept.
  pub rotate_files-names :
      (keep : ℕ) (d : Disk) (i : ℕ) → (rotate_files f keep d).0.names i ≡ rotated keep d.names i
  unfolding rotate_files
  rotate_files-names zero d i = ground (arith, ok.unlinks)
  rotate_files-names (suc n) d i = ground (
    arith,
    ok.unlinks,
    ok.renames 0,
    shift_up-true f ok n (unlink (suc n) d),
    shift_up-names f ok n (unlink (suc n) d) i,
    shift_up-names f ok n (unlink (suc n) d) 0,
  )

  pub rotate_files-contents :
      (keep : ℕ) (d : Disk)
      → ((rotate_files f keep d).0.contents ≡ d.contents)
        × ((rotate_files f keep d).0.fresh ≡ d.fresh)
  unfolding rotate_files
  rotate_files-contents zero d = ground (arith, ok.unlinks)
  rotate_files-contents (suc n) d = ground (
    arith,
    ok.unlinks,
    ok.renames 0,
    shift_up-true f ok n (unlink (suc n) d),
    shift_up-contents f ok n (unlink (suc n) d),
    shift_up-fresh f ok n (unlink (suc n) d),
  )

  pub rotate_files-eq : (keep : ℕ) (d : Disk) → (rotate_files f keep d).0 ≡ rotated_disk keep d
  rotate_files-eq keep d =
      let (same, next) = rotate_files-contents keep d in
      Disk-eq _ _ (fun_ext (rotate_files-names keep d)) same next

  -- The log goes on in a new, empty main file.
  pub rotate_locked-eq :
      (w : Writer) (d : Disk)
      → rotate_locked f w d
        ≡ some (
          d.fresh,
          record w { handle = some d.fresh },
          record {
            names = update (rotated w.keep_files d.names) 0 (some d.fresh);
            contents = update d.contents d.fresh [];
            fresh = suc d.fresh;
          },
        )
  unfolding rotate_locked
  rotate_locked-eq w d = rw (rotate_files-eq w.keep_files d, ok.opens, get_handle) refl
