-- ===== src/Paths/Beneath.antt =====
-- What `open_beneath` of src/remote_host_mcp/secure_paths.py opens.
use remote_host_mcp.Prelude.{
  ◌≡◌, refl, sym, ap, ◌∙◌, Bool, true, false, not, some, List, [], ◌∷◌, arith, inl, inr, ◌⊎◌,
  Option-cases, if◌then◌else◌,
}
use remote_host_mcp.Prelude.Text.{Text}
use remote_host_mcp.Paths.{
  PathOf, relative_to, is_there, is_under, lexical_path, root_of, is_escape, is_unsupported, Opened,
  descriptor, fails, System, OpenAnswer, opened, value_error, os_error, resolve_allowed_path,
  resolve_allowed_entry, open_fallback, open_canonical, open_escaped, open_compatible, open_lexical,
  open_beneath,
}

-- An answer that opens nothing but paths beneath an allowed root.
abbrev pub StaysUnder : List PathOf → OpenAnswer → Type 0
StaysUnder roots (opened p) = is_under roots p ≡ true
StaysUnder roots value_error = Unit
StaysUnder roots (os_error e) = Unit

Opened-cases : (o : Opened) → ((p : PathOf) × (o ≡ descriptor p)) ⊎ ((e : _) × (o ≡ fails e))
Opened-cases (descriptor p) = inl (p, refl)
Opened-cases (fails e) = inr (e, refl)

root_of-under :
    (roots : List PathOf) (path root relative p : PathOf)
    → root_of roots path ≡ some (root, relative)
    → is_there (relative_to root p) ≡ true
    → is_under roots p ≡ true
unfolding root_of is_under
root_of-under [] path root relative p h below = absurd (ground arith)
root_of-under (r ∷ roots) path root relative p h below = elim (Option-cases (relative_to r path)) [
  | inl e ↦ ground (arith, root_of-under roots path root relative p (ground (arith, e, h)) below)
  | inr (q, e) ↦
      let same : r ≡ root = ground (arith, e, h) in
      let here : is_there (relative_to r p) ≡ true =
        ap (λ k. is_there (relative_to k p)) same ∙ below in
      ground (arith, here)
]

if-StaysUnder :
    (roots : List PathOf) (b : Bool) (p q : OpenAnswer)
    → (b ≡ true → StaysUnder roots p)
    → (b ≡ false → StaysUnder roots q)
    → StaysUnder roots (if b then p else q)
if-StaysUnder roots true p q h k = h refl
if-StaysUnder roots false p q h k = k refl

-- What the documentation of Linux says: `openat2` with RESOLVE_BENEATH opens only what is beneath
-- the directory, and /proc names what a descriptor stands for.
module _ (s : System) (roots : List PathOf)
    (beneath : (root relative p : PathOf) (no_symlinks : Bool)
      → s.openat2 root relative no_symlinks ≡ descriptor p
      → is_there (relative_to root p) ≡ true)
    (named : (p : PathOf) → s.descriptor_path p ≡ some p) where
  open_fallback-StaysUnder :
      (safe : PathOf) (no_follow : Bool) → StaysUnder roots (open_fallback s roots safe no_follow)
  unfolding open_fallback
  open_fallback-StaysUnder safe no_follow = elim (Opened-cases (s.open_path safe no_follow)) [
    | inr (e, h) ↦ rw (h, open_fallback) tt
    | inl (p, h) ↦
        rw (h, open_fallback)
          (rw (named p)
            (if-StaysUnder roots (is_under roots p) (opened p) value_error (λ e. e) (λ _. tt)))
  ]

  openat2-under :
      (path root relative p : PathOf) (no_symlinks : Bool)
      → root_of roots path ≡ some (root, relative)
      → s.openat2 root relative no_symlinks ≡ descriptor p
      → is_under roots p ≡ true
  openat2-under path root relative p no_symlinks h o =
      root_of-under roots path root relative p h (beneath root relative p no_symlinks o)

  open_canonical-StaysUnder :
      (safe : PathOf) (a : OpenAnswer) → open_canonical s roots safe ≡ some a → StaysUnder roots a
  unfolding open_canonical
  open_canonical-StaysUnder safe value_error h = tt
  open_canonical-StaysUnder safe (os_error e) h = tt
  open_canonical-StaysUnder safe (opened p) h = elim (Option-cases (root_of roots safe)) [
    | inl e ↦ absurd (ground (arith, e, h))
    | inr ((root, relative), e) ↦ elim (Opened-cases (s.openat2 root relative true)) [
      | inl (q, o) ↦
          let same : q ≡ p = ground (arith, e, o, h) in
          ap (is_under roots) (sym same) ∙ openat2-under safe root relative q true e o
      | inr (errno, o) ↦ absurd (ground (arith, e, o, h))
    ]
  ]

  open_escaped-StaysUnder :
      (lexical : PathOf) (no_symlinks : Bool)
      → StaysUnder roots (open_escaped s roots lexical no_symlinks)
  unfolding open_escaped
  open_escaped-StaysUnder lexical true = tt
  open_escaped-StaysUnder lexical false =
      elim (Option-cases (resolve_allowed_path s roots lexical)) [
        | inl e ↦ rw (e, open_escaped) tt
        | inr (safe, e) ↦ elim (Option-cases (open_canonical s roots safe)) [
          | inl f ↦ rw (e, open_escaped) (rw f (open_fallback-StaysUnder safe false))
          | inr (a, f) ↦ rw (e, open_escaped) (rw f (open_canonical-StaysUnder safe a f))
        ]
      ]

  open_compatible-StaysUnder :
      (lexical : PathOf) (no_symlinks : Bool)
      → StaysUnder roots (open_compatible s roots lexical no_symlinks)
  unfolding open_compatible
  open_compatible-StaysUnder lexical true =
      elim (Option-cases (resolve_allowed_entry s roots lexical)) [
        | inl e ↦ rw (e, open_compatible) tt
        | inr (safe, e) ↦ rw (e, open_compatible) (open_fallback-StaysUnder safe true)
      ]
  open_compatible-StaysUnder lexical false =
      elim (Option-cases (resolve_allowed_path s roots lexical)) [
        | inl e ↦ rw (e, open_compatible) tt
        | inr (safe, e) ↦ rw (e, open_compatible) (open_fallback-StaysUnder safe false)
      ]

  open_lexical-StaysUnder :
      (lexical : PathOf) (no_symlinks : Bool)
      → StaysUnder roots (open_lexical s roots lexical no_symlinks)
  unfolding open_lexical
  open_lexical-StaysUnder lexical no_symlinks = elim (Option-cases (root_of roots lexical)) [
    | inl e ↦ rw (e, open_lexical) tt
    | inr ((root, relative), e) ↦
        rw (e, open_lexical)
          (if-StaysUnder roots (not (s.opens_root root)) _ _ (λ _. tt)
            λ _. elim (Opened-cases (s.openat2 root relative no_symlinks)) [
              | inl (p, o) ↦ rw o (openat2-under lexical root relative p no_symlinks e o)
              | inr (errno, o) ↦ rw o (
                  if-StaysUnder roots (is_escape errno) _ _
                    (λ _. open_escaped-StaysUnder lexical no_symlinks)
                    λ _.
                      if-StaysUnder roots (is_unsupported errno) _ _
                        (λ _. open_compatible-StaysUnder lexical no_symlinks) (λ _. tt))
            ])
  ]

  -- Whatever path is asked for, and whichever of its ways it takes, `open_beneath` opens nothing but
  -- what is beneath an allowed root, on a system whose `openat2` with RESOLVE_BENEATH opens only
  -- what is beneath the directory and whose /proc names what a descriptor stands for.
  pub open_beneath-StaysUnder :
      (raw : Text) (no_symlinks : Bool) → StaysUnder roots (open_beneath s roots raw no_symlinks)
  unfolding open_beneath
  open_beneath-StaysUnder raw no_symlinks = elim (Option-cases (lexical_path raw)) [
    | inl e ↦ rw (e, open_beneath) tt
    | inr (lexical, e) ↦ rw (e, open_beneath) (open_lexical-StaysUnder lexical no_symlinks)
  ]
