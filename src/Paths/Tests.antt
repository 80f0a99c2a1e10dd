-- ===== src/Paths/Tests.antt =====
-- A system without links, and a file beneath an allowed root.
use remote_host_mcp.Prelude.{◌≡◌, refl, ap, sym, ◌∙◌, Bool, true, false, some, List, [], ◌∷◌, ◌++◌}
use remote_host_mcp.Prelude.Text.{codes, text_eq_refl}
use remote_host_mcp.Paths.{
  PathOf, relative_to, is_there, Opened, descriptor, System, opened, open_beneath,
}
use remote_host_mcp.Paths.Beneath.{StaysUnder, open_beneath-StaysUnder}

abbrev plain : System
plain = record {
  openat2 = λ root relative no_symlinks. descriptor (root ++ relative);
  open_path = λ path no_follow. descriptor path;
  descriptor_path = λ path. some path;
  resolve = λ path. path;
  opens_root = λ root. true;
}

relative_to-append : (root rest : PathOf) → relative_to root (root ++ rest) ≡ some rest
unfolding relative_to
relative_to-append [] rest = refl
relative_to-append (c ∷ root) rest = rw (text_eq_refl c) (relative_to-append root rest)

abbrev of_descriptor : Opened → PathOf
of_descriptor (descriptor p) = p
of_descriptor (Opened.fails e) = []

plain-beneath :
    (root relative p : PathOf) (no_symlinks : Bool)
    → plain.openat2 root relative no_symlinks ≡ descriptor p
    → is_there (relative_to root p) ≡ true
plain-beneath root relative p no_symlinks h =
    ap (λ q. is_there (relative_to root q)) (sym (ap of_descriptor h))
    ∙ ap is_there (relative_to-append root relative)

abbrev work : List PathOf
work = (codes "work" ∷ []) ∷ []

open_beneath-StaysUnder_example :
    StaysUnder work (open_beneath plain work (codes "/tmp/../work/./a.txt") false)
open_beneath-StaysUnder_example =
    open_beneath-StaysUnder plain work plain-beneath (λ p. refl) (codes "/tmp/../work/./a.txt")
      false

-- The path of the example is opened.
is_opened :
    open_beneath plain work (codes "/tmp/../work/./a.txt") false
    ≡ opened (codes "work" ∷ codes "a.txt" ∷ [])
unfolding open_beneath
is_opened = refl
