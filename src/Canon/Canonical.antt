-- ===== src/Canon/Canonical.antt =====
-- Whatever the host and the extensions answer, `canonicalize` (proot/src/path/canon.c) leaves a
-- canonical guest path.
use doki_proot.Prelude.{◌≡◌, ◌⊎◌, List, ◌∷◌, Bytes, All, codes}
use doki_proot.Canon.Names.{IsName, render}
use doki_proot.Canon.Steps.{IsCanonical}

-- A canonical path, or one with a final "/." .
abbrev pub IsResult : Bytes → Type 0
IsResult r =
    IsCanonical r ⊎ ((names : List Bytes) × All IsName names × (r ≡ render (codes "." ∷ names)))
