-- ===== src/Canon/Steps.antt =====
-- What the steps of `canonicalize` (proot/src/path/canon.c) do to canonical paths.
use doki_proot.Prelude.{
  ◌≡◌, refl, ◌⊎◌, inl, inr, List, [], ◌∷◌, ◌++◌, Bytes, All, ◌==◌, arith, ok, Bool-cases,
}
use doki_proot.Path.Join.{join2}
use doki_proot.Canon.Component.{
  Finality, next_component, pop_component, skip_slashes, span_component,
}
use doki_proot.Canon.Names.{HasNoSlash, IsName, render, join2-name, join2-slashed}
use doki_proot.Canon.Pop.{pop_component-name, pop_component-slashed, pop_component-root}

-- A path that names the stack, perhaps by a trailing separator.
abbrev pub IsPathOf : List Bytes → Bytes → Type 0
IsPathOf [] p = p ≡ b'/' ∷ []
IsPathOf (c ∷ cs) p = (p ≡ render (c ∷ cs)) ⊎ (p ≡ render (c ∷ cs) ++ b'/' ∷ [])

-- An absolute path of proper names only: no ".", no "..", no empty component, nothing above "/".
pub record IsCanonical (p : Bytes) : Type 0 where
  pub names : List Bytes
  pub proper : All IsName names
  pub path_of : IsPathOf names p

pub IsCanonical-root : IsCanonical (b'/' ∷ [])
IsCanonical-root = record { names = []; proper = tt; path_of = refl }

pub pop_component-IsCanonical : (p : Bytes) → IsCanonical p → IsCanonical (pop_component p)
pop_component-IsCanonical p k = go k.names k.proper k.path_of
  where
    shorter : (cs : List Bytes) (q : Bytes) → All IsName cs → q ≡ render cs → IsCanonical q
    shorter [] q n e = record { names = []; proper = n; path_of = e }
    shorter (c ∷ cs) q n e = record { names = c ∷ cs; proper = n; path_of = inl e }

    go : (cs : List Bytes) → All IsName cs → IsPathOf cs p → IsCanonical (pop_component p)
    go [] n e = shorter [] (pop_component p) tt (rw e pop_component-root)
    go (c ∷ cs) n (inl e) = shorter cs (pop_component p) n.1 (rw e (pop_component-name cs c n.0))
    go (c ∷ cs) n (inr e) = shorter cs (pop_component p) n.1 (rw e (pop_component-slashed cs c n.0))

-- A component as the loop enters it: a proper name, or empty.
abbrev pub IsEntry : Bytes → Type 0
IsEntry c = (c ≡ []) ⊎ IsName c

pub join2-IsCanonical :
    (p c r : Bytes) → IsCanonical p → IsEntry c → join2 p c ≡ ok r → IsCanonical r
join2-IsCanonical p c r k (inl e) h = go k.names k.proper k.path_of
  where
    go : (cs : List Bytes) → All IsName cs → IsPathOf cs p → IsCanonical r
    go [] n q = record { names = []; proper = tt; path_of = join2-name [] [] r tt tt (cc) }
    go (d ∷ cs) n (inl q) = record {
      names = d ∷ cs;
      proper = n;
      path_of = inr (join2-name (d ∷ cs) [] r n tt (cc));
    }
    go (d ∷ cs) n (inr q) = record {
      names = d ∷ cs;
      proper = n;
      path_of = inr (join2-slashed (render (d ∷ cs)) [] r tt (cc));
    }
join2-IsCanonical p c r k (inr m) h = go k.names k.proper k.path_of
  where
    go : (cs : List Bytes) → All IsName cs → IsPathOf cs p → IsCanonical r
    go [] n q = record {
      names = c ∷ [];
      proper = (m, tt);
      path_of = inl (join2-name [] c r tt m.no_slash (cc));
    }
    go (d ∷ cs) n (inl q) = record {
      names = c ∷ d ∷ cs;
      proper = (m, n);
      path_of = inl (join2-name (d ∷ cs) c r n m.no_slash (cc));
    }
    go (d ∷ cs) n (inr q) = record {
      names = c ∷ d ∷ cs;
      proper = (m, n);
      path_of = inl (join2-slashed (render (d ∷ cs)) c r m.no_slash (cc));
    }

-- What `next_component` reads holds no separator.
span_component-no_slash : (s : Bytes) → HasNoSlash (span_component s).0
unfolding span_component
span_component-no_slash [] = tt
span_component-no_slash (c ∷ s) = elim (Bool-cases (c == b'/')) [
  | inl e ↦ rw e tt
  | inr e ↦ rw e (ground arith, span_component-no_slash s)
]

pub next_component-no_slash :
    (cursor component rest : Bytes) (f : Finality)
    → next_component cursor ≡ ok (component, f, rest)
    → HasNoSlash component
next_component-no_slash cursor component rest f h =
    let e : component ≡ (span_component (skip_slashes cursor)).0 =
      unfold next_component in ground arith in
    rw e (span_component-no_slash (skip_slashes cursor))
