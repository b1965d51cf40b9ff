-- ===== src/Canon/Rounds.antt =====
-- A round of `canonicalize` (proot/src/path/canon.c), and its loop, keep the guest path canonical.
use doki_proot.Prelude.{
  ℕ, zero, suc, ◌≡◌, ◌≢◌, refl, sym, ◌∙◌, inl, inr, Bool, not, ◌&&◌, Option, none, some, [], ◌∷◌,
  Bytes, codes, length, str_eq, str_eq_iff, arith, Result, ok, fail, Ensures, Ensures-bind,
  Ensures-if, Ensures-ok, e_perm, e_nametoolong, ◌||◌, ◌>>=◌, if◌then◌else◌, leb,
}
use mathlib.Core.Bool.{false≢true}
use doki_proot.Path.Compare.{Comparison, compare_paths}
use doki_proot.Path.Join.{join2, path_max}
use doki_proot.Binding.{Bindings, is_inside}
use doki_proot.Detranslate.{
  Action, default, canonicalize, dont_canonicalize, error, detranslate_path,
}
use doki_proot.Canon.Component.{Finality, next_component, is_final}
use doki_proot.Canon.Names.{HasNoSlash}
use doki_proot.Canon.Steps.{
  IsEntry, IsCanonical, pop_component-IsCanonical, join2-IsCanonical, next_component-no_slash,
}
use doki_proot.Canon.{
  next_round, Host, Deeper, Round, continue, new_component, return, canon, read_link, follow_link,
  enter_component, round, loop, substitute_binding_stat, raced, is_normal,
}

-- What is asked of the emulation of links in /proc: a path that it does not want canonicalized is
-- canonical already, if the directory of the link is and the link has a proper name.
abbrev pub KeepsCanonical : Host → Type 0
KeepsCanonical h =
    (base component path : Bytes) (c : Comparison)
    → IsCanonical base
    → IsEntry component
    → h.readlink_proc base component c ≡ dont_canonicalize path
    → IsCanonical path

abbrev RoundOk : Round → Type 0
RoundOk (continue p f) = IsCanonical p
RoundOk (return p) = IsCanonical p
RoundOk new_component = Unit

next_round-IsCanonical :
    (again : Bytes → Result (Bytes × Option Finality)) (guest : Bytes) (ended : Round)
    → IsCanonical guest
    → ((p : Bytes)
        → IsCanonical p
        → Ensures (λ (r : Bytes × Option Finality). IsCanonical r.0) (again p))
    → RoundOk ended
    → Ensures (λ (r : Bytes × Option Finality). IsCanonical r.0) (next_round again guest ended)
unfolding next_round
next_round-IsCanonical again guest (continue p f) k step r =
    Ensures-if (λ (r : Bytes × Option Finality). IsCanonical r.0) (is_final f) (ok (p, some f))
      (again p) (λ _. r) (λ _. step p r)
next_round-IsCanonical again guest new_component k step r = step guest k
next_round-IsCanonical again guest (return p) k step r = r

module _ (h : Host) (fs : Bindings) (law : KeepsCanonical h) (level : ℕ) (deref : Bool)
    (deeper : Deeper)
    (deep : (user guest r : Bytes)
      → IsCanonical guest
      → deeper user guest ≡ ok r
      → IsCanonical r) where
  canon-RoundOk :
      (f : Finality) (scratch guest : Bytes)
      → IsCanonical guest
      → Ensures RoundOk (canon h fs level deref deeper f scratch guest)
  unfolding canon
  canon-RoundOk f scratch guest k = Ensures-bind RoundOk (deeper scratch guest) _ λ r d.
      Ensures-bind RoundOk (substitute_binding_stat h fs f level r) _
        λ s _. deep scratch guest r k d

  read_link-RoundOk :
      (f : Finality) (host_path guest : Bytes)
      → IsCanonical guest
      → Ensures RoundOk (read_link h fs level deref deeper f host_path guest)
  unfolding read_link
  read_link-RoundOk f host_path guest k = go (h.readlink host_path)
    where
      go :
          (o : Option Bytes)
          → Ensures RoundOk (elim o [
            | none ↦ fail e_perm
            | some target ↦
                if leb path_max (length target)
                then fail e_nametoolong
                else if raced (h.lstat_again host_path)
                then ok new_component
                else (detranslate_path h.readlink_proc fs target (some host_path) >>= λ referee.
                    canon h fs level deref deeper f referee.1 guest)
          ])
      go none = tt
      go (some target) =
          Ensures-if RoundOk (leb path_max (length target)) _ _ (λ _. tt)
            λ _.
              Ensures-if RoundOk (raced (h.lstat_again host_path)) _ _ (λ _. tt)
                λ _.
                  Ensures-bind RoundOk (detranslate_path h.readlink_proc fs target (some host_path))
                    _ λ referee _. canon-RoundOk f referee.1 guest k

  follow_link-RoundOk :
      (f : Finality) (component host_path guest : Bytes)
      → IsCanonical guest
      → IsEntry component
      → Ensures RoundOk (follow_link h fs level deref deeper f component host_path guest)
  unfolding follow_link
  follow_link-RoundOk f component host_path guest k entry =
      Ensures-if RoundOk (not (is_inside (compare_paths (codes "/proc") guest))) _ _
        (λ _. read_link-RoundOk f host_path guest k)
        (λ _. go (h.readlink_proc guest component (compare_paths (codes "/proc") guest)) refl)
    where
      go :
          (a : Action)
          → h.readlink_proc guest component (compare_paths (codes "/proc") guest) ≡ a
          → Ensures RoundOk (elim a [
            | default ↦ read_link h fs level deref deeper f host_path guest
            | canonicalize referee ↦ canon h fs level deref deeper f referee guest
            | dont_canonicalize path ↦
                if is_normal f
                then ok (return path)
                else read_link h fs level deref deeper f host_path guest
            | error code ↦ fail code
          ])
      go default e = read_link-RoundOk f host_path guest k
      go (canonicalize referee) e = canon-RoundOk f referee guest k
      go (dont_canonicalize path) e =
          Ensures-if RoundOk (is_normal f) _ _
            (λ _. law guest component path (compare_paths (codes "/proc") guest) k entry e)
            (λ _. read_link-RoundOk f host_path guest k)
      go (error code) e = tt

  enter_component-RoundOk :
      (f : Finality) (component guest : Bytes)
      → IsCanonical guest
      → IsEntry component
      → Ensures RoundOk (enter_component h fs level deref deeper f component guest)
  unfolding enter_component
  enter_component-RoundOk f component guest k entry =
      Ensures-bind RoundOk (join2 guest component) _ λ scratch _.
        Ensures-bind RoundOk (substitute_binding_stat h fs f level scratch) _ λ checked _.
          Ensures-if RoundOk (not checked.0 || (is_normal f && not deref)) _ _
            (λ _.
              Ensures-bind RoundOk (join2 guest component) _
                λ joined e. join2-IsCanonical guest component joined k entry e)
            (λ _. follow_link-RoundOk f component checked.1 guest k entry)

  entry : (c : Bytes) → HasNoSlash c → c ≢ codes "." → c ≢ codes ".." → IsEntry c
  entry [] s d dd = inl refl
  entry (x ∷ c) s d dd =
      inr (record { named = omega arith; no_slash = s; not_dot = d; not_dot_dot = dd })

  round-RoundOk :
      (f : Finality) (component guest : Bytes)
      → IsCanonical guest
      → HasNoSlash component
      → Ensures RoundOk (round h fs level deref deeper f component guest)
  unfolding round
  round-RoundOk f component guest k s =
      Ensures-if RoundOk (str_eq component (codes ".")) _ _ (λ _. k)
        λ d.
          Ensures-if RoundOk (str_eq component (codes "..")) _ _
            (λ _. pop_component-IsCanonical guest k)
            λ dd. enter_component-RoundOk f component guest k (
              entry component s (λ e. false≢true (sym d ∙ (str_eq_iff component (codes ".")).1 e))
                (λ e. false≢true (sym dd ∙ (str_eq_iff component (codes "..")).1 e)))

  pub loop-IsCanonical :
      (fuel : ℕ) (cursor guest : Bytes)
      → IsCanonical guest
      → Ensures (λ r. IsCanonical r.0) (loop h fs level deref deeper fuel cursor guest)
  unfolding loop
  loop-IsCanonical zero cursor guest k = tt
  loop-IsCanonical (suc fuel) cursor guest k = Ensures-bind _ (next_component cursor) _ λ next e.
      Ensures-bind _ (round h fs level deref deeper next.1 next.0 guest) _ λ ended e'.
        next_round-IsCanonical (loop h fs level deref deeper fuel next.2) guest ended k
          (λ guest' k'. loop-IsCanonical fuel next.2 guest' k')
          (Ensures-ok RoundOk (round h fs level deref deeper next.1 next.0 guest)
            (round-RoundOk next.1 next.0 guest k
              (next_component-no_slash cursor next.0 next.2 next.1 e))
            e')
