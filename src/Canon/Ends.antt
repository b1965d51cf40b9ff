-- ===== src/Canon/Ends.antt =====
-- The fuel of the modelled `canonicalize` (proot/src/path/canon.c) is enough.
use doki_proot.Prelude.{
  ℕ, zero, suc, ◌+◌, ◌≡◌, ◌≢◌, ◌≤◌, ◌<◌, refl, sym, ◌∙◌, ap, Bool, true, false, not, ◌&&◌, ◌||◌,
  Option, none, some, [], ◌∷◌, Bytes, codes, char_at, length, str_eq, arith, Result, ok, fail,
  out_of_fuel, Ends, Ends-bind, Ends-if, Returns, Returns-bind, Returns-if, Returns-Ends,
  Returns-ok, ◌>>=◌, if◌then◌else◌, ◌==◌, ltb, leb, e_perm, e_nametoolong,
}
use mathlib.Core.Bool.{false≢true}
use doki_proot.Path.Compare.{Comparison, compare_paths}
use doki_proot.Path.Join.{join2, path_max}
use doki_proot.Binding.{Side, Bindings, is_inside, substitute_binding}
use doki_proot.Detranslate.{
  Action, default, canonicalize, dont_canonicalize, error, detranslate_path,
}
use doki_proot.Canon.Component.{Finality, next_component, is_final}
use doki_proot.Canon.Fuel.{
  join2-Ends, substitute_binding-Ends, detranslate_path-Ends, next_component-Ends,
  next_component-shorter,
}
use doki_proot.Canon.{
  max_symlinks, next_round, Host, Deeper, Round, continue, new_component, return, canon, read_link,
  follow_link, enter_component, round, loop, keep_finality, canonicalize_level, canonicalize_path,
  substitute_binding_stat, raced, is_normal, check_type, stat_type, FileType,
}

-- A host whose files do not change their type behind the examination, and whose answers are none
-- of the model's own.
pub record Settles (h : Host) : Type 0 where
  pub settled : (p : Bytes) → raced (h.lstat_again p) ≡ false
  pub notify : (p : Bytes) (b : Bool) → Ends (h.notify_host_path p b)
  pub emulation :
      (base component : Bytes) (c : Comparison)
      → h.readlink_proc base component c ≢ error out_of_fuel

check_type-Ends : (f : Finality) (t : Option FileType) (p : Bytes) → Ends (check_type f t p)
unfolding check_type
check_type-Ends f t p = λ e. ground arith

-- A round ends, and goes on with a final component only if it was given one.
KeepsFinality : Finality → Round → Type 0
KeepsFinality f (continue p f') = is_final f' ≡ is_final f
KeepsFinality f new_component = ⊥
KeepsFinality f (return p) = Unit

module _ (h : Host) (fs : Bindings) (calm : Settles h) (level : ℕ) where
  substitute_binding_stat-Ends :
      (f : Finality) (p : Bytes) → Ends (substitute_binding_stat h fs f level p)
  unfolding substitute_binding_stat
  substitute_binding_stat-Ends f p =
      Ends-bind (substitute_binding fs Side.guest p) _ (substitute_binding-Ends fs Side.guest p)
        λ moved _.
          Ends-bind (h.notify_host_path moved.1 (is_final f && level == 0)) _ (calm.notify _ _)
            λ host_path _. check_type-Ends f (stat_type h host_path) host_path

  module _ (deref : Bool) (deeper : Deeper)
      (deep : (user guest : Bytes) → Ends (deeper user guest)) where
    canon-Returns :
        (f : Finality) (scratch guest : Bytes)
        → Returns (KeepsFinality f) (canon h fs level deref deeper f scratch guest)
    unfolding canon KeepsFinality
    canon-Returns f scratch guest =
        Returns-bind (KeepsFinality f) (deeper scratch guest) _ (deep scratch guest) λ r.
          Returns-bind (KeepsFinality f) (substitute_binding_stat h fs f level r) _
            (substitute_binding_stat-Ends f r) λ s. refl

    read_link-Returns :
        (f : Finality) (host_path guest : Bytes)
        → Returns (KeepsFinality f) (read_link h fs level deref deeper f host_path guest)
    unfolding read_link
    read_link-Returns f host_path guest = go (h.readlink host_path)
      where
        go :
            (o : Option Bytes)
            → Returns (KeepsFinality f) (elim o [
              | none ↦ fail e_perm
              | some target ↦
                  if leb path_max (length target)
                  then fail e_nametoolong
                  else if raced (h.lstat_again host_path)
                  then ok new_component
                  else (detranslate_path h.readlink_proc fs target (some host_path) >>= λ referee.
                      canon h fs level deref deeper f referee.1 guest)
            ])
        go none = λ e. cc
        go (some target) =
            Returns-if (KeepsFinality f) (leb path_max (length target)) _ _ (λ _ e. cc)
              λ _.
                Returns-if (KeepsFinality f) (raced (h.lstat_again host_path)) _ _
                  (λ e. absurd (false≢true (sym (calm.settled host_path) ∙ e)))
                  λ _.
                    Returns-bind (KeepsFinality f)
                      (detranslate_path h.readlink_proc fs target (some host_path)) _
                      (detranslate_path-Ends h.readlink_proc fs target (some host_path))
                      λ referee. canon-Returns f referee.1 guest

    follow_link-Returns :
        (f : Finality) (component host_path guest : Bytes)
        → Returns
            (KeepsFinality f)
            (follow_link h fs level deref deeper f component host_path guest)
    unfolding follow_link
    follow_link-Returns f component host_path guest =
        Returns-if (KeepsFinality f) (not (is_inside (compare_paths (codes "/proc") guest))) _ _
          (λ _. read_link-Returns f host_path guest)
          (λ _. go (h.readlink_proc guest component (compare_paths (codes "/proc") guest)) refl)
      where
        go :
            (a : Action)
            → h.readlink_proc guest component (compare_paths (codes "/proc") guest) ≡ a
            → Returns (KeepsFinality f) (elim a [
              | default ↦ read_link h fs level deref deeper f host_path guest
              | canonicalize referee ↦ canon h fs level deref deeper f referee guest
              | dont_canonicalize path ↦
                  if is_normal f
                  then ok (return path)
                  else read_link h fs level deref deeper f host_path guest
              | error code ↦ fail code
            ])
        go default e = read_link-Returns f host_path guest
        go (canonicalize referee) e = canon-Returns f referee guest
        go (dont_canonicalize path) e =
            Returns-if (KeepsFinality f) (is_normal f) _ _ (λ _. unfold KeepsFinality in tt)
              (λ _. read_link-Returns f host_path guest)
        go (error code) e = λ c. calm.emulation guest component _ (e ∙ ap error c)

    enter_component-Returns :
        (f : Finality) (component guest : Bytes)
        → Returns (KeepsFinality f) (enter_component h fs level deref deeper f component guest)
    unfolding enter_component KeepsFinality
    enter_component-Returns f component guest =
        Returns-bind (KeepsFinality f) (join2 guest component) _ (join2-Ends guest component)
          λ scratch.
            Returns-bind (KeepsFinality f) (substitute_binding_stat h fs f level scratch) _
              (substitute_binding_stat-Ends f scratch)
              λ checked.
                Returns-if (KeepsFinality f) (not checked.0 || (is_normal f && not deref)) _ _
                  (λ _.
                    Returns-bind (KeepsFinality f) (join2 guest component) _
                      (join2-Ends guest component) λ joined. refl)
                  (λ _. follow_link-Returns f component checked.1 guest)

    round-Returns :
        (f : Finality) (component guest : Bytes)
        → Returns (KeepsFinality f) (round h fs level deref deeper f component guest)
    unfolding round KeepsFinality is_final
    round-Returns f component guest =
        Returns-if (KeepsFinality f) (str_eq component (codes ".")) _ _ (λ _. ground arith)
          λ _.
            Returns-if (KeepsFinality f) (str_eq component (codes "..")) _ _ (λ _. ground arith)
              λ _. enter_component-Returns f component guest

    next_round-Ends :
        (again : Bytes → Result (Bytes × Option Finality)) (f : Finality) (guest : Bytes)
        (ended : Round)
        → KeepsFinality f ended
        → (is_final f ≡ false → (p : Bytes) → Ends (again p))
        → Ends (next_round again guest ended)
    unfolding next_round KeepsFinality
    next_round-Ends again f guest (continue p f') k step =
        Ends-if (is_final f') _ _ (λ _ e. cc) (λ n. step (sym k ∙ n) p)
    next_round-Ends again f guest new_component k step = absurd k
    next_round-Ends again f guest (return p) k step = λ e. cc

    -- A round for each component, of which there are fewer than bytes.
    loop-Ends :
        (fuel : ℕ) (cursor guest : Bytes)
        → length cursor < fuel
        → Ends (loop h fs level deref deeper fuel cursor guest)
    unfolding loop
    loop-Ends zero cursor guest n = absurd (omega (arith, n))
    loop-Ends (suc fuel) cursor guest n =
        Ends-bind (next_component cursor) _ (next_component-Ends cursor) λ next e.
          Ends-bind (round h fs level deref deeper next.1 next.0 guest) _
            (Returns-Ends _ _ (round-Returns next.1 next.0 guest))
            λ ended e'.
              next_round-Ends (loop h fs level deref deeper fuel next.2) next.1 guest ended
                (Returns-ok (KeepsFinality next.1) _ (round-Returns next.1 next.0 guest) e')
                λ last p.
                  loop-Ends fuel next.2 p
                    (omega (arith, n, next_component-shorter cursor next.0 next.2 next.1 e last))

  keep_finality-Ends : (p : Bytes) (f : Option Finality) → Ends (keep_finality level p f)
  unfolding keep_finality
  keep_finality-Ends p f = λ e. ground (arith, join2-Ends p [], join2-Ends p (codes "."))

level-Ends :
    (h : Host) (fs : Bindings) (calm : Settles h) (fuel level : ℕ) (deref : Bool)
    (user guest : Bytes)
    → 0 < fuel
    → max_symlinks + 2 ≤ fuel + level
    → Ends (canonicalize_level h fs fuel level deref user guest)
unfolding canonicalize_level
level-Ends h fs calm zero level deref user guest p n = absurd (omega (arith, p))
level-Ends h fs calm (suc fuel) level deref user guest p n =
    Ends-if (ltb max_symlinks level) _ _ (λ _ e. cc)
      λ few.
        Ends-if (leb path_max (length guest)) _ _ (λ _ e. cc)
          λ _.
            Ends-if (not (char_at user 0 == b'/') && not (char_at guest 0 == b'/')) _ _ (λ _ e. cc)
              λ _.
                let shallow : level ≤ 40 = ground arith in
                Ends-bind
                  (loop h fs level deref (canonicalize_level h fs fuel (suc level) true)
                    (suc (length user)) user (if char_at user 0 == b'/' then b'/' ∷ [] else guest))
                  _
                  (loop-Ends h fs calm level deref (canonicalize_level h fs fuel (suc level) true)
                    (λ u g.
                      level-Ends h fs calm fuel (suc level) true u g (omega arith) (omega arith))
                    (suc (length user)) user _ (omega arith))
                  λ r _. keep_finality-Ends h fs calm level r.0 r.1

-- As long as no file changes its type while a link is read, `canonicalize` comes to an end,
-- whatever the user path, the bindings, the guest path and the files are: a round of the loop
-- for each component and at most 41 levels of symlinks suffice, even for links that form a cycle.
pub canonicalize_path-Ends :
    (h : Host) (fs : Bindings) (user guest : Bytes) (deref : Bool)
    → Settles h
    → canonicalize_path h fs user deref guest ≢ fail out_of_fuel
canonicalize_path-Ends h fs user guest deref calm =
    unfold canonicalize_path in
    level-Ends h fs calm (max_symlinks + 2) 0 deref user guest (omega arith) (omega arith)
