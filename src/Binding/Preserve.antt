-- ===== src/Binding/Preserve.antt =====
-- Inserting a new binding keeps the lists of a tracee well formed.
use doki_proot.Prelude.{
  ℕ, suc, ◌+◌, arith, ◌≡◌, refl, not, Option, none, some, List, [], ◌∷◌, Bytes, length, ◌<◌, All,
}
use doki_proot.Path.Compare.Laws.{IsText}
use doki_proot.Path.Compare.{compare_paths}
use doki_proot.Binding.{Side, guest, host, Binding, Bindings, head, list_of, is_equal}
use doki_proot.Binding.Insort.{
  Spot, insert_at, replace, finish, first, scan, apply_spot, insort_binding, insort_binding3,
  insert_before, unlink, unlink_from,
}
use doki_proot.Binding.Keys.{IsSound}
use doki_proot.Binding.Order.{IsOrdered}
use doki_proot.Binding.Order.Scan.{
  Found, nothing, at, first_equal, last_inside, outcome, scan-outcome,
}
use doki_proot.Binding.Order.Insert.{
  All-insert_before, All-unlink, unlink-IsOrdered, insert_head-IsOrdered, insert-IsOrdered,
  replace-IsOrdered,
}

abbrev pub IsGood : Side → List Binding → Type 0
IsGood side l = All IsSound l × IsOrdered side l

-- Both sides hold well-formed bindings, and a directory never stands before what lies below it.
pub record IsWellFormed (fs : Bindings) : Type 0 where
  pub guest_good : IsGood guest (head fs guest)
  pub host_good : IsGood host (head fs host)

abbrev IsPlaced : Side → Binding → List Binding → Spot → Type 0
IsPlaced side b l (insert_at n) = IsGood side (insert_before n b l)
IsPlaced side b l (replace i c) = IsGood side (unlink c.address (insert_before (suc i) b l))

scan-top :
    (side : Side) (b : Binding) (l : List Binding)
    → scan side b 0 none (first l) l
      ≡ outcome 0 none (first l) (first_equal side b l) (last_inside side b l)
unfolding first scan first_equal last_inside outcome
scan-top side b [] = refl
scan-top side b (c ∷ l) = unfold first in scan-outcome side b 0 none 0 (c ∷ l)

unlink-IsGood : (side : Side) (a : ℕ) (l : List Binding) → IsGood side l → IsGood side (unlink a l)
unlink-IsGood side a l g = (All-unlink IsSound a l g.0, unlink-IsOrdered side a l g.1)

finish-first : (l : List Binding) → finish none (first l) ≡ insert_at 0
unfolding finish first
finish-first [] = refl
finish-first (c ∷ l) = refl

outcome-IsPlaced :
    (side : Side) (b : Binding) (l : List Binding)
    → IsSound b
    → IsGood side l
    → (f : Found) → first_equal side b l ≡ f
    → (o : Option ℕ) → last_inside side b l ≡ o
    → IsPlaced side b l (outcome 0 none (first l) f o)
unfolding outcome
outcome-IsPlaced side b l sb g (at k c) e o p =
    let zero_add : 0 + k ≡ k = omega arith in
    rw zero_add (
      All-unlink IsSound c.address (insert_before (suc k) b l)
          (All-insert_before IsSound (suc k) b l g.0 sb),
      replace-IsOrdered side b sb l k c g.0 g.1 e,
    )
outcome-IsPlaced side b l sb g nothing e (some k) p =
    let zero_add : 0 + k ≡ k = omega arith in
    rw zero_add
      (All-insert_before IsSound (suc k) b l g.0 sb, insert-IsOrdered side b sb l k g.0 g.1 e p)
outcome-IsPlaced side b l sb g nothing e none p =
    rw finish-first ((sb, g.0), insert_head-IsOrdered side b sb l g.0 g.1 p)

scan-IsPlaced :
    (side : Side) (b : Binding) (l : List Binding)
    → IsSound b
    → IsGood side l
    → IsPlaced side b l (scan side b 0 none (first l) l)
scan-IsPlaced side b l sb g =
    rw scan-top
      (outcome-IsPlaced side b l sb g (first_equal side b l) refl (last_inside side b l) refl)

head-unlink_from :
    (a : ℕ) (o : Option (List Binding)) → list_of (unlink_from a o) ≡ unlink a (list_of o)
unfolding unlink_from unlink
head-unlink_from a none = refl
head-unlink_from a (some l) = refl

-- The other side's list loses a replaced binding at most.
apply_spot-guest :
    (fs : Bindings) (b : Binding) (s : Spot)
    → IsPlaced guest b (head fs guest) s
    → IsGood host (head fs host)
    → IsWellFormed (apply_spot fs guest b s)
unfolding apply_spot head unlink_from
apply_spot-guest fs b (insert_at n) p h = record { guest_good = p; host_good = h }
apply_spot-guest fs b (replace i c) p h = record {
  guest_good = p;
  host_good = rw head-unlink_from (unlink-IsGood host c.address (list_of fs.host_list) h);
}

apply_spot-host :
    (fs : Bindings) (b : Binding) (s : Spot)
    → IsPlaced host b (head fs host) s
    → IsGood guest (head fs guest)
    → IsWellFormed (apply_spot fs host b s)
unfolding apply_spot head unlink_from
apply_spot-host fs b (insert_at n) p h = record { guest_good = h; host_good = p }
apply_spot-host fs b (replace i c) p h = record {
  guest_good = rw head-unlink_from (unlink-IsGood guest c.address (list_of fs.guest_list) h);
  host_good = p;
}

-- A new binding of two non-empty C strings leaves both lists well formed: no directory stands
-- before what lies below it, and on the guest side no two bindings have one place.
pub insort_binding3-IsWellFormed :
    (fs : Bindings) (address : ℕ) (host_path guest_path : Bytes)
    → IsWellFormed fs
    → IsText host_path
    → 0 < length host_path
    → IsText guest_path
    → 0 < length guest_path
    → IsWellFormed (insort_binding3 fs address host_path guest_path)
unfolding insort_binding3 insort_binding
insort_binding3-IsWellFormed fs address host_path guest_path w th nh tg ng =
    let b : Binding = record {
      address = address;
      host_path = record { path = host_path; cached_length = length host_path };
      guest_path = record { path = guest_path; cached_length = length guest_path };
      need_substitution = not (is_equal (compare_paths host_path guest_path));
    } in
    let sb : IsSound b = record {
      host_sized = record { text = th; full = nh; sized = refl };
      guest_sized = record { text = tg; full = ng; sized = refl };
    } in
    let fs' = insort_binding fs guest b in
    let w' : IsWellFormed fs' =
      apply_spot-guest fs b (scan guest b 0 none (first (head fs guest)) (head fs guest))
        (scan-IsPlaced guest b (head fs guest) sb w.guest_good) w.host_good in
    apply_spot-host fs' b (scan host b 0 none (first (head fs' host)) (head fs' host))
      (scan-IsPlaced host b (head fs' host) sb w'.host_good) w'.guest_good
