-- ===== src/Sysvipc/Semaphore/Safety.antt =====
-- `semop` of proot/src/extension/sysvipc/sysvipc_sem.c keeps the invariant of the waiting tracees.
use doki_proot.Prelude.{
  ℕ, ◌-◌, ◌%◌, ◌<◌, ◌≡◌, refl, sym, ◌∙◌, ap, Bool, true, false, not, Option, none, some, List, ◌∷◌,
  All, All-map, length, ltb, ◌==◌, Bool-cases, if◌then◌else◌, Result, ok, fail, inl, inr, arith,
  e_inval, e_2big, e_fbig,
}
use doki_proot.Sysvipc.{
  Sembuf, Config, restarted_into_ppoll_canceled, signaled_ppoll, is_waiting, wake_state,
  not_waiting, wait_semop, finish_syscall, lookup_ipc_object,
}
use doki_proot.Sysvipc.Semaphore.{
  Semaphore, sem_check, check_status, at, put, lookup_semaphore, valid_generation, max_nsops,
}
use doki_proot.Sysvipc.Semaphore.Operations.{
  State, wake_pass, settle, do_semop, are_in_set, semop, semop_at, semop_read,
}
use doki_proot.Sysvipc.Semaphore.Waiters.{
  IsFit, IsKept, Passes, valid_size, sem_check-IsKept, wake_pass-Passes, rested-IsFit, IsKept-trans,
}
use doki_proot.Sysvipc.Semaphore.Invariant.{
  IsSized, sizes, IsWellFormed, at-IsSized, put-IsSized, sizes-put, IsFit-sizes, are_in_set-All,
}

-- What a call yields: no assertion fails, and behind the end of the system call all tracees of the
-- namespace fit, the caller included.
abbrev pub IsSafe : Bool → Option (Result ℕ × State) → Type 0
IsSafe from_sigsys none = ⊥
IsSafe from_sigsys (some (status, state)) =
    IsWellFormed state.semaphores (finish_syscall from_sigsys status state.config ∷ state.others)

-- The caller behind its call, as it waits or does not.
finish_waiting :
    (size : ℕ → Option ℕ) (b : Bool) (r : Result ℕ) (c : Config) (n : ℕ)
    → c.wait_reason ≡ wait_semop
    → size c.waiting_object_index ≡ some n
    → All (λ (o : Sembuf). o.sem_num < n) c.semop_sops
    → IsFit size (finish_syscall b r c)
unfolding finish_syscall is_waiting wake_state
finish_waiting size true r c n w e sops =
    let waiting : is_waiting c.wait_reason ≡ true = rw w refl in
    rw waiting (λ _. ((restarted_into_ppoll_canceled, refl), (n, e, sops)))
finish_waiting size false r c n w e sops =
    let waiting : is_waiting c.wait_reason ≡ true = rw w refl in
    rw waiting (λ _. ((signaled_ppoll, refl), (n, e, sops)))

finish_rested :
    (size : ℕ → Option ℕ) (b : Bool) (r : Result ℕ) (c : Config)
    → c.wait_reason ≡ not_waiting
    → IsFit size (finish_syscall b r c)
unfolding finish_syscall is_waiting
finish_rested size true r c w =
    let resting : is_waiting c.wait_reason ≡ false = rw w refl in
    rested-IsFit size (finish_syscall true r c) (rw resting w)
finish_rested size false r c w =
    let resting : is_waiting c.wait_reason ≡ false = rw w refl in
    rested-IsFit size (finish_syscall false r c) (rw resting w)

finish_settle :
    (size : ℕ → Option ℕ) (b : Bool) (found : Option (Result ℕ)) (c : Config) (n : ℕ)
    → c.wait_reason ≡ wait_semop
    → size c.waiting_object_index ≡ some n
    → All (λ (o : Sembuf). o.sem_num < n) c.semop_sops
    → IsFit size (finish_syscall b (settle found c).0 (settle found c).1)
unfolding settle
finish_settle size b none c n w e sops = finish_waiting size b (ok 0) c n w e sops
finish_settle size b (some status) c n w e sops = finish_rested size b status _ refl

put_kept :
    (b : Bool) (l : List Semaphore) (i : ℕ) (s : Semaphore) (c : Config) (found : Option (Result ℕ))
    (o : Option (List Config × Semaphore))
    → All IsSized l
    → at l i ≡ some s
    → IsSized s
    → c.wait_reason ≡ wait_semop
    → sizes l c.waiting_object_index ≡ some (length s.sems)
    → All (λ (o : Sembuf). o.sem_num < length s.sems) c.semop_sops
    → Passes (sizes l) s o
    → IsSafe b (elim o [
      | none ↦ none
      | some (others, t) ↦ some (
        (settle found c).0,
        record { semaphores = put l i t; config = (settle found c).1; others = others },
      )
    ])
put_kept b l i s c found none sized e own w e' sops p = p
put_kept b l i s c found (some (others, t)) sized e own w e' sops (fit, kept) =
    let same = sizes-put l i s t e kept in
    record {
      sized =
          put-IsSized l i t sized
            (λ v. kept.kept_size ∙ own (sym kept.kept_valid ∙ v) ∙ sym kept.kept_nsems);
      fit = (
        finish_settle (sizes (put l i t)) b found c (length s.sems) w
            (same c.waiting_object_index ∙ e') sops,
        All-map (IsFit (sizes l)) (IsFit (sizes (put l i t))) others
            (λ c'. IsFit-sizes (sizes l) (sizes (put l i t)) same c') fit,
      );
    }

Passes-from :
    (size : ℕ → Option ℕ) (s t : Semaphore) (o : Option (List Config × Semaphore))
    → IsKept s t
    → Passes size t o
    → Passes size s o
Passes-from size s t none k p = p
Passes-from size s t (some (rest, u)) k p = (p.0, IsKept-trans s t u k p.1)

do_semop-IsSafe :
    (b : Bool) (state : State) (i : ℕ) (s : Semaphore) (sops : List Sembuf)
    → IsWellFormed state.semaphores state.others
    → at state.semaphores i ≡ some s
    → s.valid ≡ true
    → are_in_set s.nsems sops ≡ true
    → IsSafe b (do_semop state i s sops)
unfolding do_semop
do_semop-IsSafe b state i s sops h e v inside =
    let c = record state.config {
      wait_reason = wait_semop;
      waiting_object_index = i;
      semop_sops = sops;
    } in
    let own = at-IsSized state.semaphores i s h.sized e in
    let size : sizes state.semaphores i ≡ some (length s.sems) =
      ap valid_size e ∙ (unfold valid_size in rw v refl) in
    let good : All (λ (o : Sembuf). o.sem_num < length s.sems) sops =
      rw (own v) (are_in_set-All s.nsems sops inside) in
    let kept = sem_check-IsKept c s good in
    let t = (sem_check c s).1 in
    put_kept b state.semaphores i s c (check_status (sem_check c s).0) (wake_pass i state.others t)
      h.sized e own refl size good
      (Passes-from (sizes state.semaphores) s t (wake_pass i state.others t) kept (
        wake_pass-Passes (sizes state.semaphores) i state.others t
          (size ∙ ap some (sym kept.kept_size)) h.fit))

-- A call that returns at once leaves all as it is.
early-IsSafe :
    (b : Bool) (state : State) (r : Result ℕ)
    → IsWellFormed state.semaphores state.others
    → state.config.wait_reason ≡ not_waiting
    → IsSafe b (some (r, state))
early-IsSafe b state r h w = record {
  sized = h.sized;
  fit = (finish_rested (sizes state.semaphores) b r state.config w, h.fit);
}

IsSafe-if :
    (b t : Bool) (m n : Option (Result ℕ × State))
    → IsSafe b m
    → (t ≡ false → IsSafe b n)
    → IsSafe b (if t then m else n)
IsSafe-if b true m n h k = h
IsSafe-if b false m n h k = k refl

lookup_ipc_object-some :
    (object_id i : ℕ) (g : ℕ → Option ℕ)
    → lookup_ipc_object object_id g ≡ some i
    → (generation : ℕ) × (g i ≡ some generation)
unfolding lookup_ipc_object
lookup_ipc_object-some object_id i g h = elim (Bool-cases (object_id % 4096 == 0)) [
  | inl e ↦ absurd (ground arith)
  | inr e ↦ go (g (object_id % 4096 - 1)) refl
]
  where
    go : (o : Option ℕ) → g (object_id % 4096 - 1) ≡ o → (generation : ℕ) × (g i ≡ some generation)
    go none e = ground arith
    go (some x) e = let here : i ≡ object_id % 4096 - 1 = ground arith in (x, ap g here ∙ e)

pub lookup_semaphore-valid :
    (l : List Semaphore) (object_id i : ℕ) (s : Semaphore)
    → lookup_semaphore l object_id ≡ some i
    → at l i ≡ some s
    → s.valid ≡ true
unfolding lookup_semaphore valid_generation
lookup_semaphore-valid l object_id i s h e =
    let (generation, found) =
      lookup_ipc_object-some object_id i (λ j. valid_generation (at l j)) h in
    let found' : valid_generation (some s) ≡ some generation =
      ap valid_generation (sym e) ∙ found in
    ground arith

module _ (b : Bool) (state : State) (h : IsWellFormed state.semaphores state.others)
    (w : state.config.wait_reason ≡ not_waiting) where
  semop_read-IsSafe :
      (i : ℕ) (s : Semaphore) (read : Result (List Sembuf))
      → at state.semaphores i ≡ some s
      → s.valid ≡ true
      → IsSafe b (semop_read state i s read)
  unfolding semop_read
  semop_read-IsSafe i s (fail code) e v = early-IsSafe b state (fail code) h w
  semop_read-IsSafe i s (ok sops) e v =
      IsSafe-if b (not (are_in_set s.nsems sops)) _ _ (early-IsSafe b state (fail e_fbig) h w)
        λ f. do_semop-IsSafe b state i s sops h e v (ground arith)

  semop_at-IsSafe :
      (object_id i : ℕ) (o : Option Semaphore) (n : ℕ) (read : Result (List Sembuf))
      → lookup_semaphore state.semaphores object_id ≡ some i
      → at state.semaphores i ≡ o
      → IsSafe b (semop_at state i o n read)
  unfolding semop_at
  semop_at-IsSafe object_id i none n read l e = early-IsSafe b state (fail e_inval) h w
  semop_at-IsSafe object_id i (some s) n read l e =
      IsSafe-if b (ltb max_nsops n) _ _ (early-IsSafe b state (fail e_2big) h w) λ _.
        IsSafe-if b (n == 0) _ _ (early-IsSafe b state (fail e_inval) h w) λ _.
          semop_read-IsSafe i s read e (lookup_semaphore-valid state.semaphores object_id i s l e)

-- A call of `semop` by a tracee that does not wait, in a namespace whose sets are sized and whose
-- waiting tracees are fit, runs into no failing assertion of `sysvipc_wake_tracee`, whatever
-- identifier, operations and memory it is called with; and behind the end of the system call the
-- sets are sized, and all tracees fit, the caller included: one that waits can be woken, and its
-- operations are on values of a valid set.
pub semop-IsSafe :
    (from_sigsys : Bool) (state : State) (object_id nsops : ℕ) (read_sops : Result (List Sembuf))
    → IsWellFormed state.semaphores state.others
    → state.config.wait_reason ≡ not_waiting
    → IsSafe from_sigsys (semop state object_id nsops read_sops)
unfolding semop
semop-IsSafe b state object_id nsops read_sops h w =
    go (lookup_semaphore state.semaphores object_id) refl
  where
    go :
        (o : Option ℕ)
        → lookup_semaphore state.semaphores object_id ≡ o
        → IsSafe b (elim o [
          | none ↦ some (fail e_inval, state)
          | some i ↦ semop_at state i (at state.semaphores i) nsops read_sops
        ])
    go none e = early-IsSafe b state (fail e_inval) h w
    go (some i) e =
        semop_at-IsSafe b state h w object_id i (at state.semaphores i) nsops read_sops e refl
