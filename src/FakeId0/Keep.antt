-- ===== src/FakeId0/Keep.antt =====
-- A process without privileges of proot/src/extension/fake_id0 keeps to its identities.
use mathlib.Core.Bool.{false≢true}
use doki_proot.Prelude.{
  Bool-cases, inl, inr, sym, ◌∙◌, ap, ◌&&◌, if◌then◌else◌, ℕ, ◌≡◌, ◌≢◌, refl, Bool, true, false,
  not, ◌||◌, List, [], ◌∷◌, ◌==◌, ==_iff, arith, Result,
}
use doki_proot.FakeId0.{
  Ids, Config, Kind, user, group, ids_of, with_ids, to_id, unset_id, is_privileged, equals_any_id,
  setxid, setrexid_allowed, set_effective, set_real, setrexid, set_three, setresxid, setfsxid, Call,
  call_setxid, call_setrexid, call_setresxid, call_setfsxid, handle_call, handle_calls,
}

-- All four identities are of a set, given by its test.
pub record AreIn (is_own : ℕ → Bool) (ids : Ids) : Type 0 where
  pub rid_own : is_own ids.rid ≡ true
  pub eid_own : is_own ids.eid ≡ true
  pub sid_own : is_own ids.sid ≡ true
  pub fsid_own : is_own ids.fsid ≡ true

module _ (is_own : ℕ → Bool) where
  equals_any_id-own :
      (id : ℕ) (ids : Ids) → AreIn is_own ids → equals_any_id id ids ≡ true → is_own id ≡ true
  unfolding equals_any_id
  equals_any_id-own id ids a h =
      ground (arith, (==_iff id ids.rid).0, (==_iff id ids.eid).0, (==_iff id ids.sid).0)

  set_effective-AreIn :
      (r e : ℕ) (ids : Ids)
      → AreIn is_own ids
      → setrexid_allowed r e ids ≡ true
      → AreIn is_own (set_effective e ids)
  unfolding setrexid_allowed set_effective
  set_effective-AreIn r e ids a h =
      ground (arith, (==_iff e ids.rid).0, (==_iff e ids.eid).0, (==_iff e ids.sid).0)

  set_real-AreIn :
      (r e : ℕ) (ids : Ids)
      → AreIn is_own ids
      → setrexid_allowed r e ids ≡ true
      → AreIn is_own (set_real r e (set_effective e ids))
  unfolding setrexid_allowed set_effective set_real
  set_real-AreIn r e ids a h = ground (
    arith,
    (==_iff e ids.rid).0,
    (==_iff e ids.eid).0,
    (==_iff e ids.sid).0,
    (==_iff r ids.rid).0,
    (==_iff r ids.eid).0,
  )

  set_three-AreIn :
      (r e s : ℕ) (ids : Ids)
      → AreIn is_own ids
      → ((unset_id r || equals_any_id r ids)
          && (unset_id e || equals_any_id e ids)
          && (unset_id s || equals_any_id s ids))
        ≡ true
      → AreIn is_own (set_three r e s ids)
  unfolding set_three
  set_three-AreIn r e s ids a h =
      ground
        (arith, equals_any_id-own r ids a, equals_any_id-own e ids a, equals_any_id-own s ids a)

-- A process without privileges whose identities are in two sets, of users without root and of groups.
pub record KeepsTo (is_user is_group : ℕ → Bool) (config : Config) : Type 0 where
  pub users : AreIn is_user config.uids
  pub groups : AreIn is_group config.gids
  pub not_root : config.initial_euid ≢ 0

module _ (is_user is_group : ℕ → Bool) (no_root : is_user 0 ≡ false) where
  unprivileged : (c : Config) → KeepsTo is_user is_group c → is_privileged c ≡ false
  unfolding is_privileged
  unprivileged c k =
      let e : c.uids.eid ≢ 0 =
        λ e. false≢true (sym no_root ∙ ap is_user (sym e) ∙ k.users.eid_own) in
      ground (arith, e, k.not_root)

  -- Changing the identities of a kind to ones of its set.
  with_ids-KeepsTo :
      (kind : Kind) (ids : Ids) (c : Config)
      → KeepsTo is_user is_group c
      → (((s : ℕ → Bool) → AreIn s (ids_of kind c) → AreIn s ids))
      → KeepsTo is_user is_group (with_ids kind ids c)
  unfolding with_ids ids_of
  with_ids-KeepsTo user ids c k f = record {
    users = f is_user k.users;
    groups = k.groups;
    not_root = k.not_root;
  }
  with_ids-KeepsTo group ids c k f = record {
    users = k.users;
    groups = f is_group k.groups;
    not_root = k.not_root;
  }

  KeepsTo-if :
      (b : Bool) (m n : Result ℕ × Config)
      → KeepsTo is_user is_group m.1
      → (b ≡ false → KeepsTo is_user is_group n.1)
      → KeepsTo is_user is_group (if b then m else n).1
  KeepsTo-if true m n h k = h
  KeepsTo-if false m n h k = k refl

  handle_call-KeepsTo :
      (call : Call) (c : Config)
      → KeepsTo is_user is_group c
      → KeepsTo is_user is_group (handle_call call c).1
  unfolding handle_call setxid setrexid setresxid setfsxid
  handle_call-KeepsTo (call_setxid kind register) c k =
      let id = to_id register in
      KeepsTo-if (not (is_privileged c || equals_any_id id (ids_of kind c))) _ _ k λ allowed.
        with_ids-KeepsTo kind _ c k λ s a.
          let own = equals_any_id-own s id (ids_of kind c) a (ground (arith, unprivileged c k)) in
          ground (arith, own)
  handle_call-KeepsTo (call_setrexid kind register1 register2) c k =
      let r = to_id register1 in
      let e = to_id register2 in
      KeepsTo-if (not (is_privileged c || setrexid_allowed r e (ids_of kind c))) _ _ k λ allowed.
        with_ids-KeepsTo kind (set_real r e (set_effective e (ids_of kind c))) c k
          λ s a. set_real-AreIn s r e (ids_of kind c) a (ground (arith, unprivileged c k))
  handle_call-KeepsTo (call_setresxid kind register1 register2 register3) c k =
      let r = to_id register1 in
      let e = to_id register2 in
      let t = to_id register3 in
      let ids = ids_of kind c in
      KeepsTo-if
        (not (
          is_privileged c
          || ((unset_id r || equals_any_id r ids)
              && (unset_id e || equals_any_id e ids)
              && (unset_id t || equals_any_id t ids))))
        _ _ k
        λ allowed.
          with_ids-KeepsTo kind (set_three r e t ids) c k
            λ s a. set_three-AreIn s r e t ids a (ground (arith, unprivileged c k))
  handle_call-KeepsTo (call_setfsxid kind register) c k =
      let f = to_id register in
      let ids = ids_of kind c in
      elim (Bool-cases (is_privileged c || f == ids.fsid || equals_any_id f ids)) [
        | inr e ↦ rw e k
        | inl e ↦ rw e (
            with_ids-KeepsTo kind (record ids { fsid = f }) c k
              λ s a.
                let own : s f ≡ true =
                  ground
                    (arith, unprivileged c k, equals_any_id-own s f ids a, (==_iff f ids.fsid).0) in
                record {
                  rid_own = a.rid_own;
                  eid_own = a.eid_own;
                  sid_own = a.sid_own;
                  fsid_own = own;
                })
      ]

  -- A process whose real, effective, saved and file system users are of a set without root, and
  -- that was not started as root, keeps to this set, and to a set of groups that its groups are
  -- of, through any calls of setuid, setreuid, setresuid, setfsuid and those for groups.
  pub handle_calls-KeepsTo :
      (calls : List Call) (c : Config)
      → KeepsTo is_user is_group c
      → KeepsTo is_user is_group (handle_calls calls c)
  unfolding handle_calls
  handle_calls-KeepsTo [] c k = k
  handle_calls-KeepsTo (call ∷ calls) c k =
      handle_calls-KeepsTo calls (handle_call call c).1 (handle_call-KeepsTo call c k)
