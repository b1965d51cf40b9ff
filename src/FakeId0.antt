-- ===== src/FakeId0.antt =====
-- The identities of proot/src/extension/fake_id0: the emulation of the system calls that set them
-- (the macros SETXID, SETREXID, SETRESXID and SETFSXID of fake_id0.c) on the Config of config.h.
-- The macros stand for a user and for a group version alike.
pub mod Keep
pub mod Kernel
mod Samples
use doki_proot.Prelude.{
  ℕ, ◌%◌, Bool, not, ◌&&◌, ◌||◌, List, [], ◌∷◌, ◌==◌, if◌then◌else◌, Result, ok, fail, e_perm,
}

-- The real, effective, saved and file system identity.
pub record Ids : Type 0 where
  pub rid : ℕ
  pub eid : ℕ
  pub sid : ℕ
  pub fsid : ℕ

pub record Config : Type 0 where
  pub uids : Ids
  pub gids : Ids
  pub umask : ℕ
  pub initial_euid : ℕ

pub data Kind : Type 0 where
  user group : Kind

unfoldable pub ids_of : Kind → Config → Ids
ids_of user config = config.uids
ids_of group config = config.gids

unfoldable pub with_ids : Kind → Ids → Config → Config
with_ids user ids config = record config { uids = ids }
with_ids group ids config = record config { gids = ids }

-- A register as an uid_t or gid_t.
abbrev pub to_id : ℕ → ℕ
to_id register = register % 4294967296

-- UNSET_ID
abbrev pub unset_id : ℕ → Bool
unset_id id = id == 4294967295

-- config->euid == 0 || config->initial_euid == 0
unfoldable pub is_privileged : Config → Bool
is_privileged config = config.uids.eid == 0 || config.initial_euid == 0

-- EQUALS_ANY_ID
unfoldable pub equals_any_id : ℕ → Ids → Bool
equals_any_id id ids = id == ids.rid || id == ids.eid || id == ids.sid

unfoldable pub setxid : Kind → ℕ → Config → Result ℕ × Config
unfolding ids_of with_ids is_privileged equals_any_id
setxid kind register config =
    let id = to_id register in
    let ids = ids_of kind config in
    if not (is_privileged config || equals_any_id id ids) then (fail e_perm, config) else (
      ok 0,
      with_ids kind
          (if config.uids.eid == 0
            then record { rid = id; eid = id; sid = id; fsid = id }
            else record ids { eid = id; fsid = id })
          config,
    )

-- What an unprivileged process may ask of setreuid.
unfoldable pub setrexid_allowed : ℕ → ℕ → Ids → Bool
setrexid_allowed r e ids =
    let e_unchanged = unset_id e || e == ids.eid in
    let r_unchanged = unset_id r || r == ids.rid in
    (e_unchanged && r_unchanged)
    || (r == ids.eid && (e == ids.rid || e_unchanged))
    || (e == ids.rid && (r == ids.eid || r_unchanged))
    || (e == ids.sid && r_unchanged)

-- The handling of the effective identity, and then of the real one.
unfoldable pub set_effective : ℕ → Ids → Ids
set_effective e ids =
    if unset_id e
    then ids
    else record ids { sid = if not (e == ids.rid) then e else ids.sid; eid = e; fsid = e }

unfoldable pub set_real : ℕ → ℕ → Ids → Ids
set_real r e ids =
    if unset_id r
    then ids
    else record ids { sid = if not (unset_id e) then e else ids.sid; rid = r }

unfoldable pub setrexid : Kind → ℕ → ℕ → Config → Result ℕ × Config
unfolding ids_of with_ids is_privileged setrexid_allowed set_effective set_real
setrexid kind register1 register2 config =
    let r = to_id register1 in
    let e = to_id register2 in
    let ids = ids_of kind config in
    if not (is_privileged config || setrexid_allowed r e ids)
    then (fail e_perm, config)
    else (ok 0, with_ids kind (set_real r e (set_effective e ids)) config)

unfoldable pub set_three : ℕ → ℕ → ℕ → Ids → Ids
set_three r e s ids = record {
  rid = if not (unset_id r) then r else ids.rid;
  eid = if not (unset_id e) then e else ids.eid;
  sid = if not (unset_id s) then s else ids.sid;
  fsid = if not (unset_id e) then e else ids.fsid;
}

unfoldable pub setresxid : Kind → ℕ → ℕ → ℕ → Config → Result ℕ × Config
unfolding ids_of with_ids is_privileged equals_any_id set_three
setresxid kind register1 register2 register3 config =
    let r = to_id register1 in
    let e = to_id register2 in
    let s = to_id register3 in
    let ids = ids_of kind config in
    if not (
      is_privileged config
      || ((unset_id r || equals_any_id r ids)
          && (unset_id e || equals_any_id e ids)
          && (unset_id s || equals_any_id s ids)))
    then (fail e_perm, config)
    else (ok 0, with_ids kind (set_three r e s ids) config)

-- The result is the old identity, whether it is changed or not.
unfoldable pub setfsxid : Kind → ℕ → Config → Result ℕ × Config
unfolding ids_of with_ids is_privileged equals_any_id
setfsxid kind register config =
    let f = to_id register in
    let ids = ids_of kind config in
    (
      ok ids.fsid,
      if is_privileged config || f == ids.fsid || equals_any_id f ids
          then with_ids kind (record ids { fsid = f }) config
          else config,
    )

-- The system calls that set identities, with the registers of their arguments, as the extension
-- dispatches them at the exit of a system call.
pub data Call : Type 0 where
  call_setxid call_setfsxid : Kind → ℕ → Call
  call_setrexid : Kind → ℕ → ℕ → Call
  call_setresxid : Kind → ℕ → ℕ → ℕ → Call

unfoldable pub handle_call : Call → Config → Result ℕ × Config
unfolding setxid setrexid setresxid setfsxid
handle_call (call_setxid kind r) config = setxid kind r config
handle_call (call_setrexid kind r e) config = setrexid kind r e config
handle_call (call_setresxid kind r e s) config = setresxid kind r e s config
handle_call (call_setfsxid kind r) config = setfsxid kind r config

-- The calls of a process, in order.
unfoldable pub handle_calls : List Call → Config → Config
unfolding handle_call
handle_calls [] config = config
handle_calls (call ∷ calls) config = handle_calls calls (handle_call call config).1

-- INITIALIZATION, with the parsed identities.
unfoldable pub initial_config : ℕ → ℕ → Config
initial_config uid gid = record {
  uids = record { rid = uid; eid = uid; sid = uid; fsid = uid };
  gids = record { rid = gid; eid = gid; sid = gid; fsid = gid };
  umask = 18;
  initial_euid = uid;
}
