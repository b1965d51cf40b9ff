-- ===== src/FakeId0/Kernel.antt =====
-- The rules of Linux for setresuid and setreuid, as its manual states them, and how the emulation
-- of proot/src/extension/fake_id0 keeps to them. `cap` is the capability CAP_SETUID, as PRoot
-- gives it to a process; Linux tracks capabilities in its own way.
use doki_proot.Prelude.{
  ℕ, ◌≡◌, Bool, true, not, ◌&&◌, ◌||◌, Option, none, some, ◌==◌, if◌then◌else◌, Result, ok, fail,
  e_perm, arith,
}
use doki_proot.FakeId0.{
  Ids, Config, Kind, ids_of, with_ids, to_id, unset_id, is_privileged, equals_any_id,
  setrexid_allowed, set_effective, set_real, setrexid, set_three, setresxid,
}

-- The value that an argument gives to an identity, where -1 leaves it.
abbrev pub or_old : ℕ → ℕ → ℕ
or_old new old = if unset_id new then old else new

-- The real, the effective or the saved identity.
unfoldable pub is_one_of_three : ℕ → Ids → Bool
is_one_of_three id ids = id == ids.rid || id == ids.eid || id == ids.sid

-- PRoot's assumption on the capability: root's effective user has it, and so has a process that
-- was started as root.
unfoldable pub has_cap_setuid : Config → Bool
has_cap_setuid c = c.uids.eid == 0 || c.initial_euid == 0

-- setresuid: each identity may become any of the real, effective and saved ones, with the
-- capability any at all; the file system identity follows the effective one.
unfoldable pub linux_setresid : Bool → ℕ → ℕ → ℕ → Ids → Option Ids
unfolding is_one_of_three
linux_setresid cap r e s ids =
    if cap
      || ((unset_id r || is_one_of_three r ids)
          && (unset_id e || is_one_of_three e ids)
          && (unset_id s || is_one_of_three s ids))
    then some (record {
      rid = or_old r ids.rid;
      eid = or_old e ids.eid;
      sid = or_old s ids.sid;
      fsid = or_old e ids.eid;
    })
    else none

-- setreuid: the real identity may become the real or the effective one, the effective one any of
-- the three; the saved one becomes the new effective one if the real one is set, or the effective
-- one is set to another than the old real one.
unfoldable pub linux_setreid : Bool → ℕ → ℕ → Ids → Option Ids
unfolding is_one_of_three
linux_setreid cap r e ids =
    if cap
      || ((unset_id r || r == ids.rid || r == ids.eid) && (unset_id e || is_one_of_three e ids))
    then some (record {
      rid = or_old r ids.rid;
      eid = or_old e ids.eid;
      sid =
          if not (unset_id r) || (not (unset_id e) && not (e == ids.rid))
          then or_old e ids.eid
          else ids.sid;
      fsid = or_old e ids.eid;
    })
    else none

-- What the rules make of a call.
unfoldable pub by_rules : Kind → Option Ids → Config → Result ℕ × Config
by_rules kind none config = (fail e_perm, config)
by_rules kind (some ids) config = (ok 0, with_ids kind ids config)

set_three-rules :
    (r e s : ℕ) (ids : Ids)
    → ids.fsid ≡ ids.eid
    → set_three r e s ids ≡ record {
      rid = or_old r ids.rid;
      eid = or_old e ids.eid;
      sid = or_old s ids.sid;
      fsid = or_old e ids.eid;
    }
unfolding set_three
set_three-rules r e s ids h = ground arith

-- As long as the file system identity follows the effective one, setresuid and setresgid are
-- emulated by exactly the rules of Linux for a process that has the capability if and only if its
-- effective user is root or it was started as root: it is refused the same calls, and left with
-- the same identities.
pub setresxid-by_rules :
    (kind : Kind) (register1 register2 register3 : ℕ) (c : Config)
    → (ids_of kind c).fsid ≡ (ids_of kind c).eid
    → setresxid kind register1 register2 register3 c
      ≡ by_rules kind
          (linux_setresid
            (has_cap_setuid c)
            (to_id register1)
            (to_id register2)
            (to_id register3)
            (ids_of kind c))
          c
unfolding setresxid linux_setresid by_rules is_privileged equals_any_id has_cap_setuid
    is_one_of_three
setresxid-by_rules kind register1 register2 register3 c h =
    ground (
      arith,
      set_three-rules (to_id register1) (to_id register2) (to_id register3) (ids_of kind c) h,
    )

-- Where the file system identity follows the effective one, and a call of setreuid or setregid
-- that sets the real identity sets the effective one too: what the emulation allows is allowed by
-- the rules of Linux for a process that has the capability if and only if its effective user is
-- root or it was started as root, and leaves the same identities. (PRoot assumes this capability;
-- in Linux a process that was started as root and has dropped its ids has lost it.)
pub setrexid-by_rules :
    (kind : Kind) (register1 register2 : ℕ) (c : Config)
    → (ids_of kind c).fsid ≡ (ids_of kind c).eid
    → (unset_id (to_id register1) || not (unset_id (to_id register2))) ≡ true
    → (setrexid kind register1 register2 c).0 ≡ ok 0
    → setrexid kind register1 register2 c
      ≡ by_rules kind
          (linux_setreid (has_cap_setuid c) (to_id register1) (to_id register2) (ids_of kind c))
          c
unfolding setrexid linux_setreid by_rules setrexid_allowed set_real set_effective is_privileged
    equals_any_id has_cap_setuid is_one_of_three
setrexid-by_rules kind register1 register2 c h both done = ground arith
