-- ===== src/FakeId0/Samples.antt =====
-- Tests of the identities of proot/src/extension/fake_id0, and the witnesses of the theorems about
-- them: the user 1000 with the saved user 33, and a process that was started as root.
use doki_proot.Prelude.{ℕ, ◌≡◌, refl, Bool, ◌||◌, [], ◌∷◌, ◌==◌, ok, fail, e_perm, arith}
use doki_proot.FakeId0.{
  Config, user, group, ids_of, is_privileged, setrexid, setresxid, call_setxid, call_setresxid,
  handle_call, handle_calls,
}
use doki_proot.FakeId0.Keep.{KeepsTo, handle_calls-KeepsTo}
use doki_proot.FakeId0.Kernel.{
  linux_setresid, linux_setreid, has_cap_setuid, by_rules, setresxid-by_rules, setrexid-by_rules,
}

abbrev someone : Config
someone = record {
  uids = record { rid = 1000; eid = 1000; sid = 33; fsid = 1000 };
  gids = record { rid = 100; eid = 100; sid = 100; fsid = 100 };
  umask = 18;
  initial_euid = 1000;
}

abbrev is_user : ℕ → Bool
is_user id = id == 1000 || id == 33

abbrev is_group : ℕ → Bool
is_group id = id == 100

someone-KeepsTo : KeepsTo is_user is_group someone
someone-KeepsTo = ground arith

handle_calls-KeepsTo_example : KeepsTo is_user is_group (
    handle_calls
      (call_setxid user 33 ∷ call_setxid user 0 ∷ call_setresxid group 0 100 4294967295 ∷ [])
      someone)
handle_calls-KeepsTo_example =
    handle_calls-KeepsTo is_user is_group refl
      (call_setxid user 33 ∷ call_setxid user 0 ∷ call_setresxid group 0 100 4294967295 ∷ [])
      someone someone-KeepsTo

root_refused : (handle_call (call_setxid user 0) someone).0 ≡ fail e_perm
unfolding handle_call is_privileged
root_refused = refl

setresxid-by_rules_example :
    setresxid user 33 33 33 someone
    ≡ by_rules user (linux_setresid (has_cap_setuid someone) 33 33 33 (ids_of user someone)) someone
unfolding ids_of
setresxid-by_rules_example = setresxid-by_rules user 33 33 33 someone refl

swapped : (setrexid user 1000 33 someone).0 ≡ ok 0
unfolding setrexid is_privileged
swapped = refl

setrexid-by_rules_example :
    setrexid user 1000 33 someone
    ≡ by_rules user (linux_setreid (has_cap_setuid someone) 1000 33 (ids_of user someone)) someone
unfolding ids_of
setrexid-by_rules_example = setrexid-by_rules user 1000 33 someone refl refl swapped

-- Where only the real identity is set, the saved one is not made the effective one.
saved_stays : ids_of user (setrexid user 1000 4294967295 someone).1 ≡ ids_of user someone
unfolding setrexid ids_of is_privileged
saved_stays = refl
