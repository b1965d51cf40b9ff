-- ===== src/Sysvipc/Message.antt =====
-- Message queues, their items, and the search in them, of
-- proot/src/extension/sysvipc/sysvipc_msg.c. What is read from and written to the memory of the
-- tracees, the time and the process identifiers are arguments.
pub mod Receive
pub mod Send
pub mod Counts
pub mod Order
mod Samples
use doki_proot.Prelude.{
  ℕ, suc, ◌-◌, ◌%◌, Bool, true, false, not, ◌&&◌, ◌||◌, Option, none, some, List, [], ◌∷◌, Bytes,
  length, ltb, leb, ◌==◌, if◌then◌else◌, Errno,
}
use doki_proot.Sysvipc.{ℤ, pos, negsuc, Config, has_flag}

-- struct SysVIpcMsgQueueItem; the length of the text is that of the list.
pub record Item : Type 0 where
  pub mtype : ℕ
  pub mtext : Bytes

-- struct SysVIpcMsgQueue with the fields of its statistics that the operations change.
pub record Queue : Type 0 where
  pub items : List Item
  pub msg_qnum : ℕ
  pub msg_cbytes : ℕ
  pub msg_lspid : ℕ
  pub msg_lrpid : ℕ
  pub msg_stime : ℕ
  pub msg_rtime : ℕ

abbrev pub msg_noerror : ℕ
msg_noerror = 4096

abbrev pub msg_except : ℕ
msg_except = 8192

abbrev pub msg_copy : ℕ
msg_copy = 16384

abbrev pub max_msg_size : ℕ
max_msg_size = 65535

-- The conversion of a long to an int.
unfoldable pub to_int : ℕ → ℤ
to_int n = let m = n % 4294967296 in if ltb m 2147483648 then pos m else negsuc (4294967295 - m)

unfoldable pub equal_int : ℤ → ℤ → Bool
equal_int (pos a) (pos b) = a == b
equal_int (negsuc a) (negsuc b) = a == b
equal_int (pos a) (negsuc b) = false
equal_int (negsuc a) (pos b) = false

-- receiver_filter < 0 && sender_type <= -receiver_filter
unfoldable pub is_up_to : ℤ → ℤ → Bool
is_up_to sender_type (pos n) = false
is_up_to (pos a) (negsuc n) = leb a (suc n)
is_up_to (negsuc a) (negsuc n) = true

unfoldable pub msg_match : ℤ → ℤ → ℕ → Bool
unfolding equal_int is_up_to has_flag
msg_match sender_type receiver_filter receiver_flag =
    let matched =
      equal_int receiver_filter (pos 0)
      || equal_int sender_type receiver_filter
      || is_up_to sender_type receiver_filter in
    if has_flag receiver_flag msg_except then not matched else matched

-- The search of a queue: what stands before the item that is found, the item, and what follows.
abbrev pub Found : Type 0
Found = Option (List Item × Item × List Item)

unfoldable pub behind : Item → Found → Found
behind item none = none
behind item (some (before, found, after)) = some (item ∷ before, found, after)

unfoldable pub find_item : (Item → Bool) → List Item → Found
unfolding behind
find_item test [] = none
find_item test (item ∷ rest) =
    let later = find_item test rest in
    if test item then some ([], item, rest) else behind item later

-- MSG_COPY: the item at an index.
unfoldable pub find_index : ℤ → ℕ → List Item → Found
unfolding behind equal_int
find_index msgtyp index [] = none
find_index msgtyp index (item ∷ rest) =
    let later = find_index msgtyp (suc index) rest in
    if equal_int (pos index) msgtyp then some ([], item, rest) else behind item later

unfoldable pub find_message : Config → List Item → Found
unfolding has_flag find_index find_item msg_match
find_message config items =
    if has_flag config.msgrcv_msgflg msg_copy
    then find_index config.msgrcv_msgtyp 0 items
    else find_item
        (λ (item : Item). msg_match (to_int item.mtype) config.msgrcv_msgtyp config.msgrcv_msgflg)
        items

-- What a call finds around it: the caller, the time, and how a message is written to the memory
-- of the receiver: an error, or nothing.
pub record Environment : Type 0 where
  pub pid : ℕ
  pub current_time : ℕ
  pub write_data : Item → ℕ → Option Errno
