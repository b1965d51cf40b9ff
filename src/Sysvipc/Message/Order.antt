-- ===== src/Sysvipc/Message/Order.antt =====
-- The order in which messages leave a queue of proot/src/extension/sysvipc/sysvipc_msg.c.
use doki_proot.Prelude.{
  ℕ, zero, suc, ◌<◌, ◌/◌, ◌%◌, ◌==◌, leb, not, ◌≡◌, refl, ap, ◌∙◌, Bool, true, false, none, some,
  List, [], ◌∷◌, ◌++◌, All, Bool-cases, if◌then◌else◌, inl, inr,
}
use doki_proot.Sysvipc.{ℤ, pos, negsuc, Config, has_flag}
use doki_proot.Sysvipc.Message.{
  Item, Environment, Queue, Found, behind, find_item, find_message, msg_match, to_int, msg_copy,
}
use doki_proot.Sysvipc.Message.Send.{enqueue}

-- What is found is the first item that passes the test; none is found only if none passes.
abbrev pub IsFirst : (Item → Bool) → List Item → Found → Type 0
IsFirst test items none = All (λ i. test i ≡ false) items
IsFirst test items (some (before, found, after)) =
    (items ≡ before ++ found ∷ after) × All (λ i. test i ≡ false) before × (test found ≡ true)

-- A positive type of a message, which an int can hold.
abbrev pub IsType : Item → Type 0
IsType item = (0 < item.mtype) × (item.mtype < 2147483648)

-- The rule of msgrcv(2) for the type that is asked for, without MSG_EXCEPT: any for 0, an equal
-- one for a positive number, and one up to its absolute value for a negative number.
unfoldable pub asks_for : ℤ → ℕ → Bool
asks_for (pos zero) mtype = true
asks_for (pos (suc n)) mtype = mtype == suc n
asks_for (negsuc n) mtype = leb mtype (suc n)

-- MSG_EXCEPT asks for all other messages.
unfoldable pub is_asked_for : Config → Item → Bool
unfolding asks_for
is_asked_for config item =
    if (config.msgrcv_msgflg / 8192) % 2 == 1
    then not (asks_for config.msgrcv_msgtyp item.mtype)
    else asks_for config.msgrcv_msgtyp item.mtype

-- Whether a message is for a receiver.
abbrev pub is_for : Config → Item → Bool
is_for config item = msg_match (to_int item.mtype) config.msgrcv_msgtyp config.msgrcv_msgflg

-- A message at the tail: it is found only where nothing was.
abbrev pub with_tail : (Item → Bool) → Item → Found → List Item → Found
with_tail test item none items = if test item then some (items, item, []) else none
with_tail test item (some (before, found, after)) items = some (before, found, after ++ item ∷ [])

behind-with_tail :
    (test : Item → Bool) (item first : Item) (o : Found) (items : List Item)
    → behind first (with_tail test item o items)
      ≡ with_tail test item (behind first o) (first ∷ items)
unfolding behind
behind-with_tail test item first none items = elim (Bool-cases (test item)) [
  | inl e ↦ rw e refl
  | inr e ↦ rw e refl
]
behind-with_tail test item first (some (before, found, after)) items = refl

find_item-with_tail :
    (test : Item → Bool) (items : List Item) (item : Item)
    → find_item test (items ++ item ∷ []) ≡ with_tail test item (find_item test items) items
unfolding find_item behind
find_item-with_tail test [] item = refl
find_item-with_tail test (first ∷ rest) item = elim (Bool-cases (test first)) [
  | inl e ↦ rw (e, find_item) refl
  | inr e ↦
      rw (e, find_item)
        (ap (behind first) (find_item-with_tail test rest item)
          ∙ behind-with_tail test item first (find_item test rest) rest)
]

-- A message that is sent does not overtake: a receiver that does not copy finds what it would have
-- found before, and the new message only if there was none for it.
pub find_message-enqueue :
    (env : Environment) (config : Config) (queue : Queue) (item : Item)
    → has_flag config.msgrcv_msgflg msg_copy ≡ false
    → find_message config (enqueue env queue item).items
      ≡ with_tail (is_for config) item (find_message config queue.items) queue.items
unfolding find_message enqueue
find_message-enqueue env config queue item h =
    rw h (find_item-with_tail (is_for config) queue.items item)
