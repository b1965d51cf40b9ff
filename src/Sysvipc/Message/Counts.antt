-- ===== src/Sysvipc/Message/Counts.antt =====
-- The statistics of a message queue of proot/src/extension/sysvipc/sysvipc_msg.c count what is in it.
use doki_proot.Prelude.{
  ℕ, suc, ◌+◌, ◌≡◌, refl, sym, ◌∙◌, ap, Bool, true, false, ◌&&◌, ◌||◌, not, Option, none, some,
  List, [], ◌∷◌, ◌++◌, Bytes, length, length-append, ltb, if◌then◌else◌, Errno, Result, ok, fail,
  arith, e_inval, e_2big,
}
use doki_proot.Sysvipc.{ℤ, pos, negsuc, Config, has_flag}
use doki_proot.Sysvipc.Message.{
  Item, Queue, Environment, Found, behind, find_item, find_index, find_message, msg_copy,
  msg_noerror,
}
use doki_proot.Sysvipc.Message.Receive.{msg_deliver, remove_item, do_msgrcv, is_refused, or_wait}
use doki_proot.Sysvipc.Message.Send.{enqueue, wake_receiver, msgsnd}
use doki_proot.Sysvipc.Message.{equal_int, max_msg_size}

unfoldable pub total : List Item → ℕ
total [] = 0
total (item ∷ items) = length item.mtext + total items

abbrev pub IsCounted : Queue → Type 0
IsCounted q = (q.msg_qnum ≡ length q.items) × (q.msg_cbytes ≡ total q.items)

total-append : (xs ys : List Item) → total (xs ++ ys) ≡ total xs + total ys
unfolding total
total-append [] ys = omega arith
total-append (x ∷ xs) ys = omega (arith, total-append xs ys)

-- A search splits the queue.
abbrev Splits : List Item → Found → Type 0
Splits items none = Unit
Splits items (some (before, found, after)) = items ≡ before ++ found ∷ after

behind-Splits :
    (item : Item) (items : List Item) (o : Found)
    → Splits items o
    → Splits (item ∷ items) (behind item o)
unfolding behind
behind-Splits item items none h = tt
behind-Splits item items (some (before, found, after)) h = ap (λ l. item ∷ l) h

Splits-if :
    (b : Bool) (items : List Item) (m n : Found)
    → Splits items m
    → Splits items n
    → Splits items (if b then m else n)
Splits-if true items m n h k = h
Splits-if false items m n h k = k

find_item-Splits : (test : Item → Bool) (items : List Item) → Splits items (find_item test items)
unfolding find_item
find_item-Splits test [] = tt
find_item-Splits test (item ∷ rest) =
    Splits-if (test item) (item ∷ rest) _ _ refl
      (behind-Splits item rest (find_item test rest) (find_item-Splits test rest))

find_index-Splits : (t : ℤ) (i : ℕ) (items : List Item) → Splits items (find_index t i items)
unfolding find_index
find_index-Splits t i [] = tt
find_index-Splits t i (item ∷ rest) =
    Splits-if (equal_int (pos i) t) (item ∷ rest) _ _ refl
      (behind-Splits item rest (find_index t (suc i) rest) (find_index-Splits t (suc i) rest))

find_message-Splits :
    (config : Config) (items : List Item) → Splits items (find_message config items)
unfolding find_message
find_message-Splits config items =
    Splits-if (has_flag config.msgrcv_msgflg msg_copy) items _ _
      (find_index-Splits config.msgrcv_msgtyp 0 items) (find_item-Splits _ items)

-- A delivery changes neither the items nor their counts.
abbrev Keeps : Queue → Result ℕ × Queue → Type 0
Keeps q r = (r.1.items ≡ q.items) × (r.1.msg_qnum ≡ q.msg_qnum) × (r.1.msg_cbytes ≡ q.msg_cbytes)

msg_deliver-Keeps :
    (env : Environment) (config : Config) (q : Queue) (item : Item)
    → Keeps q (msg_deliver env config q item)
unfolding msg_deliver
msg_deliver-Keeps env config q item =
    go (
      ltb config.msgrcv_msgsz (length item.mtext)
      && not (has_flag config.msgrcv_msgflg msg_noerror))
  where
    written :
        (o : Option Errno) (n : ℕ)
        → Keeps q (elim o [
          | some code ↦ (fail code, q)
          | none ↦ (ok n, record q { msg_lrpid = env.pid; msg_rtime = env.current_time })
        ])
    written none n = (refl, refl, refl)
    written (some code) n = (refl, refl, refl)

    go :
        (b : Bool)
        → Keeps q (
            if b
            then (fail e_2big, q)
            else elim (env.write_data item (
                if ltb config.msgrcv_msgsz (length item.mtext)
                then config.msgrcv_msgsz
                else length item.mtext)) [
                  | some code ↦ (fail code, q)
                  | none ↦ (
                    ok (
                        if ltb config.msgrcv_msgsz (length item.mtext)
                        then config.msgrcv_msgsz
                        else length item.mtext),
                    record q { msg_lrpid = env.pid; msg_rtime = env.current_time },
                  )
                ])
    go true = (refl, refl, refl)
    go false =
        written
          (env.write_data item (
            if ltb config.msgrcv_msgsz (length item.mtext)
            then config.msgrcv_msgsz
            else length item.mtext))
          _

Keeps-IsCounted : (q : Queue) (r : Result ℕ × Queue) → IsCounted q → Keeps q r → IsCounted r.1
Keeps-IsCounted q r h k = (k.1 ∙ h.0 ∙ ap length (sym k.0), k.2 ∙ h.1 ∙ ap total (sym k.0))

remove_item-IsCounted :
    (copy : Bool) (q : Queue) (r : Result ℕ × Queue) (before : List Item) (found : Item)
    (after : List Item)
    → IsCounted q
    → Keeps q r
    → q.items ≡ before ++ found ∷ after
    → IsCounted (remove_item copy r before found after).1
unfolding remove_item total
remove_item-IsCounted copy q (fail code, t) before found after h k e =
    Keeps-IsCounted q (fail code, t) h k
remove_item-IsCounted true q (ok n, t) before found after h k e = Keeps-IsCounted q (ok n, t) h k
remove_item-IsCounted false q (ok n, t) before found after h k e =
    let count : q.msg_qnum ≡ length before + suc (length after) =
      h.0 ∙ ap length e ∙ length-append before (found ∷ after) in
    let bytes : q.msg_cbytes ≡ total before + (length found.mtext + total after) =
      h.1 ∙ ap total e ∙ total-append before (found ∷ after) in
    (
      omega (arith, count, k.1, length-append before after),
      omega (arith, bytes, k.2, total-append before after),
    )

-- Receiving keeps the counts of a queue right, on every path: whether the arguments are refused,
-- no message is found, it does not fit, it cannot be written, it is copied, or it is taken out.
pub do_msgrcv-IsCounted :
    (env : Environment) (config : Config) (index : ℕ) (q : Queue)
    → IsCounted q
    → IsCounted (do_msgrcv env config index q).2
unfolding do_msgrcv
do_msgrcv-IsCounted env config index q h = go (is_refused config)
  where
    taken :
        (o : Found)
        → Splits q.items o
        → IsCounted
            (elim o as (λ o. Result ℕ × Config × Queue) [
              | none ↦ ((or_wait index config).0, (or_wait index config).1, q)
              | some (before, found, after) ↦ (
                (remove_item
                    (has_flag config.msgrcv_msgflg msg_copy)
                    (msg_deliver env config q found)
                    before
                    found
                    after).0,
                config,
                (remove_item
                    (has_flag config.msgrcv_msgflg msg_copy)
                    (msg_deliver env config q found)
                    before
                    found
                    after).1,
              )
            ]).2
    taken none s = h
    taken (some (before, found, after)) s =
        remove_item-IsCounted (has_flag config.msgrcv_msgflg msg_copy) q
          (msg_deliver env config q found) before found after h
          (msg_deliver-Keeps env config q found) s

    go :
        (b : Bool)
        → IsCounted
            (if b
              then (fail e_inval, config, q)
              else elim (find_message config q.items) as (λ o. Result ℕ × Config × Queue) [
                | none ↦ ((or_wait index config).0, (or_wait index config).1, q)
                | some (before, found, after) ↦ (
                  (remove_item
                      (has_flag config.msgrcv_msgflg msg_copy)
                      (msg_deliver env config q found)
                      before
                      found
                      after).0,
                  config,
                  (remove_item
                      (has_flag config.msgrcv_msgflg msg_copy)
                      (msg_deliver env config q found)
                      before
                      found
                      after).1,
                )
              ]).2
    go true = h
    go false = taken (find_message config q.items) (find_message-Splits config q.items)

pub enqueue-IsCounted :
    (env : Environment) (q : Queue) (item : Item) → IsCounted q → IsCounted (enqueue env q item)
unfolding enqueue total
enqueue-IsCounted env q item h = (
  omega (arith, h.0, length-append q.items (item ∷ [])),
  omega (arith, h.1, total-append q.items (item ∷ [])),
)

abbrev pub CountsIn : Option (Result ℕ × Queue × List Config) → Type 0
CountsIn none = Unit
CountsIn (some (status, queue, tracees)) = IsCounted queue

CountsIn-if :
    (b : Bool) (m n : Option (Result ℕ × Queue × List Config))
    → CountsIn m
    → CountsIn n
    → CountsIn (if b then m else n)
CountsIn-if true m n h k = h
CountsIn-if false m n h k = k

-- Sending keeps the counts of a queue right, whether the message is refused, cannot be read, or is
-- put into the queue.
pub msgsnd-IsCounted :
    (env : Environment) (index : ℕ) (q : Queue) (tracees : List Config) (msgsz : ℕ)
    (read_type : Result ℤ) (read_text : Result Bytes)
    → IsCounted q
    → CountsIn (msgsnd env index q tracees msgsz read_type read_text)
unfolding msgsnd
msgsnd-IsCounted env index q tracees msgsz (fail code) text h =
    CountsIn-if (ltb max_msg_size msgsz) _ _ h h
msgsnd-IsCounted env index q tracees msgsz (ok (negsuc n)) text h = h
msgsnd-IsCounted env index q tracees msgsz (ok (pos n)) (fail code) h =
    CountsIn-if (ltb max_msg_size msgsz || ltb n 1) _ _ h h
msgsnd-IsCounted env index q tracees msgsz (ok (pos n)) (ok text) h =
    CountsIn-if (ltb max_msg_size msgsz || ltb n 1) _ _ h
      (go (wake_receiver index (record { mtype = n; mtext = text }) tracees))
  where
    go :
        (o : Option (List Config))
        → CountsIn (elim o [
          | none ↦ none
          | some tracees' ↦
              some (ok 0, enqueue env q (record { mtype = n; mtext = text }), tracees')
        ])
    go none = tt
    go (some tracees') = enqueue-IsCounted env q (record { mtype = n; mtext = text }) h
