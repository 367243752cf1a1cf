-- ===== src/Spend/SendHistory/Laws.antt =====
-- What recording a send in the history of src/spend-policy.js does to the counts that are read back.
use j41_sovagent_dispatcher.Prelude.{
  ℕ, suc, ◌≤◌, ◌<◌, String, Number, true, [], ◌∷◌, ◌++◌, length, keep, ◌≡◌, refl, arith, str_eq,
  if◌then◌else◌, get-put, length-put-le,
}
use j41_sovagent_dispatcher.Spend.{SendRecord, History, World}
use j41_sovagent_dispatcher.Spend.SendHistory.{
  load_send_history, save_send_history, sends_of, is_recent, stored_amount, record_send,
  record_dispatcher_send,
}

abbrev pub new_record : Number → ℕ → SendRecord
new_record amount now = record { timestamp = now; amount = stored_amount amount }

pub record_send-global :
    (h : History) (key : String) (amount : Number) (now : ℕ)
    → (record_send h key amount now).global
      ≡ keep (is_recent now) (h.global ++ new_record amount now ∷ [])
unfolding record_send
record_send-global h key amount now = refl

-- While there is room for the key, each key's sends are those it had, with the new one last.
pub sends_of-record_send :
    (h : History) (key k : String) (amount : Number) (now : ℕ)
    → length h.per_job < 5000
    → sends_of k (record_send h key amount now)
      ≡ (if str_eq key k then sends_of key h ++ new_record amount now ∷ [] else sends_of k h)
unfolding record_send
sends_of-record_send h key k amount now room =
    let sends = sends_of key h ++ new_record amount now ∷ [] in
    ground (arith, length-put-le h.per_job key sends, get-put h.per_job key k sends)

pub length-record_send :
    (h : History) (key : String) (amount : Number) (now : ℕ)
    → length h.per_job < 5000
    → length (record_send h key amount now).per_job ≤ suc (length h.per_job)
unfolding record_send
length-record_send h key amount now room =
    let sends = sends_of key h ++ new_record amount now ∷ [] in
    ground (arith, length-put-le h.per_job key sends)

-- A write that succeeds is read back.
pub load-record_dispatcher_send :
    (w : World) (key : String) (amount : Number) (now : ℕ)
    → w.history_writable ≡ true
    → load_send_history (record_dispatcher_send w key amount now)
      ≡ record_send (load_send_history w) key amount now
unfolding record_dispatcher_send save_send_history load_send_history
load-record_dispatcher_send w key amount now h = rw h

pub kept-record_dispatcher_send :
    (w : World) (key : String) (amount : Number) (now : ℕ)
    → (record_dispatcher_send w key amount now).history_writable ≡ w.history_writable
unfolding record_dispatcher_send save_send_history
kept-record_dispatcher_send w key amount now = ground arith
