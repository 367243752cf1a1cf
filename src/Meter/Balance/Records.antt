-- ===== src/Meter/Balance/Records.antt =====
-- What saving a record of src/credit-meter.js does to the accounts, and the records' own balance.
use j41_sovagent_dispatcher.Prelude.{
  ℕ, ℤ, pos, ◌+ℤ◌, ◌-ℤ◌, String, finite, Option, put, get-put, ◌≡◌, arith, int_laws, str_eq,
  if◌then◌else◌, Bool-cases, parts_of_eq, inl, inr, sub_num,
}
use j41_sovagent_dispatcher.Meter.{Buyer, Meters, new_buyer, save_meters}
use j41_sovagent_dispatcher.Meter.Aliases.{resolve_buyer_key, ensure_buyer}
use j41_sovagent_dispatcher.Meter.Credit.{save_buyer, settle, credit, reverse, is_credited}
use j41_sovagent_dispatcher.Meter.Balance.{account, Balanced}

-- Saving the record of an ensured buyer changes that account alone.
pub account-save :
    (m : Meters) (id : String) (now : ℕ) (b : Buyer) (k : String)
    → let (key, old, m') = ensure_buyer m id now in
      account (save_buyer m' key b) k
      ≡ (if str_eq (resolve_buyer_key m id) k then b else account (save_meters m) k)
unfolding ensure_buyer
account-save m id now b k =
    let key = resolve_buyer_key m id in
    ground (
      arith,
      get-put m.buyers key k b,
      get-put (put m.buyers key (new_buyer now)) key k b,
      get-put m.buyers key k (new_buyer now),
    )

-- The record that is ensured has the balances of the account.
pub ensure-Balanced :
    (m : Meters) (id : String) (now : ℕ) (held : ℤ)
    → Balanced (account (save_meters m) (resolve_buyer_key m id)) held
    → Balanced (ensure_buyer m id now).1 held
unfolding ensure_buyer
ensure-Balanced m id now held h = ground arith

pub ensure-key :
    (m : Meters) (id : String) (now : ℕ) → (ensure_buyer m id now).0 ≡ resolve_buyer_key m id
unfolding ensure_buyer
ensure-key m id now = ground arith

pub spend-Balanced :
    (b : Buyer) (held cost : ℤ) (now : ℕ)
    → Balanced b held
    → Balanced (record b { balance = b.balance -ℤ cost; last_activity = now }) (held +ℤ cost)
spend-Balanced b held cost now h =
    omega (int_laws, parts_of_eq (b.balance +ℤ held +ℤ b.total_spent) b.total_deposited h)

pub give_back-Balanced :
    (b : Buyer) (held cost : ℤ)
    → Balanced b held
    → Balanced (record b { balance = b.balance +ℤ cost }) (held +ℤ (pos 0 -ℤ cost))
give_back-Balanced b held cost h =
    omega (int_laws, parts_of_eq (b.balance +ℤ held +ℤ b.total_spent) b.total_deposited h)

pub settle-Balanced :
    (b : Buyer) (held cost actual : ℤ) (model : String) (input output now : ℕ)
    → Balanced b held
    → Balanced (settle b model input output cost (finite actual) now) (held +ℤ (pos 0 -ℤ cost))
unfolding settle sub_num
settle-Balanced b held cost actual model input output now h =
    omega (int_laws, parts_of_eq (b.balance +ℤ held +ℤ b.total_spent) b.total_deposited h)

pub credit-Balanced :
    (b : Buyer) (held amount : ℤ) (txid : Option String) (now : ℕ)
    → Balanced b held
    → Balanced (credit b amount txid now) (held +ℤ pos 0)
unfolding credit
credit-Balanced b held amount txid now h =
    let e = parts_of_eq (b.balance +ℤ held +ℤ b.total_spent) b.total_deposited h in
    elim (Bool-cases (is_credited txid b.last_deposit_txid)) [
      | inl old ↦ rw old (omega (int_laws, e))
      | inr new ↦ rw new (omega (int_laws, e))
    ]

pub reverse-Balanced :
    (b : Buyer) (held amount : ℤ) (txid : Option String) (now : ℕ)
    → Balanced b held
    → Balanced (reverse b amount txid now) (held +ℤ pos 0)
unfolding reverse
reverse-Balanced b held amount txid now h =
    omega (int_laws, parts_of_eq (b.balance +ℤ held +ℤ b.total_spent) b.total_deposited h)
