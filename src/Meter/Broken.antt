-- ===== src/Meter/Broken.antt =====
-- A settlement in src/credit-meter.js at a price that has become invalid since the reservation.
use j41_sovagent_dispatcher.Prelude.{
  ℕ, ℤ, pos, String, infinite, sub_num, add_num, Bool, List, ◌≡◌, refl, eq_refl,
}
use j41_sovagent_dispatcher.Meter.{MeterFile, load_meters, Pricing}
use j41_sovagent_dispatcher.Meter.Aliases.{resolve_buyer_key, ensure_buyer}
use j41_sovagent_dispatcher.Meter.Credit.{calculate_cost, adjust_credit, settle}
use j41_sovagent_dispatcher.Meter.Balance.{account}
use j41_sovagent_dispatcher.Meter.Balance.Records.{account-save}
use j41_sovagent_dispatcher.Meter.Reserve.{unlocked_eq}

-- Where the price of the model is infinite, because a rate of it is invalid, a settlement stores a
-- balance and a total spent that read back as 0, whatever the buyer owned or owed.
pub adjust_credit-infinite :
    (file : MeterFile) (lock : Bool) (id model : String) (input output : ℕ) (cost : ℤ)
    (pricing : List Pricing) (now : ℕ)
    → calculate_cost pricing model input output ≡ infinite
    → let after = (adjust_credit file lock id model input output cost pricing now).1 in
      let b = account after (resolve_buyer_key (load_meters file) id) in
      (b.balance ≡ pos 0) × (b.total_spent ≡ pos 0)
unfolding adjust_credit settle sub_num add_num
adjust_credit-infinite file lock id model input output cost pricing now e =
    let m = load_meters file in
    let key = resolve_buyer_key m id in
    let b = settle (ensure_buyer m id now).1 model input output cost infinite now in
    rw (unlocked_eq lock, e, account-save m id now b key, eq_refl key) (refl, refl)
