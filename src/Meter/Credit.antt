-- ===== src/Meter/Credit.antt =====
-- The mutations of src/credit-meter.js. Each loads the file, changes one record and saves.
use j41_sovagent_dispatcher.Prelude.{
  ℕ, suc, ◌+◌, ℤ, pos, ◌+ℤ◌, ◌-ℤ◌, ◌*ℤ◌, leb_ℤ, String, Number, finite, infinite, ltb_num,
  is_finite, sub_num, Bool, true, false, ◌&&◌, Option, none, some, List, [], ◌∷◌, get, put, str_eq,
  if◌then◌else◌,
}
use j41_sovagent_dispatcher.Meter.{
  Usage, Buyer, Meters, MeterFile, load_meters, save_meters, Locked, done, with_meter_lock, Pricing,
}
use j41_sovagent_dispatcher.Meter.Aliases.{
  resolve_buyer_key, apply_buyer_aliases, ensure_buyer, link_buyer_aliases,
}

unfoldable pub find_pricing : List Pricing → String → Option Pricing
find_pricing [] model = none
find_pricing (p ∷ ps) model = if str_eq p.model model then some p else find_pricing ps model

-- The cost at two rates; a rate that is not finite, or negative, costs Infinity.
unfoldable pub cost_at : Number → Number → ℕ → ℕ → Number
cost_at (finite ir) (finite or) input output =
    if leb_ℤ (pos 0) ir && leb_ℤ (pos 0) or
    then finite (pos input *ℤ ir +ℤ pos output *ℤ or)
    else infinite
cost_at _ _ input output = infinite

unfoldable pub calculate_cost : List Pricing → String → ℕ → ℕ → Number
unfolding find_pricing cost_at
calculate_cost pricing model input output = elim (find_pricing pricing model) [
  | none ↦ finite (pos 0)
  | some p ↦ cost_at p.input_token_rate p.output_token_rate input output
]

-- `saveMeters` after the record under `key` was mutated.
abbrev pub save_buyer : Meters → String → Buyer → MeterFile
save_buyer m key b = save_meters (record m { buyers = put m.buyers key b })

-- A number as the file keeps it.
abbrev pub stored : Number → ℤ
stored (finite z) = z
stored _ = pos 0

pub data Reservation : Type 0 where
  denied : ℤ → Number → Reservation
  reserved : Number → Number → Reservation

-- `reserveCredit` once the cost is known.
unfoldable pub reserve_cost : MeterFile → String → Number → ℕ → Reservation × MeterFile
reserve_cost file id cost now =
    let (key, buyer, m) = ensure_buyer (load_meters file) id now in
    if ltb_num (finite buyer.balance) cost then (denied buyer.balance cost, file) else (
      reserved cost (sub_num (finite buyer.balance) cost),
      save_buyer m key (record buyer {
        balance = stored (sub_num (finite buyer.balance) cost);
        last_activity = now;
      }),
    )

unfoldable pub reserve_credit :
    MeterFile → Bool → String → String → ℕ → ℕ → List Pricing → ℕ → Locked Reservation × MeterFile
reserve_credit file lock id model input output pricing now =
    with_meter_lock lock false
      (reserve_cost file id (calculate_cost pricing model input output) now) file

abbrev usage_or_new : Option Usage → Usage
usage_or_new none = record { requests = 0; input_tokens = 0; output_tokens = 0; cost = pos 0 }
usage_or_new (some u) = u

-- `sum += n`, as the file keeps it.
abbrev pub stored_sum : ℤ → Number → ℤ
stored_sum sum (finite z) = sum +ℤ z
stored_sum sum _ = pos 0

-- What `adjustCredit` makes of the record: the true cost is settled, also into debt.
unfoldable pub settle : Buyer → String → ℕ → ℕ → ℤ → Number → ℕ → Buyer
settle buyer model input output reserved_cost actual now =
    let u = usage_or_new (get buyer.usage model) in
    record buyer {
      balance = stored (sub_num (finite buyer.balance) (sub_num actual (finite reserved_cost)));
      total_spent = stored_sum buyer.total_spent actual;
      last_activity = now;
      usage = put buyer.usage model (record {
        requests = suc u.requests;
        input_tokens = u.input_tokens + input;
        output_tokens = u.output_tokens + output;
        cost = stored_sum u.cost actual;
      });
    }

-- The answer is what remains, as it is computed and not as it is stored, and the cost.
unfoldable pub adjust_credit :
    MeterFile
    → Bool
    → String
    → String
    → ℕ
    → ℕ
    → ℤ
    → List Pricing
    → ℕ
    → Locked (Number × Number) × MeterFile
adjust_credit file lock id model input output reserved_cost pricing now =
    let (key, buyer, m) = ensure_buyer (load_meters file) id now in
    let actual = calculate_cost pricing model input output in
    let remaining = sub_num (finite buyer.balance) (sub_num actual (finite reserved_cost)) in
    with_meter_lock lock false
      (
        (remaining, actual),
        save_buyer m key (settle buyer model input output reserved_cost actual now),
      )
      file

unfoldable pub refund_reservation :
    MeterFile → Bool → String → ℤ → ℕ → Locked (Unit {0}) × MeterFile
refund_reservation file lock id reserved_cost now =
    let (key, buyer, m) = ensure_buyer (load_meters file) id now in
    with_meter_lock lock false
      (tt, save_buyer m key (record buyer { balance = buyer.balance +ℤ reserved_cost })) file

-- `txid && buyer.lastDepositTxid === txid`.
unfoldable pub is_credited : Option String → Option String → Bool
is_credited none last = false
is_credited (some t) none = false
is_credited (some t) (some u) = str_eq u t

-- What `creditDeposit` and `reverseDeposit` make of the record. A `txid` that is empty is `none`.
unfoldable pub credit : Buyer → ℤ → Option String → ℕ → Buyer
credit buyer amount txid now =
    if is_credited txid buyer.last_deposit_txid then buyer else record buyer {
      balance = buyer.balance +ℤ amount;
      total_deposited = buyer.total_deposited +ℤ amount;
      last_activity = now;
      last_deposit_txid = elim txid [ none ↦ buyer.last_deposit_txid | some t ↦ some t ];
      low_notified_at = none;
    }

unfoldable pub reverse : Buyer → ℤ → Option String → ℕ → Buyer
reverse buyer amount txid now = record buyer {
  balance = buyer.balance -ℤ amount;
  total_deposited = buyer.total_deposited -ℤ amount;
  last_activity = now;
  last_reversed_txid = elim txid [ none ↦ buyer.last_reversed_txid | some t ↦ some t ];
  last_deposit_txid =
      if is_credited txid buyer.last_deposit_txid then none else buyer.last_deposit_txid;
}

-- `canonical` and `aliases` are the options of `creditDeposit`; a missing canonical is the buyer's id.
unfoldable pub credit_deposit :
    MeterFile → Bool → String → List String → ℤ → Option String → ℕ → Locked ℤ × MeterFile
credit_deposit file lock canonical aliases amount txid now =
    let named = apply_buyer_aliases (load_meters file) canonical aliases now in
    let (key, buyer, m) = ensure_buyer named canonical now in
    let credited = credit buyer amount txid now in
    with_meter_lock lock true (credited.balance, save_buyer m key credited) file

unfoldable pub reverse_deposit :
    MeterFile → Bool → String → ℤ → Option String → ℕ → Locked ℤ × MeterFile
reverse_deposit file lock id amount txid now =
    let (key, buyer, m) = ensure_buyer (load_meters file) id now in
    let reversed = reverse buyer amount txid now in
    with_meter_lock lock true (reversed.balance, save_buyer m key reversed) file

unfoldable pub link_buyer_aliases_for_agent :
    MeterFile → Bool → String → List String → Locked (Unit {0}) × MeterFile
link_buyer_aliases_for_agent file lock canonical aliases =
    if str_eq canonical ""
    then (done tt, file)
    else with_meter_lock lock false
        (tt, save_meters (link_buyer_aliases (load_meters file) canonical aliases)) file

abbrev pub flag_low : MeterFile → String × Buyer × Meters → ℕ → Bool × MeterFile
flag_low file (key, buyer, m) now = elim buyer.low_notified_at [
  | some t ↦ (false, file)
  | none ↦ (true, save_buyer m key (record buyer { low_notified_at = some now }))
]

-- Answers true when the buyer is to be told that the balance is low. It takes no lock.
unfoldable pub check_and_flag_low : MeterFile → String → Number → Number → ℕ → Bool × MeterFile
check_and_flag_low file id balance threshold now =
    if is_finite threshold && (ltb_num (finite (pos 0)) threshold && ltb_num balance threshold)
    then flag_low file (ensure_buyer (load_meters file) id now) now
    else (false, file)

unfoldable pub get_balance : MeterFile → String → ℤ
get_balance file id =
    let m = load_meters file in
    elim (get m.buyers (resolve_buyer_key m id)) [ none ↦ pos 0 | some b ↦ b.balance ]
