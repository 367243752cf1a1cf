-- ===== src/Meter/Balance/Run.antt =====
-- The balance of every account over a run of calls of src/credit-meter.js.
use j41_sovagent_dispatcher.Prelude.{
  ℕ, ℤ, pos, ◌+ℤ◌, ◌-ℤ◌, ltb_ℤ, String, finite, infinite, Bool, true, false, Option, List, [], ◌∷◌,
  ◌≡◌, refl, subst, arith, int_laws, sub_num, str_eq, eq_iff, if◌then◌else◌, Bool-cases, inl, inr,
  parts_of_eq,
}
use j41_sovagent_dispatcher.Meter.{
  Buyer, Meters, MeterFile, load_meters, save_meters, with_meter_lock,
}
use j41_sovagent_dispatcher.Meter.Aliases.{resolve_buyer_key, ensure_buyer, apply_buyer_aliases}
use j41_sovagent_dispatcher.Meter.Credit.{
  reserve_cost, reserve_credit, adjust_credit, refund_reservation, credit_deposit, reverse_deposit,
  save_buyer, settle, credit, reverse,
}
use j41_sovagent_dispatcher.Meter.Prices.{calculate_cost_cases}
use j41_sovagent_dispatcher.Meter.Balance.{
  account, Balanced, Event, reserves, settles, refunds, deposits, reverses, step, held_by,
  held_named, held_step, run, held_after, IsPriced, AllPriced,
}
use j41_sovagent_dispatcher.Meter.Balance.Merges.{named-AllHeld}
use j41_sovagent_dispatcher.Meter.Balance.Records.{
  account-save, ensure-Balanced, spend-Balanced, give_back-Balanced, settle-Balanced,
  credit-Balanced, reverse-Balanced,
}

abbrev AllBalanced : MeterFile → (String → ℤ) → Type 0
AllBalanced file held = (k : String) → Balanced (account file k) (held k)

Balanced-zero : (b : Buyer) (held : ℤ) → Balanced b held → Balanced b (held +ℤ pos 0)
Balanced-zero b held h =
    omega (int_laws, parts_of_eq (b.balance +ℤ held +ℤ b.total_spent) b.total_deposited h)

abbrev held_at : String → ℤ → String → ℤ
held_at key amount k = if str_eq key k then amount else pos 0

-- Saving an ensured record that balances with what it now holds keeps every account balanced.
save-AllBalanced :
    (m : Meters) (id : String) (now : ℕ) (b : Buyer) (held : String → ℤ) (more : ℤ)
    → ((k : String) → Balanced (account (save_meters m) k) (held k))
    → Balanced b (held (resolve_buyer_key m id) +ℤ more)
    → let (key, old, m') = ensure_buyer m id now in
      (k : String)
      → Balanced
          (account (save_buyer m' key b) k)
          (held k +ℤ held_at (resolve_buyer_key m id) more k)
save-AllBalanced m id now b held more all h k =
    let key = resolve_buyer_key m id in
    elim (Bool-cases (str_eq key k)) [
      | inl same ↦
          rw (account-save m id now b k, same)
            (subst (λ j. Balanced b (held j +ℤ more)) ((eq_iff key k).0 same) h)
      | inr other ↦
          rw (account-save m id now b k, other)
            (Balanced-zero (account (save_meters m) k) (held k) (all k))
    ]

held_at-zero : (key k : String) → held_at key (pos 0) k ≡ pos 0
held_at-zero key k = ground arith

-- A call that holds nothing and leaves the accounts alone.
idle-AllBalanced :
    (file : MeterFile) (held : String → ℤ) (key : String)
    → AllBalanced file held
    → AllBalanced file (λ k. held k +ℤ held_at key (pos 0) k)
idle-AllBalanced file held key all k =
    rw (held_at-zero key k) (Balanced-zero (account file k) (held k) (all k))

reserve-AllBalanced :
    (file : MeterFile) (id : String) (cost : ℤ) (now : ℕ) (held : String → ℤ)
    → AllBalanced file held
    → AllBalanced (reserve_cost file id (finite cost) now).1 (λ k.
      held k
      +ℤ held_at
          (resolve_buyer_key (load_meters file) id)
          (held_by (reserve_cost file id (finite cost) now).0)
          k)
unfolding reserve_cost sub_num
reserve-AllBalanced file id cost now held all =
    let m = load_meters file in
    let key = resolve_buyer_key m id in
    let buyer = (ensure_buyer m id now).1 in
    elim (Bool-cases (ltb_ℤ buyer.balance cost)) [
      | inl short ↦ rw short (idle-AllBalanced file held key all)
      | inr enough ↦ rw enough (
          save-AllBalanced m id now
            (record buyer { balance = buyer.balance -ℤ cost; last_activity = now }) held cost all
            (spend-Balanced buyer (held key) cost now
              (ensure-Balanced m id now (held key) (all key))))
    ]

-- An infinite cost is above every balance.
infinite-AllBalanced :
    (file : MeterFile) (id : String) (now : ℕ) (held : String → ℤ)
    → AllBalanced file held
    → AllBalanced (reserve_cost file id infinite now).1 (λ k.
      held k
      +ℤ held_at
          (resolve_buyer_key (load_meters file) id)
          (held_by (reserve_cost file id infinite now).0)
          k)
unfolding reserve_cost
infinite-AllBalanced file id now held all = idle-AllBalanced file held _ all

unlocked_lem {ℓ} :
    {A : Type ℓ} (lock : Bool) (p : A × MeterFile) (file : MeterFile)
    → (with_meter_lock lock false p file).1 ≡ p.1
unfolding with_meter_lock
unlocked_lem true p file = refl
unlocked_lem false p file = refl

Balanced-drop : (b : Buyer) (held : ℤ) → Balanced b (held +ℤ pos 0) → Balanced b held
Balanced-drop b held h =
    omega
      (int_laws, parts_of_eq (b.balance +ℤ (held +ℤ pos 0) +ℤ b.total_spent) b.total_deposited h)

deposit-AllBalanced :
    (file : MeterFile) (lock : Bool) (id : String) (aliases : List String) (amount : ℤ)
    (txid : Option String) (now : ℕ) (held : String → ℤ)
    → AllBalanced file held
    → AllBalanced
        (credit_deposit file lock id aliases amount txid now).1
        (held_step file (deposits lock id aliases amount txid now) held)
unfolding credit_deposit with_meter_lock held_step
deposit-AllBalanced file false id aliases amount txid now held all = all
deposit-AllBalanced file true id aliases amount txid now held all = λ k.
    let m = apply_buyer_aliases (load_meters file) id aliases now in
    let holds = held_named (load_meters file) id aliases now held in
    let at = resolve_buyer_key m id in
    let buyer = (ensure_buyer m id now).1 in
    let named : (j : String) → Balanced (account (save_meters m) j) (holds j) =
      named-AllHeld (load_meters file) id aliases now held all in
    let after =
      save-AllBalanced m id now (credit buyer amount txid now) holds (pos 0) named
        (credit-Balanced buyer (holds at) amount txid now
          (ensure-Balanced m id now (holds at) (named at)))
        k in
    Balanced-drop
      (account
        (save_buyer (ensure_buyer m id now).2 (ensure_buyer m id now).0
          (credit buyer amount txid now))
        k)
      (holds k) (rw held_at-zero at after)

reverse-AllBalanced :
    (file : MeterFile) (lock : Bool) (id : String) (amount : ℤ) (txid : Option String) (now : ℕ)
    (held : String → ℤ)
    → AllBalanced file held
    → AllBalanced
        (reverse_deposit file lock id amount txid now).1
        (λ k. held k +ℤ held_at (resolve_buyer_key (load_meters file) id) (pos 0) k)
unfolding reverse_deposit with_meter_lock
reverse-AllBalanced file false id amount txid now held all = idle-AllBalanced file held _ all
reverse-AllBalanced file true id amount txid now held all =
    let m = load_meters file in
    let key = resolve_buyer_key m id in
    let buyer = (ensure_buyer m id now).1 in
    save-AllBalanced m id now (reverse buyer amount txid now) held (pos 0) all (
      reverse-Balanced buyer (held key) amount txid now
        (ensure-Balanced m id now (held key) (all key)))

-- One call keeps every account balanced against what it then holds.
step-AllBalanced :
    (file : MeterFile) (e : Event) (held : String → ℤ)
    → IsPriced e
    → AllBalanced file held
    → AllBalanced (step file e) (held_step file e held)
unfolding step held_step reserve_credit adjust_credit refund_reservation
step-AllBalanced file (reserves lock id model input output pricing now) held _ all =
    elim (calculate_cost_cases pricing model input output) [
      | inl (c, e) ↦ rw (unlocked_lem lock, e) (reserve-AllBalanced file id c now held all)
      | inr e ↦ rw (unlocked_lem lock, e) (infinite-AllBalanced file id now held all)
    ]
step-AllBalanced file (settles lock id model input output cost pricing now) held (c, priced) all =
    let m = load_meters file in
    let key = resolve_buyer_key m id in
    let buyer = (ensure_buyer m id now).1 in
    rw (unlocked_lem lock, priced)
      (save-AllBalanced m id now (settle buyer model input output cost (finite c) now) held
        (pos 0 -ℤ cost) all
        (settle-Balanced buyer (held key) cost c model input output now
          (ensure-Balanced m id now (held key) (all key))))
step-AllBalanced file (refunds lock id cost now) held _ all =
    let m = load_meters file in
    let key = resolve_buyer_key m id in
    let buyer = (ensure_buyer m id now).1 in
    rw (unlocked_lem lock) (
      save-AllBalanced m id now (record buyer { balance = buyer.balance +ℤ cost }) held
        (pos 0 -ℤ cost) all
        (give_back-Balanced buyer (held key) cost (ensure-Balanced m id now (held key) (all key))))
step-AllBalanced file (deposits lock id aliases amount txid now) held _ all =
    deposit-AllBalanced file lock id aliases amount txid now held all
step-AllBalanced file (reverses lock id amount txid now) held _ all =
    reverse-AllBalanced file lock id amount txid now held all

-- Over any run of reservations, settlements at a finite cost, refunds, deposits that may merge the records of a buyer's
-- names, and reversals, with the lock or without, every account's balance, the reservations that it holds
-- and what it has spent add up to its deposits at the end if they do at the start. A merge moves what an
-- alias holds to the canonical account, or forgets it where the alias's record is dropped as a duplicate.
pub run-Balanced :
    (file : MeterFile) (events : List Event) (held : String → ℤ)
    → AllPriced events
    → AllBalanced file held
    → (k : String) → Balanced (account (run file events) k) (held_after file events held k)
unfolding run held_after
run-Balanced file [] held priced all k = all k
run-Balanced file (e ∷ rest) held priced all k =
    run-Balanced (step file e) rest (held_step file e held) priced.1
      (step-AllBalanced file e held priced.0 all) k
