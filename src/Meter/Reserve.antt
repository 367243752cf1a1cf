-- ===== src/Meter/Reserve.antt =====
-- Reservations of src/credit-meter.js.
use j41_sovagent_dispatcher.Prelude.{
  ℕ, ℤ, pos, ◌-ℤ◌, ◌≤ℤ◌, ltb_ℤ, String, Number, finite, infinite, neg_infinite, nan, Bool, true,
  false, some, List, ◌≡◌, ◌⊎◌, refl, ap, ◌∙◌, arith, str_eq, eq_refl, sub_num, ltb_num, ◌||◌,
  leb_ℤ_of_not, Bool-cases, inl, inr,
}
use j41_sovagent_dispatcher.Meter.{
  Meters, MeterFile, load_meters, save_meters, with_meter_lock, Locked, done, Pricing,
}
use j41_sovagent_dispatcher.Meter.Aliases.{resolve_buyer_key, ensure_buyer}
use j41_sovagent_dispatcher.Meter.Credit.{
  find_pricing, cost_at, calculate_cost, Reservation, denied, reserved, reserve_cost,
  reserve_credit,
}
use j41_sovagent_dispatcher.Meter.Prices.{
  calculate_cost_cases, calculate_cost_nonneg, calculate_cost_priced,
}
use j41_sovagent_dispatcher.Meter.Balance.{account}
use j41_sovagent_dispatcher.Meter.Balance.Records.{account-save}

-- A granted reservation: the cost is finite, not negative and covered by the balance, and is taken off
-- the buyer's record. Every other record stays as it was.
abbrev pub Granted : MeterFile → String → Number → Locked Reservation × MeterFile → Type 0
Granted file id cost (r, after) =
    let key = resolve_buyer_key (load_meters file) id in
    (c : ℤ) × (cost ≡ finite c)
    × (pos 0 ≤ℤ c)
    × (c ≤ℤ (account file key).balance)
    × (r ≡ done (reserved cost (finite ((account file key).balance -ℤ c))))
    × ((account after key).balance ≡ (account file key).balance -ℤ c)
    × ((k : String) → str_eq key k ≡ false → account after k ≡ account file k)

-- A refused one: the cost is above the balance, and the file stays as it was.
abbrev pub Refused : MeterFile → String → Number → Locked Reservation × MeterFile → Type 0
Refused file id cost (r, after) =
    let key = resolve_buyer_key (load_meters file) id in
    (r ≡ done (denied (account file key).balance cost))
    × (ltb_num (finite (account file key).balance) cost ≡ true)
    × (after ≡ file)

ensure-balance :
    (m : Meters) (id : String) (now : ℕ)
    → (ensure_buyer m id now).1.balance ≡ (account (save_meters m) (resolve_buyer_key m id)).balance
unfolding ensure_buyer
ensure-balance m id now = ground arith

pub unlocked_eq {ℓ} :
    {A : Type ℓ} (lock : Bool) (p : A × MeterFile) (file : MeterFile)
    → with_meter_lock lock false p file ≡ (done p.0, p.1)
unfolding with_meter_lock
unlocked_eq true p file = refl
unlocked_eq false p file = refl

abbrev answer : Reservation × MeterFile → Locked Reservation × MeterFile
answer p = (done p.0, p.1)

reserve_finite :
    (file : MeterFile) (id : String) (c : ℤ) (now : ℕ)
    → pos 0 ≤ℤ c
    → let result = answer (reserve_cost file id (finite c) now) in
      Granted file id (finite c) result ⊎ Refused file id (finite c) result
unfolding reserve_cost sub_num
reserve_finite file id c now nonneg =
    let m = load_meters file in
    let key = resolve_buyer_key m id in
    let buyer = (ensure_buyer m id now).1 in
    let same = ensure-balance m id now in
    let left = record buyer { balance = buyer.balance -ℤ c; last_activity = now } in
    elim (Bool-cases (ltb_ℤ buyer.balance c)) [
      | inl short ↦ inr (rw (short, same) refl, rw (← same) short, rw short refl)
      | inr enough ↦ inl (
        c,
        refl,
        nonneg,
        rw (← same) (leb_ℤ_of_not buyer.balance c enough),
        rw (enough, ← same) refl,
        rw (enough, account-save m id now left key, eq_refl key) (ap (λ z. z -ℤ c) same),
        λ k other. rw (enough, account-save m id now left k, other) refl,
      )
    ]

reserve_infinite :
    (file : MeterFile) (id : String) (now : ℕ)
    → Refused file id infinite (answer (reserve_cost file id infinite now))
unfolding reserve_cost
reserve_infinite file id now =
    (ground (arith, ensure-balance (load_meters file) id now), refl, refl)

-- A reservation, with the lock or without, is either granted at a finite cost that is not negative and
-- that the balance covers, and takes just that off the buyer's record alone; or it is refused because
-- the balance is below the cost, and then the file stays as it was.
pub reserve_credit_cases :
    (file : MeterFile) (lock : Bool) (id model : String) (input output : ℕ) (pricing : List Pricing)
    (now : ℕ)
    → let result = reserve_credit file lock id model input output pricing now in
      let cost = calculate_cost pricing model input output in
      Granted file id cost result ⊎ Refused file id cost result
unfolding reserve_credit
reserve_credit_cases file lock id model input output pricing now =
    let cost = calculate_cost pricing model input output in
    elim (calculate_cost_cases pricing model input output) [
      | inl (c, e) ↦
          rw (unlocked_eq lock (reserve_cost file id cost now) file, e)
            (reserve_finite file id c now (calculate_cost_nonneg pricing model input output c e))
      | inr e ↦
          rw (unlocked_eq lock (reserve_cost file id cost now) file, e)
            (inr (reserve_infinite file id now))
    ]

-- A rate that no price can have: NaN, infinite or negative.
abbrev pub is_broken : Number → Bool
is_broken (finite z) = ltb_ℤ z (pos 0)
is_broken _ = true

broken_cost :
    (ir or : Number) (input output : ℕ)
    → (is_broken ir || is_broken or) ≡ true
    → cost_at ir or input output ≡ infinite
unfolding cost_at
broken_cost (finite ir) (finite or) input output h = ground arith
broken_cost (finite ir) infinite input output h = refl
broken_cost (finite ir) neg_infinite input output h = refl
broken_cost (finite ir) nan input output h = refl
broken_cost _ or input output h = refl

-- Where the model's price has a rate that is NaN, infinite or negative, no reservation is granted: the
-- answer is a refusal at an infinite cost, and the file stays as it was.
pub reserve_credit-broken :
    (file : MeterFile) (lock : Bool) (id model : String) (input output : ℕ) (pricing : List Pricing)
    (now : ℕ) (p : Pricing)
    → find_pricing pricing model ≡ some p
    → (is_broken p.input_token_rate || is_broken p.output_token_rate) ≡ true
    → let result = reserve_credit file lock id model input output pricing now in
      (result.0
        ≡ done (denied (account file (resolve_buyer_key (load_meters file) id)).balance infinite))
      × (result.1 ≡ file)
unfolding reserve_credit
reserve_credit-broken file lock id model input output pricing now p e broken =
    let cost = calculate_cost pricing model input output in
    let dear : cost ≡ infinite =
      calculate_cost_priced pricing model input output p e
      ∙ broken_cost p.input_token_rate p.output_token_rate input output broken in
    let refused = reserve_infinite file id now in
    rw (unlocked_eq lock (reserve_cost file id cost now) file, dear) (refused.0, refused.2)
