-- ===== src/Meter/Tests.antt =====
-- The balances of src/credit-meter.js at concrete inputs.
use j41_sovagent_dispatcher.Prelude.{
  pos, negsuc, ◌+ℤ◌, ◌-ℤ◌, ◌*ℤ◌, finite, nan, sub_num, true, false, none, some, List, [], ◌∷◌, ◌++◌,
  get, put, delete, ◌≡◌, ◌⊎◌, inl, refl,
}
use j41_sovagent_dispatcher.Meter.{MeterFile, load_meters, save_meters, with_meter_lock, Pricing}
use j41_sovagent_dispatcher.Meter.Aliases.{
  resolve_buyer_key, ensure_buyer, apply_buyer_aliases, link_buyer_aliases, merge_aliases, absorb,
  same_tx,
}
use j41_sovagent_dispatcher.Meter.Credit.{
  find_pricing, calculate_cost, reserve_cost, reserve_credit, adjust_credit, settle,
  refund_reservation, is_credited, credit, reverse, credit_deposit, reverse_deposit,
  check_and_flag_low, get_balance,
}
use j41_sovagent_dispatcher.Meter.Balance.{
  account, Balanced, Event, reserves, settles, deposits, step, held_step, merged_held, run,
  held_after,
}
use j41_sovagent_dispatcher.Meter.Balance.Run.{run-Balanced}
use j41_sovagent_dispatcher.Meter.Deposits.{merged_file, credit_deposit_twice}
use j41_sovagent_dispatcher.Meter.Reserve.{
  Granted, Refused, reserve_credit_cases, reserve_credit-broken,
}
use j41_sovagent_dispatcher.Meter.Low.{check_and_flag_low_once}
use j41_sovagent_dispatcher.Meter.Broken.{adjust_credit-infinite}
use j41_sovagent_dispatcher.Meter.Reversal.{reverse_deposit-credit_deposit}

-- Everything that a run computes with.
run_open : MeterFile → List Event → MeterFile
unfolding run step reserve_credit adjust_credit credit_deposit reverse_deposit refund_reservation
    reserve_cost calculate_cost settle credit reverse is_credited with_meter_lock ensure_buyer
    resolve_buyer_key apply_buyer_aliases link_buyer_aliases merge_aliases absorb same_tx get put
    delete sub_num ◌+ℤ◌ ◌-ℤ◌ ◌*ℤ◌ held_after held_step merged_held check_and_flag_low get_balance
run_open = run

abbrev prices : List Pricing
prices =
    record { model = "m"; input_token_rate = finite (pos 2); output_token_rate = finite (pos 3) }
    ∷ record { model = "bad"; input_token_rate = nan; output_token_rate = finite (pos 3) }
    ∷ []

-- A deposit of 100, a reservation of 2 * 10 + 3 * 20 = 80, and a settlement at 2 * 10 + 3 * 30 = 110.
abbrev history : List Event
history =
    deposits true "b" [] (pos 100) (some "t1") 1
    ∷ reserves true "b" "m" 10 20 prices 2
    ∷ settles true "b" "m" 10 30 (pos 80) prices 3
    ∷ []

in_debt : get_balance (run none history) "b" ≡ negsuc 9
unfolding run_open
in_debt = refl

-- The same, and then a deposit that names the identity behind "b".
identified : List Event
identified = history ++ deposits true "i" ("b" ∷ []) (pos 50) (some "t2") 4 ∷ []

identified_balance : get_balance (run none identified) "b" ≡ pos 40
unfolding run_open identified
identified_balance = refl

run-Balanced_example :
    Balanced (account (run none identified) "i") (held_after none identified (λ k. pos 0) "i")
unfolding run_open identified
run-Balanced_example =
    run-Balanced none identified (λ k. pos 0) (tt, (tt, ((pos 110, refl), (tt, tt)))) (λ k. refl)
      "i"

funded : MeterFile
unfolding run_open
funded = run none (deposits true "b" [] (pos 100) (some "t1") 1 ∷ [])

reserve_credit_cases_example :
    let result = reserve_credit funded true "b" "m" 10 20 prices 2 in
    Granted funded "b" (calculate_cost prices "m" 10 20) result
    ⊎ Refused funded "b" (calculate_cost prices "m" 10 20) result
reserve_credit_cases_example = reserve_credit_cases funded true "b" "m" 10 20 prices 2

reserve_credit-broken_example : (reserve_credit funded true "b" "bad" 10 20 prices 2).1 ≡ funded
unfolding find_pricing
reserve_credit-broken_example =
    (reserve_credit-broken funded true "b" "bad" 10 20 prices 2
      (record { model = "bad"; input_token_rate = nan; output_token_rate = finite (pos 3) }) refl
      refl).1

-- A balance under the name that the buyer claims, before its deposit names the identity.
claimed : MeterFile
unfolding run_open
claimed = run none (deposits true "b" [] (pos 100) (some "t0") 1 ∷ [])

credit_deposit_twice_example :
    let (first, file₁) = credit_deposit claimed true "i" ("b" ∷ []) (pos 100) (some "t1") 2 in
    (credit_deposit file₁ true "i" ("b" ∷ []) (pos 70) (some "t1") 3).0 ≡ first
credit_deposit_twice_example =
    (credit_deposit_twice claimed "i" ("b" ∷ []) (pos 100) (pos 70) "t1" 2 3 refl).0

-- The identity has a record with another last transaction: the merge keeps that one, and a transaction that was credited
-- under the claimed name is credited again.
credited_again :
    get_balance
      (credit_deposit
        (credit_deposit claimed true "i" [] (pos 5) (some "t9") 2).1
        true
        "i"
        ("b" ∷ [])
        (pos 100)
        (some "t0")
        3).1
      "i"
    ≡ pos 205
unfolding run_open claimed
credited_again = refl

reverse_deposit-credit_deposit_example :
    (account
      (reverse_deposit
        (credit_deposit claimed true "i" ("b" ∷ []) (pos 7) (some "t1") 2).1
        true
        "b"
        (pos 7)
        (some "t1")
        3).1
      "i").balance
    ≡ (account (save_meters (merged_file claimed "i" ("b" ∷ []) 2)) "i").balance
unfolding run_open claimed
reverse_deposit-credit_deposit_example =
    (reverse_deposit-credit_deposit claimed "i" ("b" ∷ []) "b" (pos 7) "t1" 2 3 refl
      (inl (refl, refl)) refl).0

check_and_flag_low_once_example :
    let after = (check_and_flag_low none "b" (finite (pos 1)) (finite (pos 5)) 7).1 in
    check_and_flag_low after "b" (finite (pos 0)) (finite (pos 5)) 8 ≡ (false, after)
unfolding run_open
check_and_flag_low_once_example =
    check_and_flag_low_once none "b" (finite (pos 1)) (finite (pos 5)) (finite (pos 0))
      (finite (pos 5)) 7 8 refl

adjust_credit-infinite_example :
    (account
      (adjust_credit funded true "b" "bad" 10 20 (pos 80) prices 3).1
      (resolve_buyer_key (load_meters funded) "b")).balance
    ≡ pos 0
adjust_credit-infinite_example =
    (adjust_credit-infinite funded true "b" "bad" 10 20 (pos 80) prices 3
      (unfold calculate_cost in refl)).0
