-- ===== src/Meter/Balance.antt =====
-- Histories of calls of src/credit-meter.js: reservations, settlements, refunds, deposits and reversals,
-- with the reservations that are held.
pub mod Records
pub mod Merges
pub mod Run
use j41_sovagent_dispatcher.Prelude.{
  ℕ, ℤ, pos, ◌+ℤ◌, ◌-ℤ◌, String, finite, Bool, true, false, not, ◌&&◌, Option, none, some, List, [],
  ◌∷◌, Dict, get, put, delete, ◌≡◌, Number, str_eq, if◌then◌else◌,
}
use j41_sovagent_dispatcher.Meter.{Buyer, Meters, MeterFile, load_meters, Pricing, new_buyer}
use j41_sovagent_dispatcher.Meter.Aliases.{resolve_buyer_key, buyer_or_new, absorb, same_tx}
use j41_sovagent_dispatcher.Meter.Merged.{is_skipped}
use j41_sovagent_dispatcher.Meter.Credit.{
  Reservation, denied, reserved, stored, calculate_cost, reserve_cost, reserve_credit,
  adjust_credit, refund_reservation, credit_deposit, reverse_deposit,
}

-- The record under a key, or the empty record that would be put there.
abbrev pub account : MeterFile → String → Buyer
account file k = buyer_or_new 0 (get (load_meters file).buyers k)

-- `held` is what is reserved and neither settled nor refunded.
abbrev pub Balanced : Buyer → ℤ → Type 0
Balanced b held = b.balance +ℤ held +ℤ b.total_spent ≡ b.total_deposited

-- One call. The flag says whether the file lock was acquired.
pub data Event : Type 0 where
  reserves : Bool → String → String → ℕ → ℕ → List Pricing → ℕ → Event
  settles : Bool → String → String → ℕ → ℕ → ℤ → List Pricing → ℕ → Event
  refunds : Bool → String → ℤ → ℕ → Event
  deposits : Bool → String → List String → ℤ → Option String → ℕ → Event
  reverses : Bool → String → ℤ → Option String → ℕ → Event

unfoldable pub step : MeterFile → Event → MeterFile
step file (reserves lock id model input output pricing now) =
    (reserve_credit file lock id model input output pricing now).1
step file (settles lock id model input output cost pricing now) =
    (adjust_credit file lock id model input output cost pricing now).1
step file (refunds lock id cost now) = (refund_reservation file lock id cost now).1
step file (deposits lock id aliases amount txid now) =
    (credit_deposit file lock id aliases amount txid now).1
step file (reverses lock id amount txid now) = (reverse_deposit file lock id amount txid now).1

abbrev pub held_by : Reservation → ℤ
held_by (denied balance cost) = pos 0
held_by (reserved cost balance) = stored cost

-- What a call adds to the reservations held under the key that it works on.
abbrev pub holds : MeterFile → Event → ℤ
holds file (reserves lock id model input output pricing now) =
    held_by (reserve_cost file id (calculate_cost pricing model input output) now).0
holds file (settles lock id model input output cost pricing now) = pos 0 -ℤ cost
holds file (refunds lock id cost now) = pos 0 -ℤ cost
holds file _ = pos 0

abbrev pub id_of : Event → String
id_of (reserves lock id model input output pricing now) = id
id_of (settles lock id model input output cost pricing now) = id
id_of (refunds lock id cost now) = id
id_of (deposits lock id aliases amount txid now) = id
id_of (reverses lock id amount txid now) = id

abbrev pub holds_at : MeterFile → Event → String → ℤ
holds_at file e k =
    if str_eq (resolve_buyer_key (load_meters file) (id_of e)) k then holds file e else pos 0

unfoldable pub run : MeterFile → List Event → MeterFile
run file [] = file
run file (e ∷ rest) = run (step file e) rest

-- What an alias holds goes to the canonical record with its money, and is forgotten with a record that is dropped.
abbrev pub moved : String → String → Bool → (String → ℤ) → String → ℤ
moved canonical a dropped held k =
    if str_eq a k
    then pos 0
    else if str_eq canonical k && not dropped
    then held k +ℤ held a
    else held k

-- What is held once the aliases of a buyer are merged, along the loop of `merge_aliases`.
unfoldable pub merged_held : String → List String → Buyer → Dict Buyer → (String → ℤ) → String → ℤ
merged_held canonical [] canon buyers held = held
merged_held canonical (a ∷ more) canon buyers held =
    let next : Buyer × Dict Buyer × (String → ℤ) =
      if is_skipped canonical a then (canon, buyers, held) else elim (get buyers a) [
        | none ↦ (canon, buyers, held)
        | some other ↦ (
          absorb canon other,
          delete (put buyers canonical (absorb canon other)) a,
          moved canonical a (same_tx other canon) held,
        )
      ] in
    merged_held canonical more next.0 next.1 next.2

abbrev pub held_named : Meters → String → List String → ℕ → (String → ℤ) → String → ℤ
held_named m canonical aliases now held =
    let canon = buyer_or_new now (get m.buyers canonical) in
    if str_eq canonical ""
    then held
    else merged_held canonical aliases canon (put m.buyers canonical canon) held

-- What is held after a call. A deposit merges the records of the names of its buyer, if it has the lock.
unfoldable pub held_step : MeterFile → Event → (String → ℤ) → String → ℤ
held_step file (deposits true id aliases amount txid now) held =
    held_named (load_meters file) id aliases now held
held_step file (deposits false id aliases amount txid now) held = held
held_step file e held = λ k. held k +ℤ holds_at file e k

-- The reservations held under each key at the end of a run, from those held at its start.
unfoldable pub held_after : MeterFile → List Event → (String → ℤ) → String → ℤ
held_after file [] held = held
held_after file (e ∷ rest) held = held_after (step file e) rest (held_step file e held)

-- A settlement is priced: its cost is a finite number.
abbrev pub IsPriced : Event → Type 0
IsPriced (settles lock id model input output cost pricing now) =
    (c : ℤ) × (calculate_cost pricing model input output ≡ finite c)
IsPriced _ = Unit

abbrev pub AllPriced : List Event → Type 0
AllPriced [] = Unit
AllPriced (e ∷ rest) = IsPriced e × AllPriced rest
