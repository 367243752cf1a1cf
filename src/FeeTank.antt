-- ===== src/FeeTank.antt =====
-- src/fee-tank.js: sweeping an agent's earnings into the address that pays its fees. Amounts are satoshis.
pub mod Laws
pub mod Cycle
mod Tests
use j41_sovagent_dispatcher.Prelude.{
  ℕ, ◌+◌, ◌-◌, ◌*◌, ◌/◌, ℤ, pos, sub_ℕ, ltb_ℤ, ltb, leb, String, Number, finite, Bool, true, false,
  ◌||◌, ◌&&◌, not, Option, none, some, List, [], ◌∷◌, length, any, str_eq, if◌then◌else◌,
}

abbrev pub fee_sats : ℕ
fee_sats = 10_000

abbrev pub default_floor_writes : ℕ
default_floor_writes = 100

abbrev pub default_min_sweep_sats : ℕ
default_min_sweep_sats = 200_000

abbrev pub sweep_pending_backstop_ms : ℕ
sweep_pending_backstop_ms = 1_800_000

-- `Number.isSafeInteger(x) && x >= 0`, with the integer.
abbrev pub safe_nat : Number → Option ℕ
safe_nat (finite (pos n)) = if leb n 9_007_199_254_740_991 then some n else none
safe_nat _ = none

-- `none` is an address that is missing or empty.
pub record Utxo : Type 0 where
  pub address : Option String
  pub satoshis : Number

pub record Summary : Type 0 where
  pub fee_utxos : List Utxo
  pub sweepable_utxos : List Utxo

abbrev pub sats_of : Utxo → ℕ
sats_of u = elim (safe_nat u.satoshis) [ none ↦ 0 | some n ↦ n ]

unfoldable pub sum : List Utxo → ℕ
sum [] = 0
sum (u ∷ us) = sats_of u + sum us

-- `!u.address || u.address === rAddress`.
abbrev pub pays_fees : String → Utxo → Bool
pays_fees r_address u = elim u.address [ none ↦ true | some a ↦ str_eq a r_address ]

abbrev pub add_utxo : String → Utxo → Summary → Summary
add_utxo r_address u s =
    if leb (sats_of u) 0
    then s
    else if pays_fees r_address u
    then record s { fee_utxos = u ∷ s.fee_utxos }
    else record s { sweepable_utxos = u ∷ s.sweepable_utxos }

-- `none` in the list is an entry that is null. `feeSats` and `sweepableSats` are the sums of the two lists.
unfoldable pub summarize_utxos : List (Option Utxo) → String → Summary
summarize_utxos [] r_address = record { fee_utxos = []; sweepable_utxos = [] }
summarize_utxos (none ∷ us) r_address = summarize_utxos us r_address
summarize_utxos (some u ∷ us) r_address = add_utxo r_address u (summarize_utxos us r_address)

-- `Math.floor(sats / feeSats)`, and 0 for numbers that are no amount.
unfoldable pub writes_affordable : Number → ℕ → ℕ
writes_affordable (finite (pos sats)) fee = if leb fee 0 then 0 else sats / fee
writes_affordable _ fee = 0

pub data Reason : Type 0 where
  invalid_balances above_floor sweep_pending needs_external_funding : Reason
  below_floor_unfunded below_min_sweep below_floor : Reason

-- A sweep that was broadcast; `none` is a time that is no finite number.
pub record Pending : Type 0 where
  pub txid : String
  pub at : Option ℕ

pub record Plan : Type 0 where
  pub sweep : Bool
  pub reason : Reason
  pub amount_sats : ℕ

abbrev pub stay : Reason → Plan
stay r = record { sweep = false; reason = r; amount_sats = 0 }

-- `now - pending.at < backstopMs`; an unusable time counts as pending.
abbrev pub is_pending : Option Pending → ℕ → ℕ → Bool
is_pending none now backstop = false
is_pending (some p) now backstop = elim p.at [
  | none ↦ true
  | some at_ms ↦ ltb_ℤ (sub_ℕ now at_ms) (pos backstop)
]

-- The tests after the pending one. The network fee and the minimum are the defaults.
unfoldable pub plan_amount : ℕ → ℕ → Plan
plan_amount tank sweepable =
    if leb sweepable 0
    then stay (if ltb tank fee_sats then needs_external_funding else below_floor_unfunded)
    else if ltb sweepable default_min_sweep_sats
        && not (ltb tank fee_sats && leb (fee_sats + fee_sats) sweepable)
    then stay below_min_sweep
    else if leb sweepable fee_sats
    then stay below_min_sweep
    else record { sweep = true; reason = below_floor; amount_sats = sweepable - fee_sats }

unfoldable pub plan_fee_sweep : Number → Number → ℕ → Option Pending → ℕ → Plan
plan_fee_sweep tank sweepable floor_writes pending now = elim (safe_nat tank) [
  | none ↦ stay invalid_balances
  | some f ↦ elim (safe_nat sweepable) [
    | none ↦ stay invalid_balances
    | some s ↦
        if leb (floor_writes * fee_sats) f
        then stay above_floor
        else if is_pending pending now sweep_pending_backstop_ms
        then stay sweep_pending
        else plan_amount f s
  ]
]

-- The argument of `buildPayment`, with its amount in satoshis.
pub record Payment : Type 0 where
  pub wif : String
  pub to_address : String
  pub amount_sats : ℕ
  pub utxos : List Utxo
  pub fee : ℕ

-- What the broadcast does: it throws, or it answers with or without a txid.
pub data Answer : Type 0 where
  rejected : Answer
  answered : Option String → Answer

pub data Swept : Type 0 where
  missing_key nothing_to_sweep non_positive_amount refusing_r_inputs : Swept
  build_failed broadcast_rejected no_txid : Swept
  swept : String → ℕ → ℕ → Swept

abbrev pub send_sweep : (String → Answer) → Payment → Option String → Swept
send_sweep broadcast p none = build_failed
send_sweep broadcast p (some hex) = elim (broadcast hex) [
  | rejected ↦ broadcast_rejected
  | answered none ↦ no_txid
  | answered (some txid) ↦ swept txid p.amount_sats (length p.utxos)
]

-- `build` is `none` where buildPayment throws. The key and the address are the strings, empty where missing.
unfoldable pub execute_fee_sweep :
    (Payment → Option String) → (String → Answer) → String → String → List Utxo → ℕ → Swept
execute_fee_sweep build broadcast wif r_address utxos amount =
    if str_eq wif "" || str_eq r_address ""
    then missing_key
    else if leb (length utxos) 0
    then nothing_to_sweep
    else if leb amount 0
    then non_positive_amount
    else if any (pays_fees r_address) utxos
    then refusing_r_inputs
    else let p : Payment = record {
      wif = wif;
      to_address = r_address;
      amount_sats = amount;
      utxos = utxos;
      fee = fee_sats;
    } in
      send_sweep broadcast p (build p)
