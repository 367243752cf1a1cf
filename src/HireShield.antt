-- ===== src/HireShield.antt =====
-- src/hire-shield.js: the spend of one shielded note for a hire, and the choice of the note. A script and a tag are
-- the lists of their code points.
pub mod Conserves
pub mod Choice
pub mod Covering
mod Tests
use j41_sovagent_dispatcher.Prelude.{
  ℕ, ◌+◌, ◌-◌, ◌%◌, ℤ, pos, negsuc, ltb_ℤ, leb_ℤ, ltb, leb, String, Number, finite, Bool, true,
  false, ◌&&◌, ◌||◌, not, Option, none, some, List, [], ◌∷◌, ◌++◌, map, all, length, str_eq,
  if◌then◌else◌,
}

abbrev pub miner_fee_sats : ℕ
miner_fee_sats = 10_000

-- `isSafeInt`, with the integer.
abbrev pub safe_int : Number → Option ℤ
safe_int (finite (pos n)) = if leb n 9_007_199_254_740_991 then some (pos n) else none
safe_int (finite (negsuc n)) = if ltb n 9_007_199_254_740_991 then some (negsuc n) else none
safe_int _ = none

-- A safe integer that is at least `low`.
abbrev pub amount_from : ℕ → Number → Option ℕ
amount_from low (finite (pos n)) = if leb n 9_007_199_254_740_991 && leb low n then some n else none
amount_from low _ = none

is_hex : ℕ → Bool
is_hex c = (leb b'0' c && leb c b'9') || (leb b'a' c && leb c b'f') || (leb b'A' c && leb c b'F')

-- `toLowerCase` on a hexadecimal digit.
lower : ℕ → ℕ
lower c = if leb b'A' c && leb c b'F' then c + 32 else c

abbrev pub has_length : ℕ → List ℕ → Bool
has_length n s = leb n (length s) && leb (length s) n

unfoldable pub nulldata_script : List ℕ → Option (List ℕ)
unfolding lower is_hex
nulldata_script tag =
    if has_length 32 tag && all is_hex tag
    then some (b'6' ∷ b'a' ∷ b'1' ∷ b'0' ∷ map lower tag)
    else none

unfoldable pub is_script_hex : List ℕ → Bool
unfolding is_hex
is_script_hex s = ltb 0 (length s) && (leb (length s % 2) 0 && all is_hex s)

-- The argument of `planHireSpend`; a change address that is no string is the empty one.
pub record SpendInput : Type 0 where
  pub note_value : Number
  pub labour : Number
  pub platform_fee : Number
  pub miner_fee : Number
  pub seller_script : List ℕ
  pub fee_script : List ℕ
  pub tag : List ℕ
  pub change_address : String

pub data Code : Type 0 where
  bad_amount bad_fee bad_script bad_tag note_too_small : Code

pub record SpendPlan : Type 0 where
  pub transparent_outputs : List (List ℕ × ℕ)
  pub shielded_outputs : List (String × ℕ)
  pub fee : ℕ

pub data Planned : Type 0 where
  refused : Code → Planned
  planned : SpendPlan → Planned

-- The outputs, once the amounts, the scripts and the tag are known to be good.
unfoldable pub plan_outputs : SpendInput → ℕ → ℕ → ℕ → ℕ → List ℕ → Planned
plan_outputs input note labour platform miner nulldata =
    if ltb note (labour + platform + miner)
    then refused note_too_small
    else let change = note - (labour + platform + miner) in
      planned (record {
        transparent_outputs =
            (input.seller_script, labour) ∷ (input.fee_script, platform) ∷ (nulldata, 0) ∷ [];
        shielded_outputs = if leb change 0 then [] else (input.change_address, change) ∷ [];
        fee = miner;
      })

unfoldable pub plan_scripts : SpendInput → ℕ → ℕ → ℕ → ℕ → Planned
plan_scripts input note labour platform miner =
    if ltb 100_000 miner
    then refused bad_fee
    else if not (is_script_hex input.seller_script) || not (is_script_hex input.fee_script)
    then refused bad_script
    else if str_eq input.change_address ""
    then refused bad_amount
    else elim (nulldata_script input.tag) [
      | none ↦ refused bad_tag
      | some nulldata ↦ plan_outputs input note labour platform miner nulldata
    ]

unfoldable pub plan_hire_spend : SpendInput → Planned
plan_hire_spend input = elim (amount_from 0 input.note_value) [
  | none ↦ refused bad_amount
  | some note ↦ elim (amount_from 1 input.labour) [
    | none ↦ refused bad_amount
    | some labour ↦ elim (amount_from 1 input.platform_fee) [
      | none ↦ refused bad_amount
      | some platform ↦ elim (amount_from 1 input.miner_fee) [
        | none ↦ refused bad_fee
        | some miner ↦ plan_scripts input note labour platform miner
      ]
    ]
  ]
]

pub record Note : Type 0 where
  pub txid : String
  pub output_index : ℕ
  pub value_sats : Number
  pub height : Number

-- A note with its amount and its height, which are safe integers.
pub record Candidate : Type 0 where
  pub note : Note
  pub value : ℤ
  pub block : ℤ

-- A note that is usable and covers the need; `none` in the list is an entry that is null.
unfoldable pub candidate_of : ℤ → Option Note → Option Candidate
candidate_of need none = none
candidate_of need (some note) = elim (safe_int note.value_sats) [
  | none ↦ none
  | some value ↦ elim (safe_int note.height) [
    | none ↦ none
    | some block ↦
        if ltb_ℤ value need
        then none
        else some (record { note = note; value = value; block = block })
  ]
]

-- A smaller value, or the same value and a lower block.
abbrev pub is_better : Candidate → Candidate → Bool
is_better c best =
    ltb_ℤ c.value best.value
    || ((leb_ℤ c.value best.value && leb_ℤ best.value c.value) && ltb_ℤ c.block best.block)

abbrev pub keep_better : Option Candidate → Option Candidate → Option Candidate
keep_better best none = best
keep_better none (some c) = some c
keep_better (some best) (some c) = if is_better c best then some c else some best

unfoldable pub select_from : ℤ → Option Candidate → List (Option Note) → Option Candidate
select_from need best [] = best
select_from need best (n ∷ notes) = select_from need (keep_better best (candidate_of need n)) notes

unfoldable pub select_covering_note : List (Option Note) → ℕ → Option Candidate
select_covering_note notes need = select_from (pos need) none notes
