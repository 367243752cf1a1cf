-- ===== src/HireShield/Tests.antt =====
-- The spend of one note of src/hire-shield.js at concrete amounts.
use j41_sovagent_dispatcher.Prelude.{
  ℕ, zero, suc, ◌+◌, ◌≤◌, ℤ, pos, finite, some, none, List, [], ◌∷◌, Option, ◌≡◌, refl,
}
use j41_sovagent_dispatcher.HireShield.{
  SpendInput, SpendPlan, planned, plan_hire_spend, plan_scripts, plan_outputs, nulldata_script,
  is_script_hex, Note, select_covering_note, miner_fee_sats,
}
use j41_sovagent_dispatcher.HireShield.Conserves.{value_of, plan_hire_spend-conserves}
use j41_sovagent_dispatcher.HireShield.Covering.{
  IsChosen, IsIn, Offers, NotWorse, select_covering_note-best,
}

abbrev zeros : ℕ → List ℕ
zeros zero = []
zeros (suc n) = b'0' ∷ zeros n

abbrev input : SpendInput
input = record {
  note_value = finite (pos 200_000);
  labour = finite (pos 100_000);
  platform_fee = finite (pos 5_000);
  miner_fee = finite (pos miner_fee_sats);
  seller_script = b'7' ∷ b'6' ∷ [];
  fee_script = b'A' ∷ b'9' ∷ [];
  tag = zeros 32;
  change_address = "zs1";
}

abbrev plan : SpendPlan
plan = record {
  transparent_outputs =
      (b'7' ∷ b'6' ∷ [], 100_000)
      ∷ (b'A' ∷ b'9' ∷ [], 5_000)
      ∷ (b'6' ∷ b'a' ∷ b'1' ∷ zeros 33, 0)
      ∷ [];
  shielded_outputs = ("zs1", 85_000) ∷ [];
  fee = 10_000;
}

made : plan_hire_spend input ≡ planned plan
unfolding plan_hire_spend plan_scripts plan_outputs nulldata_script is_script_hex
made = refl

plan_hire_spend-conserves_example :
    (value_of plan.transparent_outputs + value_of plan.shielded_outputs + plan.fee ≡ 200_000)
    × (plan.fee ≤ 100_000)
plan_hire_spend-conserves_example = plan_hire_spend-conserves input 200_000 plan refl made

abbrev note : ℕ → ℕ → Option Note
note value block = some (record {
  txid = "t";
  output_index = 0;
  value_sats = finite (pos value);
  height = finite (pos block);
})

abbrev notes : List (Option Note)
notes = note 90 1 ∷ none ∷ note 300 5 ∷ note 200 9 ∷ note 200 8 ∷ []

select_covering_note-best_example :
    IsChosen (pos 100) notes (select_covering_note notes 100)
    × ((note : Note) (value height : ℤ)
        → IsIn note notes
        → Offers (pos 100) note value height
        → NotWorse (select_covering_note notes 100) value height)
select_covering_note-best_example = select_covering_note-best notes 100
