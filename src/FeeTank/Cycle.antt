-- ===== src/FeeTank/Cycle.antt =====
-- The round of checkFeeTanks in src/cli.js for one agent, and its runs. A round that is still going keeps the next
-- one from starting, so rounds follow one another.
pub mod Sends
pub mod Sound
pub mod Whole
pub mod Spacing
pub mod Alerts
use j41_sovagent_dispatcher.Prelude.{
  ℕ, ◌+◌, ◌≤◌, pos, String, finite, nan, Bool, true, false, not, Option, none, some, List, [], ◌∷◌,
  str_eq, if◌then◌else◌,
}
use j41_sovagent_dispatcher.Spend.{World, Send, fee_sweep}
use j41_sovagent_dispatcher.Spend.Gate.{record_send_outcome}
use j41_sovagent_dispatcher.FeeTank.{
  Utxo, Summary, sum, summarize_utxos, writes_affordable, fee_sats, Reason, needs_external_funding,
  below_floor_unfunded, above_floor, Pending, Plan, plan_fee_sweep, Payment, Answer, Swept, swept,
  execute_fee_sweep, sweep_pending_backstop_ms,
}

-- `resolveOwnRAddress` of src/wallet.js. `none` is a string that is missing or empty, or a refusal.
unfoldable pub resolve_own_r_address : Option String → Option String → Option String
resolve_own_r_address none platform = none
resolve_own_r_address (some derived) none = some derived
resolve_own_r_address (some derived) (some platform) =
    if str_eq platform derived then some derived else none

-- What `_agentErrors` holds for the agent.
pub data Alert : Type 0 where
  no_alert tank_empty disputed_address : Alert
  other_alert : String → Alert

-- What `_feeTankLast` holds.
pub record Snapshot : Type 0 where
  pub tank_sats : ℕ
  pub writes : ℕ
  pub sweepable_sats : ℕ
  pub reason : Reason
  pub at_ms : ℕ

pub record Tank : Type 0 where
  pub pending : Option Pending
  pub alert : Alert
  pub last : Option Snapshot

-- What one round reads; `coins` is `none` where the agent is skipped, having no identity, key or i-address, and where
-- the session or the request for the coins throws: either way the round ends for the agent.
pub record Round : Type 0 where
  pub agent_id : String
  pub wif : String
  pub derived : Option String
  pub platform_address : Option String
  pub coins : Option (List (Option Utxo))
  pub now : ℕ

-- buildPayment and the broadcast, of the SDK and of the platform.
pub record Network : Type 0 where
  pub build : Payment → Option String
  pub broadcast : String → Answer

abbrev pub retract : Alert → Alert
retract tank_empty = no_alert
retract a = a

abbrev pub alert_after : Reason → Alert → Alert
alert_after needs_external_funding a = tank_empty
alert_after below_floor_unfunded a = retract a
alert_after above_floor a = retract a
alert_after _ a = a

abbrev pub sweep_send : Round → String → ℕ → Send
sweep_send r r_address amount = record {
  kind = fee_sweep;
  job_id = r.agent_id;
  to_address = r_address;
  amount = nan;
  amount_sats = some (finite (pos amount));
  job_price = nan;
  expected_recipients = none;
  now = r.now;
}

-- A tank, the files, and the times of the sweeps so far, the latest first.
pub record State : Type 0 where
  pub tank : Tank
  pub world : World
  pub sweeps : List ℕ

abbrev pub settle_sweep : Round → String → State → Swept → State
settle_sweep r r_address st (swept txid amount inputs) = record {
  tank = record st.tank { pending = some (record { txid = txid; at = some r.now }) };
  world = record_send_outcome st.world (sweep_send r r_address amount) (some txid) none;
  sweeps = r.now ∷ st.sweeps;
}
settle_sweep r r_address st _ = st

abbrev pub plan_of : ℕ → Round → String → List (Option Utxo) → Option Pending → Plan
plan_of floor r r_address coins pending =
    let s = summarize_utxos coins r_address in
    plan_fee_sweep (finite (pos (sum s.fee_utxos))) (finite (pos (sum s.sweepable_utxos))) floor
      pending r.now

-- The snapshot and the alert, which are set before the sweep.
abbrev pub noted : ℕ → Round → String → List (Option Utxo) → State → State
noted floor r r_address coins st =
    let s = summarize_utxos coins r_address in
    let p = plan_of floor r r_address coins st.tank.pending in
    record st {
      tank = record st.tank {
        alert = alert_after p.reason st.tank.alert;
        last = some (record {
          tank_sats = sum s.fee_utxos;
          writes = writes_affordable (finite (pos (sum s.fee_utxos))) fee_sats;
          sweepable_sats = sum s.sweepable_utxos;
          reason = p.reason;
          at_ms = r.now;
        });
      };
    }

-- A round once the address is known and the coins are read.
unfoldable pub check_coins : Network → ℕ → Round → String → List (Option Utxo) → State → State
check_coins net floor r r_address coins st =
    let p = plan_of floor r r_address coins st.tank.pending in
    if not p.sweep
    then noted floor r r_address coins st
    else settle_sweep r r_address (noted floor r r_address coins st) (
        execute_fee_sweep net.build net.broadcast r.wif r_address
          (summarize_utxos coins r_address).sweepable_utxos p.amount_sats)

unfoldable pub check_fee_tank : Network → ℕ → Round → State → State
check_fee_tank net floor r st = elim r.coins [
  | none ↦ st
  | some coins ↦ elim (resolve_own_r_address r.derived r.platform_address) [
    | none ↦ record st { tank = record st.tank { alert = disputed_address } }
    | some r_address ↦ check_coins net floor r r_address coins st
  ]
]

unfoldable pub run_rounds : Network → ℕ → List Round → State → State
run_rounds net floor [] st = st
run_rounds net floor (r ∷ rs) st = run_rounds net floor rs (check_fee_tank net floor r st)
