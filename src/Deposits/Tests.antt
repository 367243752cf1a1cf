-- ===== src/Deposits/Tests.antt =====
-- The deposits of src/deposit-watcher.js at concrete inputs.
use j41_sovagent_dispatcher.Prelude.{
  ℕ, suc, ◌≤◌, pos, true, false, none, some, List, [], ◌∷◌, get, put, finite, ◌≡◌, refl, arith,
}
use j41_sovagent_dispatcher.Meter.{with_meter_lock}
use j41_sovagent_dispatcher.Meter.Credit.{credit_deposit}
use j41_sovagent_dispatcher.NonceCache.{
  Seen, check_nonce_after_verify, check_and_record_nonce, evict, ttl_of, run,
}
use j41_sovagent_dispatcher.Deposits.{Desk, required_confirmations, clamp_credit}
use j41_sovagent_dispatcher.Deposits.Identity.{
  Keys, same_buyer_identity, norm_id, strip_chain, trim_codes, resolve_credit_buyer_id,
}
use j41_sovagent_dispatcher.Deposits.Sender.{
  is_verified, other_value, going, Verification, Platform, check_sender, check_verified,
  check_unverified, check_named,
}
use j41_sovagent_dispatcher.Deposits.Sender.Bound.{Bound, check_sender-Bound}
use j41_sovagent_dispatcher.Deposits.Credit.{
  completes, dies_after_money, commit_credit, mark_notify_owed, mark_owed, restart,
}
use j41_sovagent_dispatcher.Deposits.Report.{
  report_verified_deposit, report_status, report_credit, Report, check_signature,
  verify_deposit_report,
}
use j41_sovagent_dispatcher.Deposits.Submit.{Submitted, Setting, report_deposit}
use j41_sovagent_dispatcher.Deposits.Evidence.{ChainInfo, answers}
use j41_sovagent_dispatcher.Deposits.Pass.{Node}
use j41_sovagent_dispatcher.Deposits.Ledger.{
  finalize_credit, finalize_processed, claim_txid, has_credited_txid, record_credit_intent,
  trim_processed, remember_credited_txid, settle_reversed, release_txid,
}
use j41_sovagent_dispatcher.Deposits.Once.{
  Event, reports, restarts, retries, sweeps, passes, IsSafe, credits, debits,
}
use j41_sovagent_dispatcher.Deposits.Notify.{
  delivered, retry_all, retry_pending_notifies, after_send,
}
use j41_sovagent_dispatcher.Deposits.Once as Once
use j41_sovagent_dispatcher.Deposits.Poll.{poll_sweep}
use j41_sovagent_dispatcher.Deposits.Once.Runs.{no_deposits, run_once}

abbrev buyer_keys : Keys
buyer_keys = record { i_address = some "iBuyer"; primary = "Rbuyer" ∷ []; minimum_signatures = 1 }

abbrev paid : Verification
paid = record {
  verified = true;
  reason = none;
  sender_verified = is_verified;
  sender_id = some "iBuyer";
  sender_address = none;
  sender = none;
  from_address = none;
  from = none;
  confirmed_amount = some (finite (pos 90));
}

abbrev platform : Platform
platform = record {
  keys = λ b. some buyer_keys;
  verify = some paid;
  retry = λ p. none;
  status = some (some 0);
}

abbrev fresh : Desk
fresh = record {
  deposits = no_deposits;
  claims = [];
  meter = none;
  recent_reversals = [];
  moves = [];
}

-- A node at whose height the transaction is seen without a confirmation.
abbrev chain : ChainInfo
chain = record {
  block_height = finite (pos 100);
  longest_chain = finite (pos 100);
  connections = finite (pos 8);
  testnet = some true;
}

abbrev node : Node
node = record {
  enabled = true;
  mainnet = false;
  supported = true;
  before = some chain;
  after = some chain;
  status = λ t. answers (some 0);
  suspended = false;
  budget = 10;
  fate = λ t. completes;
  restore_fate = λ t. completes;
}

-- A credit without a confirmation, which dies before it is settled, and the same report again.
abbrev events : List Event
events =
    reports platform true dies_after_money "buyer@" "t1" (pos 100) 1
    ∷ reports platform true completes "buyer@" "t1" (pos 100) 2
    ∷ restarts
    ∷ sweeps (λ t. some (some 2)) true (λ t. completes) 3
    ∷ passes node 4
    ∷ []

-- Everything that the events compute with.
run_open : Desk → List Event → Desk
unfolding Once.run Once.step report_verified_deposit claim_txid has_credited_txid report_status
    report_credit check_sender check_verified check_unverified check_named same_buyer_identity
    norm_id strip_chain trim_codes required_confirmations clamp_credit resolve_credit_buyer_id
    commit_credit record_credit_intent trim_processed remember_credited_txid settle_reversed restart
    poll_sweep release_txid credit_deposit with_meter_lock retry_pending_notifies retry_all
    after_send finalize_credit finalize_processed mark_notify_owed mark_owed
run_open = Once.run

events-IsSafe : IsSafe fresh events
unfolding run_open
events-IsSafe = (
  omega arith,
  tt,
  (omega arith, tt, (omega arith, tt, (omega arith, tt, (omega arith, tt, tt)))),
)

run_once_example :
    credits "t1" (Once.run fresh events).moves ≤ suc (debits "t1" (Once.run fresh events).moves)
run_once_example = run_once fresh events refl refl events-IsSafe "t1"

-- A ledger with a deposit whose notification is owed.
abbrev owing : Desk
owing = Once.run fresh (reports platform true completes "buyer@" "t0" (pos 100) 1 ∷ [])

-- A retry that began before a credit and saves after it: the transaction is forgotten, and credited again once the
-- process has restarted.
overlapped :
    credits "t1"
      (Once.run owing (
        reports platform true completes "buyer@" "t1" (pos 100) 2
        ∷ retries true true (λ r. delivered) 3 owing.deposits
        ∷ reports platform true completes "buyer@" "t2" (pos 100) 4
        ∷ restarts
        ∷ reports platform true completes "buyer@" "t1" (pos 100) 5
        ∷ [])).moves
    ≡ 2
unfolding run_open
overlapped = refl

check_sender-Bound_example : Bound platform "buyer@" paid (check_sender platform "buyer@" paid)
check_sender-Bound_example = check_sender-Bound platform "buyer@" paid tt

-- An answer of null is taken for one that binds: the payment of nobody in particular goes on.
unbound : Verification
unbound = record paid { sender_verified = other_value; sender_id = none }

null_goes_on : check_sender platform "buyer@" unbound ≡ going false unbound
unfolding check_sender check_verified check_unverified check_named unbound
null_goes_on = refl

abbrev report : Report
report = record {
  buyer = "buyer@";
  seller = "seller@";
  txid = "t1";
  amount = some (pos 90);
  nonce = "n1";
  timestamp = 1000;
  signature = "s";
}

-- The lock is taken when the report arrives, and free when it is sent again.
abbrev busy_route : Setting
busy_route = record {
  verify = λ r a. true;
  platform = platform;
  max_entries = 9;
  notifies = true;
  locks = false;
  fate = completes;
}

abbrev free_route : Setting
free_route = record busy_route { locks = true }

-- Everything that a report to the busy route computes with.
submit_open : Setting → Report → Seen → Desk → ℕ → Submitted × Seen × Desk
unfolding report_deposit verify_deposit_report check_signature check_nonce_after_verify
    check_and_record_nonce evict ttl_of get put run
submit_open = report_deposit
