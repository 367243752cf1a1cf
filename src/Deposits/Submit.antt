-- ===== src/Deposits/Submit.antt =====
-- A deposit report as the HTTP route of src/deposit-watcher.js takes it: its authentication, the deposit lock, and the
-- report.
pub mod Spent
use j41_sovagent_dispatcher.Prelude.{
  ℕ, ℤ, pos, String, Bool, true, false, Option, none, some, List, if◌then◌else◌,
}
use j41_sovagent_dispatcher.NonceCache.{Seen}
use j41_sovagent_dispatcher.Deposits.{Desk}
use j41_sovagent_dispatcher.Deposits.Identity.{Keys}
use j41_sovagent_dispatcher.Deposits.Sender.{Platform}
use j41_sovagent_dispatcher.Deposits.Credit.{Fate}
use j41_sovagent_dispatcher.Deposits.Report.{
  Report, AuthFailure, Auth, authenticated, rejected, verify_deposit_report, ReportAnswer,
  report_verified_deposit,
}

-- The answer: the report is not authenticated, the lock is not acquired, or the ledger answers.
pub data Submitted : Type 0 where
  turned_away : AuthFailure → Submitted
  ledger_busy : Submitted
  answered : ReportAnswer → Submitted

-- What surrounds a report: the check of a signature against an address, the platform, the cap of the nonce cache, and
-- whether the agent has a notify context, the lock is acquired, and the writes are done.
pub record Setting : Type 0 where
  pub verify : Report → String → Bool
  pub platform : Platform
  pub max_entries : ℕ
  pub notifies : Bool
  pub locks : Bool
  pub fate : Fate

-- `Number(report.amount)`, of an amount that is a number or absent; `verifyDepositReport` lets no absent one through.
abbrev pub amount_of : Option ℤ → ℤ
amount_of none = pos 0
amount_of (some a) = a

abbrev pub under_lock : Setting → Report → Seen → Desk → ℕ → Submitted × Seen × Desk
under_lock s r seen k now =
    let (answer, after) =
      report_verified_deposit s.platform s.notifies s.fate k r.buyer r.txid (amount_of r.amount)
        now in
    if s.locks then (answered answer, seen, after) else (ledger_busy, seen, k)

abbrev pub submit : Setting → Report → Desk → ℕ → Auth × Seen → Submitted × Seen × Desk
submit s r k now (authenticated, seen) = under_lock s r seen k now
submit s r k now (rejected f, seen) = (turned_away f, seen, k)

-- `reportDeposit`.
unfoldable pub report_deposit : Setting → Report → Seen → Desk → ℕ → Submitted × Seen × Desk
report_deposit s r seen k now =
    submit s r k now (verify_deposit_report s.verify s.platform.keys s.max_entries r seen now)
