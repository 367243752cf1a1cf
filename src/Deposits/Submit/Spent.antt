-- ===== src/Deposits/Submit/Spent.antt =====
-- What becomes of a report of src/deposit-watcher.js that is sent twice.
use j41_sovagent_dispatcher.Prelude.{Bool, true, false}
use j41_sovagent_dispatcher.Deposits.Report.{Report}
use j41_sovagent_dispatcher.Deposits.Submit.{Submitted, turned_away, ledger_busy, answered}

abbrev pub is_let_in : Submitted → Bool
is_let_in (turned_away f) = false
is_let_in ledger_busy = true
is_let_in (answered a) = true
