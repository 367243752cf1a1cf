-- ===== src/Lib.antt =====
-- Verification of the dispatcher: the code that holds and moves money.
--
-- The dispatcher runs agents that are paid for jobs and that serve a metered proxy. Seven parts are modelled.
--
-- * Spend models src/spend-policy.js, the gate that every autonomous send asks. Spend.antt has the data: a
--   World is the policy's files, each with the flag that says whether it can be written, and a Send is the
--   argument of gateExternalSend. Spend/RateLimits is refund_limits and the compiled ceilings
--   (dispatcherRateLimits, effectiveLimits), Spend/Addresses the allowlist, Spend/SendHistory the history and the
--   limiter (checkDispatcherRateLimit, recordDispatcherSend), Spend/Answers and Spend/Gate the gate, its ledger
--   lines and recordSendOutcome. Spend/Session is the order in which src/cli.js uses them when hire pays:
--   gate, broadcast, the call that tells the platform, record, with the clock read again; a run is a list of such
--   attempts.
-- * Meter models src/credit-meter.js, the prepaid balances of an agent's buyers. Meter/Aliases is the names of a
--   buyer and the merge of their records, Meter/Credit every mutation (reserveCredit, adjustCredit,
--   refundReservation, creditDeposit, reverseDeposit, checkAndFlagLow), as a function from the file's content and
--   the flag that says whether the file lock was acquired. Meter/Merged is what a merge leaves, and Meter/Balance
--   runs the mutations one after another, with the reservations that each account holds.
-- * FeeTank models src/fee-tank.js: summarizeUtxos, planFeeSweep and executeFeeSweep. buildPayment of the SDK and
--   the broadcast of the platform are parameters, about which nothing is assumed but what they answer.
-- * FeeTank/Cycle models one round of checkFeeTanks in src/cli.js for one agent, with resolveOwnRAddress of
--   src/wallet.js. It records its sweeps through recordSendOutcome of Spend, and runs are lists of rounds.
-- * NonceCache models src/nonce-cache.js: checkNonceAfterVerify, checkAndRecordNonce, hasSeenNonce and the timer
--   that sweeps, as steps on the Map; the cap is a parameter, since the environment sets it.
-- * HireShield models src/hire-shield.js: planHireSpend, with scripts and tags as lists of code points, and
--   selectCoveringNote.
-- * Deposits models src/deposit-watcher.js, the deposits of one seller's agent, with clampCredit of
--   src/deposit-credit.js. Deposits.antt has the data: a Desk is deposits.json, the claims in memory, the balance file
--   of Meter and the moves of money made on it. Deposits/Ledger is the list of credited transactions, the log and
--   the claims; Deposits/Identity and Deposits/Sender the binding of a payment to its buyer; Deposits/Report
--   verifyDepositReport, over NonceCache, and _reportVerifiedDeposit; Deposits/Poll the sweep of pending deposits;
--   Deposits/Evidence, Deposits/Reconcile, Deposits/Recheck and Deposits/Pass _reconcileLocked and
--   _recheckReversals; Deposits/Submit reportDeposit; Deposits/Notify the retries of notifications; Deposits/Operator,
--   Deposits/Audit and Deposits/Anomalies what an operator does and sees. A Fate says where the process dies or a write
--   fails in a credit. Deposits/Once runs them; a retry of notifications carries the ledger that it loaded, since
--   it saves that later.
--
-- Prelude has what they share: integers over the native numbers, JavaScript's numbers with Infinity and NaN,
-- objects as association lists in insertion order, and list operations.
--
-- Numbers. Amounts of Spend and FeeTank are satoshis, those of Meter a unit small enough for every rate; the
-- multiplier of the value limit is in hundredths; times are milliseconds. Finite numbers are exact
-- integers: the rounding of floats is not modelled. A number that is not finite is kept as one, up to
-- where it is written as JSON, which makes it null, and null counts as 0 in the sums that read it.
-- The loops of the modelled code are over lists, so no definition has fuel or a step bound; the list of credited
-- transactions holds 10000, and runs of Deposits/Once keep room in it. Case is folded for ASCII.
--
-- Not modelled: the HTTP of notifications, amounts that are no numbers (a text is stored by recordSendOutcome as it is and
-- later sums append to it, and a report's amount is read by Number, which may give NaN), logging,
-- texts of errors, locks (a mutation runs alone, and its flag says whether it had the lock) and the interleaving
-- of two processes without one, keys that are in JavaScript's prototypes, and every other part of the program:
-- hiring, disputes, the proxy's HTTP, signing, and the interface.
pub mod Prelude
pub mod Spend
pub mod Meter
pub mod FeeTank
pub mod NonceCache
pub mod HireShield
pub mod Deposits
