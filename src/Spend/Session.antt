-- ===== src/Spend/Session.antt =====
-- A run of autonomous sends, as the pay path of src/cli.js makes them: each asks the gate of
-- src/spend-policy.js, broadcasts only if allowed, and then records the outcome.
pub mod Keeps
pub mod Steps
pub mod Caps
pub mod Hourly
use j41_sovagent_dispatcher.Prelude.{
  ℕ, ◌≤◌, String, Bool, true, false, Option, none, some, List, [], ◌∷◌, ◌++◌, ◌≡◌, str_eq,
  if◌then◌else◌,
}
use j41_sovagent_dispatcher.Spend.{SendRecord, Send, World}
use j41_sovagent_dispatcher.Spend.SendHistory.Laws.{new_record}
use j41_sovagent_dispatcher.Spend.Answers.{is_external, limiter_key}
use j41_sovagent_dispatcher.Spend.Gate.{gate_external_send, record_send_outcome}

-- What follows on an allowed send: the broadcast throws; it succeeds, but the platform call after it throws, so that
-- the money has moved and is not recorded; or both succeed, and the send is recorded with the clock read again.
pub data Aftermath : Type 0 where
  not_broadcast : Aftermath
  unrecorded : String → Aftermath
  recorded : String → ℕ → Aftermath

pub record Attempt : Type 0 where
  pub send : Send
  pub aftermath : Aftermath

-- The send as it is recorded, at a time of its own.
abbrev pub recorded_send : Attempt → ℕ → Send
recorded_send a later = record a.send { now = later }

-- Gate, broadcast, record; the time where the send was recorded.
unfoldable pub attempt : World → Attempt → World × Option ℕ
attempt w a =
    let (d, w₁) = gate_external_send w a.send in
    if d.allowed
    then elim a.aftermath [
      | not_broadcast ↦ (w₁, none)
      | unrecorded txid ↦ (w₁, none)
      | recorded txid later ↦
          (record_send_outcome w₁ (recorded_send a later) (some txid) none, some later)
    ]
    else (w₁, none)

-- The sends that were made and recorded, oldest first, each under its limiter key.
abbrev pub Trace : Type 0
Trace = List (String × SendRecord)

abbrev pub entry_of : Send → String × SendRecord
entry_of s = (limiter_key s.kind s.job_id, new_record s.amount s.now)

abbrev pub traced : Trace → Attempt → Option ℕ → Trace
traced trace a none = trace
traced trace a (some later) = trace ++ entry_of (recorded_send a later) ∷ []

unfoldable pub run_from : World → Trace → List Attempt → World × Trace
run_from w trace [] = (w, trace)
run_from w trace (a ∷ rest) = let (w', made) = attempt w a in run_from w' (traced trace a made) rest

unfoldable pub run : World → List Attempt → World × Trace
unfolding run_from
run w attempts = run_from w [] attempts

-- The sends of one key, and all of them.
abbrev pub records_of : String → Trace → List SendRecord
records_of k [] = []
records_of k ((j, r) ∷ trace) =
    let rest = records_of k trace in if str_eq j k then r ∷ rest else rest

abbrev pub records : Trace → List SendRecord
records [] = []
records ((j, r) ∷ trace) = r ∷ records trace

-- Every attempt is of a kind that pays someone else.
abbrev pub AllExternal : List Attempt → Type 0
AllExternal [] = Unit {0}
AllExternal (a ∷ rest) = (is_external a.send.kind ≡ true) × AllExternal rest

-- The time at which an attempt ends: that of its record, where there is one, and of its gate otherwise.
abbrev pub ends_at : Attempt → ℕ
ends_at a = elim a.aftermath [
  | not_broadcast ↦ a.send.now
  | unrecorded txid ↦ a.send.now
  | recorded txid later ↦ later
]

-- The clock does not go back, within an attempt and from one to the next.
abbrev pub InOrder : ℕ → List Attempt → Type 0
InOrder t [] = Unit {0}
InOrder t (a ∷ rest) = (t ≤ a.send.now) × (a.send.now ≤ ends_at a) × InOrder (ends_at a) rest
