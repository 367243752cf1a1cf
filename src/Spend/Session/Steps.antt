-- ===== src/Spend/Session/Steps.antt =====
-- One attempt of a run of sends (src/cli.js over src/spend-policy.js), as the caps see it.
use j41_sovagent_dispatcher.Prelude.{
  ℕ, ◌<◌, String, true, Option, none, some, length, keep, ◌≡◌, refl, ap, ◌∙◌, arith, Bool-cases,
  inl, inr,
}
use j41_sovagent_dispatcher.Spend.{Send, World}
use j41_sovagent_dispatcher.Spend.SendHistory.{load_send_history, sends_of, is_recent, record_send}
use j41_sovagent_dispatcher.Spend.SendHistory.Laws.{
  load-record_dispatcher_send, kept-record_dispatcher_send,
}
use j41_sovagent_dispatcher.Spend.Answers.{is_external, limiter_key}
use j41_sovagent_dispatcher.Spend.Gate.{gate_external_send, record_send_outcome}
use j41_sovagent_dispatcher.Spend.Gate.Bounded.{gate-IsBounded}
use j41_sovagent_dispatcher.Spend.Session.{
  Aftermath, not_broadcast, unrecorded, recorded, Attempt, recorded_send, attempt, ends_at,
}
use j41_sovagent_dispatcher.Spend.Session.Keeps.{gate-Keeps, load-Keeps}

load-record_send_outcome :
    (w : World) (s : Send) (txid denial : Option String)
    → is_external s.kind ≡ true
    → w.history_writable ≡ true
    → load_send_history (record_send_outcome w s txid denial)
      ≡ record_send (load_send_history w) (limiter_key s.kind s.job_id) s.amount s.now
unfolding record_send_outcome load_send_history
load-record_send_outcome w s txid denial ext h =
    ground (arith, load-record_dispatcher_send w (limiter_key s.kind s.job_id) s.amount s.now h)

kept-record_send_outcome :
    (w : World) (s : Send) (txid denial : Option String)
    → (record_send_outcome w s txid denial).history_writable ≡ w.history_writable
unfolding record_send_outcome
kept-record_send_outcome w s txid denial =
    ground (arith, kept-record_dispatcher_send w (limiter_key s.kind s.job_id) s.amount s.now)

-- What a recorded send found in the history, and what it left there, at the time of its record.
pub record Made (w : World) (s : Send) (later : ℕ) (w' : World) : Type 0 where
  pub few : length (sends_of (limiter_key s.kind s.job_id) (load_send_history w)) < 10
  pub hourly : length (keep (is_recent s.now) (load_send_history w).global) < 100
  pub recorded :
      load_send_history w'
      ≡ record_send (load_send_history w) (limiter_key s.kind s.job_id) s.amount later
  pub kept : w'.history_writable ≡ true

pub record Unmade (w w' : World) : Type 0 where
  pub unchanged : load_send_history w' ≡ load_send_history w
  pub kept : w'.history_writable ≡ true

abbrev pub Outcome : World → Attempt → World × Option ℕ → Type 0
Outcome w a (w', none) = Unmade w w'
Outcome w a (w', some later) = (ends_at a ≡ later) × Made w a.send later w'

sent-Made :
    (w : World) (a : Attempt) (txid : String) (later : ℕ)
    → is_external a.send.kind ≡ true
    → w.history_writable ≡ true
    → (gate_external_send w a.send).0.allowed ≡ true
    → Made w a.send later (
        record_send_outcome
          (gate_external_send w a.send).1
          (recorded_send a later)
          (some txid)
          none)
sent-Made w a txid later ext h allowed =
    let s = a.send in
    let v = (gate_external_send w s).1 in
    let same = gate-Keeps w s in
    let ((amount, e, b), log) = gate-IsBounded w s ext allowed in
    let writable : v.history_writable ≡ true = same.kept ∙ h in
    record {
      few = b.few;
      hourly = b.hourly;
      recorded =
          load-record_send_outcome v (recorded_send a later) (some txid) none ext writable
          ∙ ap (λ h. record_send h (limiter_key s.kind s.job_id) s.amount later) (load-Keeps same);
      kept = kept-record_send_outcome v (recorded_send a later) (some txid) none ∙ writable;
    }

unmade :
    (w : World) (a : Attempt) → w.history_writable ≡ true → Unmade w (gate_external_send w a.send).1
unmade w a h =
    let same = gate-Keeps w a.send in record { unchanged = load-Keeps same; kept = same.kept ∙ h }

-- An attempt either is recorded within the caps or leaves the history as it was.
pub attempt-Outcome :
    (w : World) (a : Attempt)
    → is_external a.send.kind ≡ true
    → w.history_writable ≡ true
    → Outcome w a (attempt w a)
unfolding attempt
attempt-Outcome w a ext h = elim (Bool-cases (gate_external_send w a.send).0.allowed) [
  | inl yes' ↦ rw yes' (after a.aftermath refl yes')
  | inr no' ↦ rw no' (unmade w a h)
]
  where
    after :
        (o : Aftermath)
        → a.aftermath ≡ o
        → (gate_external_send w a.send).0.allowed ≡ true
        → Outcome w a (elim o as (λ _. World × Option ℕ) [
          | not_broadcast ↦ ((gate_external_send w a.send).1, none)
          | unrecorded txid ↦ ((gate_external_send w a.send).1, none)
          | recorded txid later ↦ (
            record_send_outcome
                (gate_external_send w a.send).1
                (recorded_send a later)
                (some txid)
                none,
            some later,
          )
        ])
    after not_broadcast e allowed = unmade w a h
    after (unrecorded txid) e allowed = unmade w a h
    after (recorded txid later) e allowed = (rw e refl, sent-Made w a txid later ext h allowed)
