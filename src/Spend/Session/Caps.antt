-- ===== src/Spend/Session/Caps.antt =====
-- The lifetime cap of a job over a whole run of sends (src/spend-policy.js).
use j41_sovagent_dispatcher.Prelude.{
  ℕ, ◌+◌, ◌≤◌, ◌<◌, String, true, Option, none, some, List, [], ◌∷◌, ◌++◌, length, ◌≡◌, ap, ◌∙◌,
  arith, str_eq, eq_iff, get, if◌then◌else◌, length-append,
}
use j41_sovagent_dispatcher.Spend.{SendRecord, World}
use j41_sovagent_dispatcher.Spend.SendHistory.{load_send_history, sends_of}
use j41_sovagent_dispatcher.Spend.SendHistory.Laws.{
  new_record, sends_of-record_send, length-record_send,
}
use j41_sovagent_dispatcher.Spend.Answers.{limiter_key}
use j41_sovagent_dispatcher.Spend.Session.{
  Attempt, recorded_send, attempt, Trace, entry_of, traced, run_from, run, records_of, AllExternal,
}
use j41_sovagent_dispatcher.Spend.Session.Steps.{Made, Unmade, Outcome, attempt-Outcome}

records_of-append :
    (k j : String) (r : SendRecord) (trace : Trace)
    → records_of k (trace ++ (j, r) ∷ [])
      ≡ (if str_eq j k then records_of k trace ++ r ∷ [] else records_of k trace)
records_of-append k j r [] = ground arith
records_of-append k j r ((i, q) ∷ trace) = ground (arith, records_of-append k j r trace)

-- The history file holds the sends of the trace, and no key has more than ten.
record Tracks (w : World) (trace : Trace) : Type 0 where
  kept : w.history_writable ≡ true
  same : (k : String) → sends_of k (load_send_history w) ≡ records_of k trace
  room : length (load_send_history w).per_job ≤ length trace
  few : (k : String) → length (records_of k trace) ≤ 10

module _ {w w' : World} {later : ℕ} {trace : Trace} (a : Attempt) (m : Made w a.send later w')
    (t : Tracks w trace) (space : length trace < 5000) where
  made-same :
      (k : String)
      → sends_of k (load_send_history w')
        ≡ records_of k (trace ++ entry_of (recorded_send a later) ∷ [])
  made-same k =
      let key = limiter_key a.send.kind a.send.job_id in
      rw m.recorded (
        ground (
          arith,
          sends_of-record_send (load_send_history w) key k a.send.amount later,
          records_of-append k key (new_record a.send.amount later) trace,
          t.same k,
          t.same key,
          t.room,
          eq_iff key k,
        ))

  made-few :
      (k : String) → length (records_of k (trace ++ entry_of (recorded_send a later) ∷ [])) ≤ 10
  made-few k =
      let key = limiter_key a.send.kind a.send.job_id in
      let r = new_record a.send.amount later in
      ground (
        arith,
        records_of-append k key r trace,
        length-append (records_of k trace) (r ∷ []),
        t.same key,
        t.few k,
        m.few,
        eq_iff key k,
      )

  Made-Tracks : Tracks w' (trace ++ entry_of (recorded_send a later) ∷ [])
  Made-Tracks = record {
    kept = m.kept;
    same = made-same;
    room = rw m.recorded (
        omega (
          arith,
          length-record_send (load_send_history w) (limiter_key a.send.kind a.send.job_id)
              a.send.amount later,
          length-append trace (entry_of (recorded_send a later) ∷ []),
          t.room,
        ));
    few = made-few;
  }

Unmade-Tracks : {w w' : World} {trace : Trace} → Unmade w w' → Tracks w trace → Tracks w' trace
Unmade-Tracks u t = record {
  kept = u.kept;
  same = λ k. ap (sends_of k) u.unchanged ∙ t.same k;
  room = rw u.unchanged t.room;
  few = t.few;
}

next-Tracks :
    (w : World) (trace : Trace) (a : Attempt) (p : World × Option ℕ)
    → Outcome w a p
    → length trace < 5000
    → Tracks w trace
    → Tracks p.0 (traced trace a p.1)
next-Tracks w trace a (w', none) u room t = Unmade-Tracks u t
next-Tracks w trace a (w', some later) (e, m) room t = Made-Tracks a m t room

length-traced :
    (trace : Trace) (a : Attempt) (made : Option ℕ)
    → length (traced trace a made) ≤ length trace + 1
length-traced trace a none = omega arith
length-traced trace a (some later) =
    omega (arith, length-append trace (entry_of (recorded_send a later) ∷ []))

run_from-Tracks :
    (w : World) (trace : Trace) (attempts : List Attempt)
    → AllExternal attempts
    → length trace + length attempts ≤ 5000
    → Tracks w trace
    → Tracks (run_from w trace attempts).0 (run_from w trace attempts).1
unfolding run_from
run_from-Tracks w trace [] ext room t = t
run_from-Tracks w trace (a ∷ rest) ext room t =
    let (w', made) = attempt w a in
    run_from-Tracks w' (traced trace a made) rest ext.1 (omega (arith, length-traced trace a made))
      (next-Tracks w trace a (attempt w a) (attempt-Outcome w a ext.0 t.kept) (omega arith) t)

-- In any run of at most 5000 external sends from an empty, writable history, no job and kind has more
-- than ten recorded sends, and the history file holds exactly the sends that were recorded. A send that was
-- broadcast and whose platform call then threw is not recorded.
pub run-Caps :
    (w : World) (attempts : List Attempt)
    → w.history_writable ≡ true
    → load_send_history w ≡ record { global = []; per_job = [] }
    → AllExternal attempts
    → length attempts ≤ 5000
    → let (w', trace) = run w attempts in
      (k : String)
      → (length (records_of k trace) ≤ 10)
        × (sends_of k (load_send_history w') ≡ records_of k trace)
unfolding run get
run-Caps w attempts writable empty ext room k =
    let start : Tracks w [] = record {
      kept = writable;
      same = λ k. ap (sends_of k) empty;
      room = rw empty (omega arith);
      few = λ k. omega arith;
    } in
    let t = run_from-Tracks w [] attempts ext (omega arith) start in (t.few k, t.same k)
