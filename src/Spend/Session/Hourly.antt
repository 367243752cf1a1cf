-- ===== src/Spend/Session/Hourly.antt =====
-- The hourly cap over a whole run of sends (src/spend-policy.js).
use j41_sovagent_dispatcher.Prelude.{
  ℕ, ◌≤◌, String, true, Option, none, some, subst, sym, List, [], ◌∷◌, ◌++◌, length, keep, ◌≡◌,
  refl, ap, arith, length-append, length-keep_mono, length-keep-le, keep-append, keep-keep,
}
use j41_sovagent_dispatcher.Spend.{SendRecord, World}
use j41_sovagent_dispatcher.Spend.SendHistory.{load_send_history, is_recent}
use j41_sovagent_dispatcher.Spend.SendHistory.Laws.{new_record, record_send-global}
use j41_sovagent_dispatcher.Spend.Answers.{limiter_key}
use j41_sovagent_dispatcher.Spend.Session.{
  Attempt, recorded_send, attempt, ends_at, Trace, entry_of, traced, run_from, run, records,
  AllExternal, InOrder,
}
use j41_sovagent_dispatcher.Spend.Session.Steps.{Made, Unmade, Outcome, attempt-Outcome}

records-append :
    (e : String × SendRecord) (trace : Trace)
    → records (trace ++ e ∷ []) ≡ records trace ++ e.1 ∷ []
records-append (j, r) [] = refl
records-append (j, r) ((i, q) ∷ trace) = ap (◌∷◌ q) (records-append (j, r) trace)

is_recent_mono : (t u : ℕ) → t ≤ u → (r : SendRecord) → is_recent u r ≡ true → is_recent t r ≡ true
is_recent_mono t u h r e = ground arith

-- From time `t` on, the window of the file is the window of the trace, and holds at most 100 sends.
record Windowed (w : World) (trace : Trace) (t : ℕ) : Type 0 where
  kept : w.history_writable ≡ true
  same :
      (u : ℕ)
      → t ≤ u
      → keep (is_recent u) (load_send_history w).global ≡ keep (is_recent u) (records trace)
  few : (u : ℕ) → t ≤ u → length (keep (is_recent u) (records trace)) ≤ 100

module _ {w w' : World} {at : ℕ} {trace : Trace} {t : ℕ} (a : Attempt) (m : Made w a.send at w')
    (before : Windowed w trace t) (later : t ≤ a.send.now) (forward : a.send.now ≤ at) where
  made_window :
      (u : ℕ)
      → at ≤ u
      → keep (is_recent u) (load_send_history w').global
        ≡ keep (is_recent u) (records (trace ++ entry_of (recorded_send a at) ∷ []))
  made_window u h =
      let r = new_record a.send.amount at in
      let g = (load_send_history w).global in
      rw
        (
          m.recorded,
          record_send-global (load_send_history w) (limiter_key a.send.kind a.send.job_id)
              a.send.amount at,
          keep-keep (is_recent at) (is_recent u) (g ++ r ∷ []) (is_recent_mono at u h),
          keep-append (is_recent u) g (r ∷ []),
          records-append (entry_of (recorded_send a at)) trace,
          keep-append (is_recent u) (records trace) (r ∷ []),
        )
        (ap (λ xs. xs ++ keep (is_recent u) (r ∷ [])) (before.same u (omega arith)))

  made_few :
      (u : ℕ)
      → at ≤ u
      → length (keep (is_recent u) (records (trace ++ entry_of (recorded_send a at) ∷ []))) ≤ 100
  made_few u h =
      let r = new_record a.send.amount at in
      rw
        (
          records-append (entry_of (recorded_send a at)) trace,
          keep-append (is_recent u) (records trace) (r ∷ []),
        )
        (omega (
          arith,
          length-append (keep (is_recent u) (records trace)) (keep (is_recent u) (r ∷ [])),
          length-keep_mono (is_recent u) (is_recent a.send.now) (records trace)
              (is_recent_mono a.send.now u (omega arith)),
          length-keep-le (is_recent u) (r ∷ []),
          ap length (before.same a.send.now later),
          m.hourly,
        ))

  Made-Windowed : Windowed w' (trace ++ entry_of (recorded_send a at) ∷ []) at
  Made-Windowed = record { kept = m.kept; same = made_window; few = made_few }

Unmade-Windowed :
    {w w' : World} {trace : Trace} {t u : ℕ}
    → t ≤ u
    → Unmade w w'
    → Windowed w trace t
    → Windowed w' trace u
Unmade-Windowed later n b = record {
  kept = n.kept;
  same = λ v h. rw n.unchanged (b.same v (omega arith));
  few = λ v h. b.few v (omega arith);
}

-- The time at which the last attempt ends.
abbrev pub end_of : ℕ → List Attempt → ℕ
end_of t [] = t
end_of t (a ∷ rest) = end_of (ends_at a) rest

next-Windowed :
    (w : World) (trace : Trace) (t : ℕ) (a : Attempt) (p : World × Option ℕ)
    → Outcome w a p
    → t ≤ a.send.now
    → a.send.now ≤ ends_at a
    → Windowed w trace t
    → Windowed p.0 (traced trace a p.1) (ends_at a)
next-Windowed w trace t a (w', none) u later forward b = Unmade-Windowed (omega arith) u b
next-Windowed w trace t a (w', some at) (e, m) later forward b =
    subst (Windowed w' (trace ++ entry_of (recorded_send a at) ∷ [])) (sym e)
      (Made-Windowed a m b later (subst (λ u. a.send.now ≤ u) e forward))

run_from-Windowed :
    (w : World) (trace : Trace) (t : ℕ) (attempts : List Attempt)
    → AllExternal attempts
    → InOrder t attempts
    → Windowed w trace t
    → Windowed (run_from w trace attempts).0 (run_from w trace attempts).1 (end_of t attempts)
unfolding run_from
run_from-Windowed w trace t [] ext order b = b
run_from-Windowed w trace t (a ∷ rest) ext (later, forward, order) b =
    let (w', made) = attempt w a in
    run_from-Windowed w' (traced trace a made) (ends_at a) rest ext.1 order
      (next-Windowed w trace t a (attempt w a) (attempt-Outcome w a ext.0 b.kept) later forward b)

-- In any run of external sends whose clock does not go back, from an empty, writable history, the hour
-- that ends at or after the end of the last attempt holds at most 100 recorded sends.
pub run-Hourly :
    (w : World) (attempts : List Attempt) (u : ℕ)
    → w.history_writable ≡ true
    → load_send_history w ≡ record { global = []; per_job = [] }
    → AllExternal attempts
    → InOrder 0 attempts
    → end_of 0 attempts ≤ u
    → length (keep (is_recent u) (records (run w attempts).1)) ≤ 100
unfolding run
run-Hourly w attempts u writable empty ext order h =
    let start : Windowed w [] 0 = record {
      kept = writable;
      same = λ u h. rw empty;
      few = λ u h. omega arith;
    } in
    (run_from-Windowed w [] 0 attempts ext order start).few u h
