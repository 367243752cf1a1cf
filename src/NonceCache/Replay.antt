-- ===== src/NonceCache/Replay.antt =====
-- Replays and the size of the cache of src/nonce-cache.js.
use j41_sovagent_dispatcher.Prelude.{
  ℕ, suc, ◌+◌, ◌≤◌, ◌<◌, String, Number, true, false, some, List, [], ◌∷◌, get, get-put,
  length-put-le, length-keep-le, length, ◌≡◌, ◌↔◌, arith, str_eq, eq_iff, eq_refl,
}
use j41_sovagent_dispatcher.NonceCache.{
  Seen, ok, replay, is_live, sweep_expired, evict, ttl_of, check_and_record_nonce,
  check_nonce_after_verify, has_seen_nonce, Event, arrives, fires, step, run,
}

-- The most that the events can add to the cache: only a verified envelope counts.
abbrev pub verified_count : List Event → ℕ
verified_count [] = 0
verified_count (arrives true nonce expires now ∷ rest) = suc (verified_count rest)
verified_count (_ ∷ rest) = verified_count rest

abbrev pub time_of : Event → ℕ
time_of (arrives verified nonce expires now) = now
time_of (fires now) = now

abbrev pub AllBefore : ℕ → List Event → Type 0
AllBefore t [] = Unit
AllBefore t (e ∷ rest) = (time_of e < t) × AllBefore t rest

get-sweep :
    (now : ℕ) (seen : Seen) (nonce : String) (exp : ℕ)
    → now < exp
    → get seen nonce ≡ some exp
    → get (sweep_expired now seen) nonce ≡ some exp
unfolding get sweep_expired
get-sweep now [] nonce exp live h = h
get-sweep now ((name, e) ∷ more) nonce exp live h =
    ground (arith, get-sweep now more nonce exp live)

-- An event while there is room neither loses a live nonce nor adds more than a verified envelope does.
get-check :
    (max_entries : ℕ) (seen : Seen) (nonce : String) (exp : ℕ) (other : String) (expires : Number)
    (now : ℕ)
    → now < exp
    → length seen < max_entries
    → get seen nonce ≡ some exp
    → let after = (check_and_record_nonce max_entries seen other expires now).1 in
      (get after nonce ≡ some exp) × (length after ≤ suc (length seen))
unfolding check_and_record_nonce evict
get-check cap seen nonce exp other expires now live room h = ground (
  arith,
  get-put seen other nonce (ttl_of expires now),
  eq_iff other nonce,
  length-put-le seen other (ttl_of expires now),
)

run-live :
    (max_entries : ℕ) (seen : Seen) (nonce : String) (exp : ℕ) (events : List Event)
    → AllBefore exp events
    → length seen + verified_count events ≤ max_entries
    → get seen nonce ≡ some exp
    → get (run max_entries seen events) nonce ≡ some exp
unfolding run step check_nonce_after_verify sweep_expired
run-live cap seen nonce exp [] before room h = h
run-live cap seen nonce exp (fires now ∷ rest) (live, before) room h =
    run-live cap (sweep_expired now seen) nonce exp rest before
      (omega (arith, length-keep-le (is_live now) seen)) (get-sweep now seen nonce exp live h)
run-live cap seen nonce exp (arrives false other expires now ∷ rest) (live, before) room h =
    run-live cap seen nonce exp rest before room h
run-live cap seen nonce exp (arrives true other expires now ∷ rest) (live, before) room h =
    let after = (check_and_record_nonce cap seen other expires now).1 in
    let (here, size) = get-check cap seen nonce exp other expires now live (omega arith) h in
    run-live cap after nonce exp rest before (omega arith) here

accepted :
    (max_entries : ℕ) (seen : Seen) (nonce : String) (expires : Number) (now : ℕ)
    → let (answer, after) = check_nonce_after_verify max_entries seen true nonce expires now in
      answer ≡ ok → (str_eq nonce "" ≡ false) × (get after nonce ≡ some (ttl_of expires now))
unfolding check_nonce_after_verify check_and_record_nonce
accepted cap seen nonce expires now h =
    ground (arith, get-put (evict cap seen) nonce nonce (ttl_of expires now), eq_refl nonce)

replayed :
    (max_entries : ℕ) (seen : Seen) (nonce : String) (exp : ℕ) (again : Number) (later : ℕ)
    → str_eq nonce "" ≡ false
    → get seen nonce ≡ some exp
    → later < exp
    → (check_nonce_after_verify max_entries seen true nonce again later).0 ≡ replay
unfolding check_nonce_after_verify check_and_record_nonce
replayed cap seen nonce exp again later named h live = ground arith

-- A nonce that is accepted is refused as a replay until its time to live has passed, whatever envelopes
-- and sweeps come before that time, as long as the verified ones among them fit under the cap.
pub check-replays :
    (max_entries : ℕ) (seen : Seen) (nonce : String) (expires again : Number) (now later : ℕ)
    (events : List Event)
    → let (answer, after) = check_nonce_after_verify max_entries seen true nonce expires now in
      answer ≡ ok
      → AllBefore (ttl_of expires now) events
      → length after + verified_count events ≤ max_entries
      → later < ttl_of expires now
      → (check_nonce_after_verify max_entries
          (run max_entries after events)
          true
          nonce
          again
          later).0
        ≡ replay
check-replays cap seen nonce expires again now later events h before room live =
    let after = (check_nonce_after_verify cap seen true nonce expires now).1 in
    let (named, here) = accepted cap seen nonce expires now h in
    replayed cap (run cap after events) nonce (ttl_of expires now) again later named
      (run-live cap after nonce (ttl_of expires now) events before room here) live

length-evict :
    (max_entries : ℕ) (seen : Seen)
    → 1 ≤ max_entries
    → length seen ≤ max_entries
    → length (evict max_entries seen) < max_entries
unfolding evict
length-evict cap [] some_room fits = ground arith
length-evict cap (e ∷ more) some_room fits = ground arith

step-size :
    (max_entries : ℕ) (seen : Seen) (e : Event)
    → 1 ≤ max_entries
    → length seen ≤ max_entries
    → length (step max_entries seen e) ≤ max_entries
unfolding step check_nonce_after_verify check_and_record_nonce sweep_expired
step-size cap seen (fires now) some_room fits = omega (arith, length-keep-le (is_live now) seen)
step-size cap seen (arrives false nonce expires now) some_room fits = fits
step-size cap seen (arrives true nonce expires now) some_room fits = ground (
  arith,
  length-evict cap seen some_room fits,
  length-put-le (evict cap seen) nonce (ttl_of expires now),
)

-- Where the cap is at least one entry, no run of envelopes and sweeps takes the cache above it.
pub length-run :
    (max_entries : ℕ) (seen : Seen) (events : List Event)
    → 1 ≤ max_entries
    → length seen ≤ max_entries
    → length (run max_entries seen events) ≤ max_entries
unfolding run
length-run cap seen [] some_room fits = fits
length-run cap seen (e ∷ rest) some_room fits =
    length-run cap (step cap seen e) rest some_room (step-size cap seen e some_room fits)

-- For a nonce that is not empty, the lookup that records nothing answers yes exactly if a verified
-- envelope with that nonce would be refused as a replay.
pub has_seen-check :
    (max_entries : ℕ) (seen : Seen) (nonce : String) (expires : Number) (now : ℕ)
    → str_eq nonce "" ≡ false
    → (has_seen_nonce seen nonce now ≡ true)
      ↔ ((check_nonce_after_verify max_entries seen true nonce expires now).0 ≡ replay)
unfolding has_seen_nonce check_nonce_after_verify check_and_record_nonce
has_seen-check cap seen nonce expires now named = (λ h. ground arith, λ h. ground arith)
