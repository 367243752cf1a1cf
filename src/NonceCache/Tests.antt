-- ===== src/NonceCache/Tests.antt =====
-- The cache of src/nonce-cache.js at concrete envelopes.
use j41_sovagent_dispatcher.Prelude.{
  pos, finite, nan, true, false, [], ◌∷◌, get, put, length, ◌≡◌, ◌≤◌, ◌↔◌, refl, arith,
}
use j41_sovagent_dispatcher.NonceCache.{
  replay, check_nonce_after_verify, check_and_record_nonce, evict, ttl_of, has_seen_nonce, arrives,
  fires, step, run,
}
use j41_sovagent_dispatcher.NonceCache.Replay.{check-replays, length-run, has_seen-check}

-- The oldest nonce is forgotten at the cap, and can then be replayed.
forgotten :
    has_seen_nonce
      (run 2 [] (
        arrives true "a" (finite (pos 50)) 1
        ∷ arrives true "b" (finite (pos 50)) 2
        ∷ arrives true "c" (finite (pos 50)) 3
        ∷ []))
      "a"
      4
    ≡ false
unfolding run step check_nonce_after_verify check_and_record_nonce evict ttl_of has_seen_nonce get
    put
forgotten = refl

check-replays_example :
    (check_nonce_after_verify 9
      (run 9
        (check_nonce_after_verify 9 [] true "a" (finite (pos 50)) 1).1
        (arrives true "b" nan 20 ∷ fires 30 ∷ []))
      true
      "a"
      (finite (pos 90))
      49).0
    ≡ replay
unfolding check_nonce_after_verify check_and_record_nonce evict ttl_of get put
check-replays_example =
    check-replays 9 [] "a" (finite (pos 50)) (finite (pos 90)) 1 49
      (arrives true "b" nan 20 ∷ fires 30 ∷ []) refl (omega arith, (omega arith, tt)) (omega arith)
      (omega arith)

length-run_example : length (run 2 [] (arrives true "a" nan 1 ∷ arrives true "b" nan 2 ∷ [])) ≤ 2
length-run_example =
    length-run 2 [] (arrives true "a" nan 1 ∷ arrives true "b" nan 2 ∷ []) (omega arith)
      (omega arith)

has_seen-check_example :
    (has_seen_nonce (("a", 50) ∷ []) "a" 7 ≡ true)
    ↔ ((check_nonce_after_verify 9 (("a", 50) ∷ []) true "a" nan 7).0 ≡ replay)
has_seen-check_example = has_seen-check 9 (("a", 50) ∷ []) "a" nan 7 refl
