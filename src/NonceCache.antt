-- ===== src/NonceCache.antt =====
-- src/nonce-cache.js: the nonces of access envelopes that were accepted, each with the time it expires. The cap
-- is a parameter, as the environment sets it.
pub mod Replay
mod Tests
use j41_sovagent_dispatcher.Prelude.{
  ℕ, suc, ◌+◌, pos, String, Number, finite, ltb, leb, Bool, true, false, ◌&&◌, Option, none, some,
  List, [], ◌∷◌, Dict, get, put, length, drop, keep, str_eq, if◌then◌else◌,
}

abbrev pub default_ttl_ms : ℕ
default_ttl_ms = 660_000

-- The `Map` from a nonce to its expiry.
abbrev pub Seen : Type 0
Seen = Dict ℕ

pub data Outcome : Type 0 where
  ok replay invalid_nonce signature_invalid : Outcome

abbrev pub is_live : ℕ → String × ℕ → Bool
is_live now (nonce, exp) = ltb now exp

-- The timer's sweep.
unfoldable pub sweep_expired : ℕ → Seen → Seen
sweep_expired now seen = keep (is_live now) seen

-- `existing && existing > now`.
abbrev pub is_replay : Option ℕ → ℕ → Bool
is_replay none now = false
is_replay (some exp) now = ltb now exp

-- The oldest entry goes when the cap is reached.
unfoldable pub evict : ℕ → Seen → Seen
evict max_entries seen = if leb max_entries (length seen) then drop 1 seen else seen

unfoldable pub ttl_of : Number → ℕ → ℕ
ttl_of (finite (pos exp)) now = if ltb now exp then exp else now + default_ttl_ms
ttl_of _ now = now + default_ttl_ms

-- A nonce that is no string, or empty, is the empty string here.
unfoldable pub check_and_record_nonce : ℕ → Seen → String → Number → ℕ → Outcome × Seen
check_and_record_nonce max_entries seen nonce expires now =
    if str_eq nonce ""
    then (invalid_nonce, seen)
    else if is_replay (get seen nonce) now
    then (replay, seen)
    else (ok, put (evict max_entries seen) nonce (ttl_of expires now))

unfoldable pub check_nonce_after_verify : ℕ → Seen → Bool → String → Number → ℕ → Outcome × Seen
check_nonce_after_verify max_entries seen verified nonce expires now =
    if verified
    then check_and_record_nonce max_entries seen nonce expires now
    else (signature_invalid, seen)

unfoldable pub has_seen_nonce : Seen → String → ℕ → Bool
has_seen_nonce seen nonce now = if str_eq nonce "" then false else is_replay (get seen nonce) now

-- What happens to the cache: an envelope arrives, or the timer fires.
pub data Event : Type 0 where
  arrives : Bool → String → Number → ℕ → Event
  fires : ℕ → Event

unfoldable pub step : ℕ → Seen → Event → Seen
step max_entries seen (arrives verified nonce expires now) =
    (check_nonce_after_verify max_entries seen verified nonce expires now).1
step max_entries seen (fires now) = sweep_expired now seen

unfoldable pub run : ℕ → Seen → List Event → Seen
run max_entries seen [] = seen
run max_entries seen (e ∷ rest) = run max_entries (step max_entries seen e) rest
