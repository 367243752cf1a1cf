-- ===== src/Spend/RateLimits.antt =====
-- The configured limits of src/spend-policy.js and the compiled ceilings that clamp them.
pub mod Ceilings
use j41_sovagent_dispatcher.Prelude.{
  ℤ, pos, ltb_ℤ, Number, finite, Bool, true, false, ◌||◌, Option, none, some, List, [], ◌∷◌, ◌++◌,
  any, if◌then◌else◌,
}
use j41_sovagent_dispatcher.Spend.{
  RawLimits, Limits, LimitKey, sends_per_job, value_multiplier, sends_per_hour, World,
}

abbrev pub hard_max_value_multiplier : ℤ
hard_max_value_multiplier = pos 200

abbrev pub hard_max_sends_per_job : ℤ
hard_max_sends_per_job = pos 10

abbrev pub hard_max_sends_per_hour : ℤ
hard_max_sends_per_hour = pos 100

abbrev pub hard_max_single_send_sats : ℤ
hard_max_single_send_sats = pos 100_000_000_000

-- `Number.isFinite(x) ? x : d`.
abbrev finite_or : Number → ℤ → Number
finite_or (finite z) d = finite z
finite_or _ d = finite (d)

-- What the limits are taken from: the configuration, or the documented defaults.
unfoldable pub dispatcher_rate_limits : World → RawLimits
dispatcher_rate_limits w = elim w.config [
  | none ↦ record {
    max_sends_per_job = finite (pos 3);
    max_value_multiplier = finite (pos 110);
    max_sends_per_hour = finite (pos 10);
    cooldown_ms = finite (pos 30_000);
  }
  | some l ↦ record {
    max_sends_per_job = finite_or l.max_sends_per_job (pos 3);
    max_value_multiplier = finite_or l.max_value_multiplier (pos 110);
    max_sends_per_hour = finite_or l.max_sends_per_hour (pos 10);
    cooldown_ms = finite_or l.cooldown_ms (pos 30_000);
  }
]

abbrev same_key : LimitKey → LimitKey → Bool
same_key sends_per_job sends_per_job = true
same_key value_multiplier value_multiplier = true
same_key sends_per_hour sends_per_hour = true
same_key _ _ = false

-- `_clampedKeysSet.add(key)`.
abbrev add_key : LimitKey → List LimitKey → List LimitKey
add_key k ks = if any (same_key k) ks then ks else ks ++ k ∷ []

-- `_clamp` returns the value in force and the set of clamped keys.
unfoldable pub clamp : LimitKey → Number → ℤ → List LimitKey → ℤ × List LimitKey
clamp key (finite val) hard keys = if ltb_ℤ hard val then (hard, add_key key keys) else (val, keys)
clamp key _ hard keys = (hard, add_key key keys)

-- `effectiveLimits(raw)`.
unfoldable pub limits_of : RawLimits → List LimitKey → Limits × List LimitKey
limits_of l keys =
    let (per_job, keys₁) = clamp sends_per_job l.max_sends_per_job hard_max_sends_per_job keys in
    let (mult, keys₂) =
      clamp value_multiplier l.max_value_multiplier hard_max_value_multiplier keys₁ in
    let (per_hour, keys₃) =
      clamp sends_per_hour l.max_sends_per_hour hard_max_sends_per_hour keys₂ in
    (
      record {
        max_sends_per_job = per_job;
        max_value_multiplier = mult;
        max_sends_per_hour = per_hour;
        cooldown_ms = l.cooldown_ms;
      },
      keys₃,
    )

-- `effectiveLimits()`: the limits in force, and the world with the keys that were clamped noted.
unfoldable pub effective_limits : World → Limits × World
effective_limits w =
    let (l, keys) = limits_of (dispatcher_rate_limits w) w.clamped_keys in
    (l, record w { clamped_keys = keys })
