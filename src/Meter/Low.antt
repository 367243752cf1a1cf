-- ===== src/Meter/Low.antt =====
-- The notice of a low balance in src/credit-meter.js.
use mathlib.Core.Bool.{false≢true}
use j41_sovagent_dispatcher.Prelude.{
  ℕ, pos, String, Number, finite, is_finite, ltb_num, Bool, true, false, ◌&&◌, none, some, get, put,
  get-put, ◌≡◌, ◌⊎◌, refl, arith, str_eq, eq_iff, eq_refl, if◌then◌else◌, Bool-cases, Option-cases,
  inl, inr,
}
use j41_sovagent_dispatcher.Meter.{Buyer, Meters, MeterFile, load_meters, save_meters, new_buyer}
use j41_sovagent_dispatcher.Meter.Aliases.{resolve_buyer_key, ensure_buyer}
use j41_sovagent_dispatcher.Meter.Credit.{check_and_flag_low}
use j41_sovagent_dispatcher.Meter.Balance.{account}
use j41_sovagent_dispatcher.Meter.Balance.Records.{account-save}

-- The test on the numbers alone.
abbrev pub is_low : Number → Number → Bool
is_low balance threshold =
    is_finite threshold && (ltb_num (finite (pos 0)) threshold && ltb_num balance threshold)

-- What is found under a key after an ensured record is saved, and the aliases, which stay.
get-save :
    (m : Meters) (id : String) (now : ℕ) (b : Buyer) (k : String)
    → let (key, old, m') = ensure_buyer m id now in
      (get (put m'.buyers key b) k
        ≡ (if str_eq (resolve_buyer_key m id) k then some b else get m.buyers k))
      × (m'.aliases ≡ m.aliases)
unfolding ensure_buyer
get-save m id now b k =
    let key = resolve_buyer_key m id in
    ground (
      arith,
      get-put m.buyers key k b,
      get-put (put m.buyers key (new_buyer now)) key k b,
      get-put m.buyers key k (new_buyer now),
    )

module _ (m : Meters) (id : String) (now : ℕ) (b : Buyer) where
  abbrev saved : Meters
  saved = let (key, old, m') = ensure_buyer m id now in record m' { buyers = put m'.buyers key b }

  resolve-unmapped : get m.aliases id ≡ none → resolve_buyer_key saved id ≡ resolve_buyer_key m id
  unfolding resolve_buyer_key
  resolve-unmapped e = ground (arith, get-save m id now b id, eq_refl id)

  resolve-mapped :
      (mapped : String)
      → get m.aliases id ≡ some mapped
      → resolve_buyer_key saved id ≡ resolve_buyer_key m id
  unfolding resolve_buyer_key
  resolve-mapped mapped e = ground (
    arith,
    get-save m id now b id,
    get-save m id now b mapped,
    eq_refl id,
    eq_refl mapped,
    eq_iff mapped id,
  )

  -- Saving an ensured record does not change which key the buyer's id stands for.
  resolve-save : resolve_buyer_key saved id ≡ resolve_buyer_key m id
  resolve-save = elim (Option-cases (get m.aliases id)) [
    | inl e ↦ resolve-unmapped e
    | inr (mapped, e) ↦ resolve-mapped mapped e
  ]

ensure-low :
    (m : Meters) (id : String) (now : ℕ)
    → (ensure_buyer m id now).1.low_notified_at
      ≡ (account (save_meters m) (resolve_buyer_key m id)).low_notified_at
unfolding ensure_buyer
ensure-low m id now = ground arith

flag-cases :
    (file : MeterFile) (id : String) (balance threshold : Number) (now : ℕ)
    → let low = (account file (resolve_buyer_key (load_meters file) id)).low_notified_at in
      let result = check_and_flag_low file id balance threshold now in
      ((is_low balance threshold ≡ true) × (low ≡ none) × (result.0 ≡ true))
      ⊎ (((is_low balance threshold ≡ false) ⊎ ((t : ℕ) × (low ≡ some t)))
          × (result ≡ (false, file)))
unfolding check_and_flag_low
flag-cases file id balance threshold now = ground (arith, ensure-low (load_meters file) id now)

flagged :
    (file : MeterFile) (id : String) (balance threshold : Number) (now : ℕ)
    → (check_and_flag_low file id balance threshold now).0 ≡ true
    → let after = (check_and_flag_low file id balance threshold now).1 in
      (account after (resolve_buyer_key (load_meters after) id)).low_notified_at ≡ some now
unfolding check_and_flag_low
flagged file id balance threshold now h =
    let m = load_meters file in
    let buyer = (ensure_buyer m id now).1 in
    let b = record buyer { low_notified_at = some now } in
    elim (Bool-cases (is_low balance threshold)) [
      | inl low ↦ elim (Option-cases buyer.low_notified_at) [
        | inl fresh ↦
            rw
              (
                low,
                fresh,
                resolve-save m id now b,
                account-save m id now b (resolve_buyer_key m id),
                eq_refl (resolve_buyer_key m id),
              )
              refl
        | inr (t, old) ↦ absurd (false≢true (rw (low, old) at h))
      ]
      | inr high ↦ absurd (false≢true (rw high at h))
    ]

-- On the file as the notice of a low balance left it, a call for the same buyer answers no and leaves the file alone,
-- whatever the balance and the threshold.
pub check_and_flag_low_once :
    (file : MeterFile) (id : String) (balance threshold balance' threshold' : Number)
    (now later : ℕ)
    → (check_and_flag_low file id balance threshold now).0 ≡ true
    → let after = (check_and_flag_low file id balance threshold now).1 in
      check_and_flag_low after id balance' threshold' later ≡ (false, after)
check_and_flag_low_once file id balance threshold balance' threshold' now later h =
    let after = (check_and_flag_low file id balance threshold now).1 in
    ground (
      arith,
      flagged file id balance threshold now h,
      flag-cases after id balance' threshold' later,
    )
