-- ===== src/Meter/Deposits.antt =====
-- Deposits of src/credit-meter.js.
use j41_sovagent_dispatcher.Prelude.{
  ℕ, ℤ, String, true, false, Option, some, List, [], get, put, get-put, ◌≡◌, refl, ◌∙◌, arith,
  str_eq, eq_iff, eq_refl, if◌then◌else◌,
}
use j41_sovagent_dispatcher.Meter.{
  Buyer, Meters, MeterFile, load_meters, new_buyer, with_meter_lock, done,
}
use j41_sovagent_dispatcher.Meter.Merged.{resolve_known, apply-Merged, apply_idle}
use j41_sovagent_dispatcher.Meter.Aliases.{
  resolve_buyer_key, buyer_or_new, ensure_buyer, apply_buyer_aliases, link_buyer_aliases,
  merge_aliases,
}
use j41_sovagent_dispatcher.Meter.Credit.{is_credited, credit, credit_deposit, save_buyer}

-- The record that a deposit finds.
abbrev found : MeterFile → String → ℕ → Buyer
found file id now = buyer_or_new now (get (load_meters file).buyers id)

named_ensure :
    (file : MeterFile) (id : String) (now : ℕ)
    → let m = apply_buyer_aliases (load_meters file) id [] now in
      ensure_buyer m id now ≡ (id, found file id now, (ensure_buyer m id now).2)
unfolding apply_buyer_aliases link_buyer_aliases merge_aliases ensure_buyer resolve_buyer_key
named_ensure file id now =
    ground
      (arith, eq_iff id "", eq_refl id, get-put (load_meters file).buyers id id (found file id now))

named_get :
    (file : MeterFile) (id : String) (now : ℕ) (b : Buyer) (k : String)
    → let m = apply_buyer_aliases (load_meters file) id [] now in
      get (put (ensure_buyer m id now).2.buyers id b) k
      ≡ (if str_eq id k then some b else get (load_meters file).buyers k)
unfolding apply_buyer_aliases link_buyer_aliases merge_aliases ensure_buyer resolve_buyer_key
named_get file id now b k =
    let old = (load_meters file).buyers in
    let was = found file id now in
    ground (
      arith,
      eq_iff id "",
      eq_refl id,
      get-put old id k was,
      get-put old id id was,
      get-put old id k b,
      get-put (put old id was) id k b,
      get-put (put old id (new_buyer now)) id k b,
      get-put old id k (new_buyer now),
    )

-- A deposit under the lock answers the credited record's balance, and changes that record alone.
pub credit_deposit_lem :
    (file : MeterFile) (id : String) (amount : ℤ) (txid : Option String) (now : ℕ)
    → let b = credit (found file id now) amount txid now in
      ((credit_deposit file true id [] amount txid now).0 ≡ done b.balance)
      × ((k : String)
          → get (load_meters (credit_deposit file true id [] amount txid now).1).buyers k
            ≡ (if str_eq id k then some b else get (load_meters file).buyers k))
unfolding credit_deposit with_meter_lock
credit_deposit_lem file id amount txid now =
    let b = credit (found file id now) amount txid now in
    (
      rw (named_ensure file id now) refl,
      λ k. rw (named_ensure file id now) (named_get file id now b k),
    )

credit-credit :
    (b : Buyer) (a c : ℤ) (t : String) (now later : ℕ)
    → credit (credit b a (some t) now) c (some t) later ≡ credit b a (some t) now
unfolding credit is_credited
credit-credit b a c t now later = ground (arith, eq_refl t)

pub ensure_known :
    (m : Meters) (id key : String) (b : Buyer) (now : ℕ)
    → resolve_buyer_key m id ≡ key
    → get m.buyers key ≡ some b
    → ensure_buyer m id now ≡ (key, b, m)
unfolding ensure_buyer
ensure_known m id key b now e h = ground (arith, e, h)

-- The records once the aliases of a buyer are merged, and the buyer's record among them.
abbrev pub merged_file : MeterFile → String → List String → ℕ → Meters
merged_file file canonical aliases now =
    apply_buyer_aliases (load_meters file) canonical aliases now

-- A deposit under the lock that names aliases: they are merged, and the canonical record is credited.
pub credit_deposit-merged :
    (file : MeterFile) (canonical : String) (aliases : List String) (amount : ℤ)
    (txid : Option String) (now : ℕ)
    → str_eq canonical "" ≡ false
    → (before : Buyer) → get (merged_file file canonical aliases now).buyers canonical ≡ some before
    → let m = merged_file file canonical aliases now in
      let b = credit before amount txid now in
      credit_deposit file true canonical aliases amount txid now
      ≡ (done b.balance, save_buyer m canonical b)
unfolding credit_deposit with_meter_lock
credit_deposit-merged file canonical aliases amount txid now named before h =
    let m = merged_file file canonical aliases now in
    rw (ensure_known m canonical canonical before now (resolve_known m canonical before h) h) refl

-- A transaction that is reported twice in a row under the lock for one buyer that has a name, with the same aliases both
-- times, is credited once, whatever amount the second report names: the answer and every record stay as the
-- first report left them.
pub credit_deposit_twice :
    (file : MeterFile) (canonical : String) (aliases : List String) (amount again : ℤ)
    (txid : String) (now later : ℕ)
    → str_eq canonical "" ≡ false
    → let (first, file₁) = credit_deposit file true canonical aliases amount (some txid) now in
      let (second, file₂) = credit_deposit file₁ true canonical aliases again (some txid) later in
      (second ≡ first)
      × ((k : String) → get (load_meters file₂).buyers k ≡ get (load_meters file₁).buyers k)
credit_deposit_twice file canonical aliases amount again txid now later named =
    let merged = apply-Merged (load_meters file) canonical aliases now named in
    let m = merged_file file canonical aliases now in
    let b = credit merged.canon amount (some txid) now in
    let file₁ : MeterFile = save_buyer m canonical b in
    let here : get (load_meters file₁).buyers canonical ≡ some b =
      rw (get-put m.buyers canonical canonical b) (ground (arith, eq_refl canonical)) in
    let idle = apply_idle (load_meters file₁) canonical aliases later named b here (λ k n s.
      rw (get-put m.buyers canonical k b)
        (ground (arith, s, merged.gone k n s, eq_iff canonical k))) in
    let m₂ = merged_file file₁ canonical aliases later in
    let there : get m₂.buyers canonical ≡ some b = idle canonical ∙ here in
    let same = credit-credit merged.canon amount again txid now later in
    rw
      (
        credit_deposit-merged file canonical aliases amount (some txid) now named merged.canon
            merged.found,
        credit_deposit-merged file₁ canonical aliases again (some txid) later named b there,
        same,
      )
      (
        refl,
        λ k.
            rw (get-put m₂.buyers canonical k b, get-put m.buyers canonical k b)
              (ground (arith, idle k, get-put m.buyers canonical k b)),
      )
