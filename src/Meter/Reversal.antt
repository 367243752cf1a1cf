-- ===== src/Meter/Reversal.antt =====
-- Reversals of deposits in src/credit-meter.js.
use j41_sovagent_dispatcher.Prelude.{
  ℕ, ℤ, ◌+ℤ◌, ◌-ℤ◌, String, true, false, Option, none, some, List, any, Dict, get, put, get-put,
  str_eq, eq_iff, ◌≡◌, ◌⊎◌, inl, inr, refl, subst, arith, int_laws, eq_refl,
}
use j41_sovagent_dispatcher.Meter.{Buyer, MeterFile, load_meters, save_meters, with_meter_lock}
use j41_sovagent_dispatcher.Meter.Aliases.{resolve_buyer_key, buyer_or_new}
use j41_sovagent_dispatcher.Meter.Credit.{
  is_credited, credit, reverse, credit_deposit, reverse_deposit, save_buyer,
}
use j41_sovagent_dispatcher.Meter.Balance.{account}
use j41_sovagent_dispatcher.Meter.Deposits.{ensure_known, merged_file, credit_deposit-merged}
use j41_sovagent_dispatcher.Meter.Merged.{is_skipped, Merged, apply-Merged, resolve-apply}

sub-add : (a b : ℤ) → a +ℤ b -ℤ b ≡ a
sub-add a b = omega int_laws

reverse-credit :
    (b : Buyer) (amount : ℤ) (t : String) (now later : ℕ)
    → is_credited (some t) b.last_deposit_txid ≡ false
    → let c = reverse (credit b amount (some t) now) amount (some t) later in
      (c.balance ≡ b.balance)
      × (c.total_deposited ≡ b.total_deposited)
      × (c.total_spent ≡ b.total_spent)
      × (c.last_deposit_txid ≡ none)
unfolding reverse credit is_credited
reverse-credit b amount t now later new =
    ground (arith, eq_refl t, sub-add b.balance amount, sub-add b.total_deposited amount)

-- A name of the buyer: the canonical one, or one of the aliases.
abbrev pub IsName : String → List String → String → Type 0
IsName canonical aliases id =
    ((any (λ a. str_eq a id) aliases ≡ true) × (is_skipped canonical id ≡ false)) ⊎ (id ≡ canonical)

reverse-saved :
    (file : MeterFile) (id key : String) (b : Buyer) (amount : ℤ) (txid : Option String) (now : ℕ)
    → resolve_buyer_key (load_meters file) id ≡ key
    → get (load_meters file).buyers key ≡ some b
    → (reverse_deposit file true id amount txid now).1
      ≡ save_buyer (load_meters file) key (reverse b amount txid now)
unfolding reverse_deposit with_meter_lock
reverse-saved file id key b amount txid now e h =
    rw (ensure_known (load_meters file) id key b now e h) refl

-- Where a deposit that does not stand as credited is credited to a buyer that has a name, with the buyer's aliases, and is then
-- reversed under any of the buyer's names, both under the lock, the balance, deposits and spending are what they
-- were once the aliases' records had been merged, every other record is as the merge left it, and no
-- transaction stands as credited, so that the same one can be credited again.
pub reverse_deposit-credit_deposit :
    (file : MeterFile) (canonical : String) (aliases : List String) (id : String) (amount : ℤ)
    (txid : String) (now later : ℕ)
    → str_eq canonical "" ≡ false
    → IsName canonical aliases id
    → let merged = save_meters (merged_file file canonical aliases now) in
      let b = account merged canonical in
      is_credited (some txid) b.last_deposit_txid ≡ false
      → let file₁ = (credit_deposit file true canonical aliases amount (some txid) now).1 in
        let after = (reverse_deposit file₁ true id amount (some txid) later).1 in
        let c = account after canonical in
        (c.balance ≡ b.balance)
        × (c.total_deposited ≡ b.total_deposited)
        × (c.total_spent ≡ b.total_spent)
        × (c.last_deposit_txid ≡ none)
        × ((k : String) → str_eq canonical k ≡ false → account after k ≡ account merged k)
reverse_deposit-credit_deposit file canonical aliases id amount txid now later named name new =
    let m = merged_file file canonical aliases now in
    let merged = apply-Merged (load_meters file) canonical aliases now named in
    let was = merged.canon in
    let b = credit was amount (some txid) now in
    let file₁ : MeterFile = save_buyer m canonical b in
    let here : get (load_meters file₁).buyers canonical ≡ some b =
      rw (get-put m.buyers canonical canonical b) (ground (arith, eq_refl canonical)) in
    let leads : resolve_buyer_key (load_meters file₁) id ≡ canonical =
      resolve-apply (load_meters file) canonical aliases now named (put m.buyers canonical b) b id
        here (is_name m.buyers b id merged name) in
    let c = reverse b amount (some txid) later in
    let fresh =
      subst (λ o. is_credited (some txid) (buyer_or_new 0 o).last_deposit_txid ≡ false) merged.found
        new in
    let (balance, deposited, spent, last) = reverse-credit was amount txid now later fresh in
    rw
      (
        credit_deposit-merged file canonical aliases amount (some txid) now named was merged.found,
        reverse-saved file₁ id canonical b amount (some txid) later leads here,
        get-put (put m.buyers canonical b) canonical canonical c,
        eq_refl canonical,
        merged.found,
      )
      (
        balance,
        deposited,
        spent,
        last,
        λ k other.
            rw
              (
                get-put (put m.buyers canonical b) canonical k c,
                get-put m.buyers canonical k b,
                other,
              )
              refl,
      )
  where
    is_name :
        (buyers : Dict Buyer) (b : Buyer) (j : String) {before : Dict Buyer}
        → Merged canonical aliases before buyers
        → IsName canonical aliases j
        → ((any (λ a. str_eq a j) aliases ≡ true)
            × (get (put buyers canonical b) j ≡ none)
            × (str_eq j "" ≡ false))
          ⊎ (j ≡ canonical)
    is_name buyers b j m (inr e) = inr e
    is_name buyers b j m (inl (n, s)) = inl (
      n,
      rw (get-put buyers canonical j b) (ground (arith, s, eq_iff canonical j, m.gone j n s)),
      ground (arith, s),
    )
