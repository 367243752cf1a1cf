-- ===== src/Meter/Balance/Merges.antt =====
-- What merging the aliases of a buyer in src/credit-meter.js does to the balances and to what is held.
use j41_sovagent_dispatcher.Prelude.{
  ℕ, ℤ, ◌+ℤ◌, String, false, not, some, List, [], ◌∷◌, Dict, get, put, delete, get-put, ◌≡◌, ◌⊎◌,
  inl, inr, refl, subst, sym, arith, int_laws, parts_of_eq, Bool-cases, Option-cases, str_eq,
  eq_iff, eq_refl, if◌then◌else◌,
}
use j41_sovagent_dispatcher.Meter.{Buyer, Meters}
use j41_sovagent_dispatcher.Meter.Aliases.{
  absorb, same_tx, buyer_or_new, merge_aliases, link_buyer_aliases, apply_buyer_aliases,
}
use j41_sovagent_dispatcher.Meter.Merged.{is_skipped, get-taken, buyers-apply}
use j41_sovagent_dispatcher.Meter.Balance.{Balanced, moved, merged_held, held_named}

abbrev pub AllHeld : Dict Buyer → (String → ℤ) → Type 0
AllHeld buyers held = (k : String) → Balanced (buyer_or_new 0 (get buyers k)) (held k)

absorb-Balanced :
    (canon other : Buyer) (h g : ℤ)
    → Balanced canon h
    → Balanced other g
    → Balanced (absorb canon other) (if not (same_tx other canon) then h +ℤ g else h)
unfolding absorb
absorb-Balanced canon other h g b c = elim (Bool-cases (same_tx other canon)) [
  | inl same ↦ rw same b
  | inr differ ↦ rw differ (
      omega (
        int_laws,
        parts_of_eq (canon.balance +ℤ h +ℤ canon.total_spent) canon.total_deposited b,
        parts_of_eq (other.balance +ℤ g +ℤ other.total_spent) other.total_deposited c,
      ))
]

taken-AllHeld :
    (canonical a : String) (canon other : Buyer) (buyers : Dict Buyer) (held : String → ℤ)
    → is_skipped canonical a ≡ false
    → get buyers canonical ≡ some canon
    → get buyers a ≡ some other
    → AllHeld buyers held
    → AllHeld
        (delete (put buyers canonical (absorb canon other)) a)
        (moved canonical a (same_tx other canon) held)
unfolding ◌+ℤ◌
taken-AllHeld canonical a canon other buyers held take h was all k =
    rw (get-taken canonical a (absorb canon other) buyers k take) (elim (Bool-cases (str_eq a k)) [
      | inl this ↦ rw this refl
      | inr not_this ↦ elim (Bool-cases (str_eq canonical k)) [
        | inl main ↦
            let e = (eq_iff canonical k).0 main in
            let own : Balanced canon (held k) =
              subst (λ o. Balanced (buyer_or_new 0 o) (held k)) h
                (subst (λ j. Balanced (buyer_or_new 0 (get buyers j)) (held k)) (sym e) (all k)) in
            let its : Balanced other (held a) =
              subst (λ o. Balanced (buyer_or_new 0 o) (held a)) was (all a) in
            rw (not_this, main) (absorb-Balanced canon other (held k) (held a) own its)
        | inr rest ↦ rw (not_this, rest) (all k)
      ]
    ])

merged_held-cases :
    (canonical a : String) (more : List String) (canon : Buyer) (buyers : Dict Buyer)
    (held : String → ℤ)
    → ((merge_aliases canonical (a ∷ more) canon buyers ≡ merge_aliases canonical more canon buyers)
        × (merged_held canonical (a ∷ more) canon buyers held
            ≡ merged_held canonical more canon buyers held))
      ⊎ ((other : Buyer) × (is_skipped canonical a ≡ false)
          × (get buyers a ≡ some other)
          × (merge_aliases canonical (a ∷ more) canon buyers
              ≡ merge_aliases canonical more
                  (absorb canon other)
                  (delete (put buyers canonical (absorb canon other)) a))
          × (merged_held canonical (a ∷ more) canon buyers held
              ≡ merged_held canonical more
                  (absorb canon other)
                  (delete (put buyers canonical (absorb canon other)) a)
                  (moved canonical a (same_tx other canon) held)))
unfolding merge_aliases merged_held
merged_held-cases canonical a more canon buyers held = elim (Bool-cases (is_skipped canonical a)) [
  | inl skip ↦ inl (rw skip refl, rw skip refl)
  | inr take ↦ elim (Option-cases (get buyers a)) [
    | inl e ↦ inl (rw (take, e) refl, rw (take, e) refl)
    | inr (other, e) ↦ inr (other, take, e, rw (take, e) refl, rw (take, e) refl)
  ]
]

merge-AllHeld :
    (canonical : String) (aliases : List String) (canon : Buyer) (buyers : Dict Buyer)
    (held : String → ℤ)
    → get buyers canonical ≡ some canon
    → AllHeld buyers held
    → AllHeld
        (merge_aliases canonical aliases canon buyers)
        (merged_held canonical aliases canon buyers held)
merge-AllHeld canonical [] canon buyers held h all = unfold merge_aliases merged_held in all
merge-AllHeld canonical (a ∷ more) canon buyers held h all =
    elim (merged_held-cases canonical a more canon buyers held) [
      | inl (e, f) ↦ rw (e, f) (merge-AllHeld canonical more canon buyers held h all)
      | inr (other, take, was, e, f) ↦
          let canon' = absorb canon other in
          let next = delete (put buyers canonical canon') a in
          let there : get next canonical ≡ some canon' =
            ground (
              arith,
              take,
              eq_refl canonical,
              get-taken canonical a canon' buyers canonical take,
            ) in
          rw (e, f)
            (merge-AllHeld canonical more canon' next (moved canonical a (same_tx other canon) held)
              there (taken-AllHeld canonical a canon other buyers held take h was all))
    ]

-- Naming the buyer of a deposit keeps every account balanced against what it then holds.
pub named-AllHeld :
    (m : Meters) (canonical : String) (aliases : List String) (now : ℕ) (held : String → ℤ)
    → AllHeld m.buyers held
    → AllHeld
        (apply_buyer_aliases m canonical aliases now).buyers
        (held_named m canonical aliases now held)
named-AllHeld m canonical aliases now held all =
    let canon = buyer_or_new now (get m.buyers canonical) in
    elim (Bool-cases (str_eq canonical "")) [
      | inl none' ↦ rw none' (unfold apply_buyer_aliases link_buyer_aliases in rw none' all)
      | inr named ↦
          let started : AllHeld (put m.buyers canonical canon) held =
            λ k. ground (arith, all k, eq_iff canonical k, get-put m.buyers canonical k canon) in
          rw (named, buyers-apply m canonical aliases now named)
            (merge-AllHeld canonical aliases canon (put m.buyers canonical canon) held
              (ground (arith, eq_refl canonical, get-put m.buyers canonical canonical canon))
              started)
    ]
