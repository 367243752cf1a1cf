-- ===== src/Meter/Merged.antt =====
-- The records of src/credit-meter.js after a buyer's aliases were merged into the canonical one.
use j41_sovagent_dispatcher.Prelude.{
  ℕ, String, Bool, true, false, ◌||◌, none, some, List, [], ◌∷◌, any, Dict, get, put, delete,
  get-put, get-delete, ◌≡◌, ◌⊎◌, inl, inr, refl, ◌∙◌, arith, Option-cases, Bool-cases, str_eq,
  eq_iff, eq_refl, if◌then◌else◌,
}
use j41_sovagent_dispatcher.Meter.{Buyer, Meters}
use j41_sovagent_dispatcher.Meter.Aliases.{
  resolve_buyer_key, link_all, link_buyer_aliases, absorb, buyer_or_new, merge_aliases,
  apply_buyer_aliases,
}

pub resolve_known :
    (m : Meters) (id : String) (b : Buyer) → get m.buyers id ≡ some b → resolve_buyer_key m id ≡ id
unfolding resolve_buyer_key
resolve_known m id b h = ground arith

-- The alias is one that the merge passes over.
abbrev pub is_skipped : String → String → Bool
is_skipped canonical a = str_eq a "" || str_eq a canonical

-- One step of the loop: nothing is there to take in, or a record is taken in.
pub merge-cases :
    (canonical a : String) (more : List String) (canon : Buyer) (buyers : Dict Buyer)
    → (((is_skipped canonical a ≡ true) ⊎ (get buyers a ≡ none))
        × (merge_aliases canonical (a ∷ more) canon buyers
            ≡ merge_aliases canonical more canon buyers))
      ⊎ ((other : Buyer) × (is_skipped canonical a ≡ false)
          × (get buyers a ≡ some other)
          × (merge_aliases canonical (a ∷ more) canon buyers
              ≡ merge_aliases canonical more
                  (absorb canon other)
                  (delete (put buyers canonical (absorb canon other)) a)))
unfolding merge_aliases
merge-cases canonical a more canon buyers = elim (Bool-cases (is_skipped canonical a)) [
  | inl skip ↦ inl (inl skip, ground (arith, skip))
  | inr take ↦ elim (Option-cases (get buyers a)) [
    | inl e ↦ inl (inr e, ground (arith, take, e))
    | inr (other, e) ↦ inr (other, take, e, ground (arith, take, e))
  ]
]

-- What the loop takes in is gone.
pub get-taken :
    (canonical a : String) (canon : Buyer) (buyers : Dict Buyer) (k : String)
    → is_skipped canonical a ≡ false
    → get (delete (put buyers canonical canon) a) k
      ≡ (if str_eq a k then none else if str_eq canonical k then some canon else get buyers k)
get-taken canonical a canon buyers k take =
    ground (arith, get-delete (put buyers canonical canon) a k, get-put buyers canonical k canon)

-- After the loop the canonical record is there, what was not there is not there, and the aliases are gone.
pub record Merged (canonical : String) (aliases : List String) (before after : Dict Buyer)
    : Type 0 where
  pub canon : Buyer
  pub found : get after canonical ≡ some canon
  pub no_more : (k : String) → get before k ≡ none → get after k ≡ none
  pub gone :
      (k : String)
      → any (λ a. str_eq a k) aliases ≡ true
      → is_skipped canonical k ≡ false
      → get after k ≡ none

pub merge-Merged :
    (canonical : String) (aliases : List String) (canon : Buyer) (buyers : Dict Buyer)
    → get buyers canonical ≡ some canon
    → Merged canonical aliases buyers (merge_aliases canonical aliases canon buyers)
merge-Merged canonical [] canon buyers h = record {
  canon = canon;
  found = unfold merge_aliases in h;
  no_more = λ k e. unfold merge_aliases in e;
  gone = λ k e s. absurd (cc e);
}
merge-Merged canonical (a ∷ more) canon buyers h =
    elim (merge-cases canonical a more canon buyers) [
      | inl (why, e) ↦
          let rest = merge-Merged canonical more canon buyers h in
          rw e (record {
            canon = rest.canon;
            found = rest.found;
            no_more = rest.no_more;
            gone = λ k m s. ground (arith, m, s, why, rest.gone k, rest.no_more k, eq_iff a k);
          })
      | inr (other, take, was, e) ↦
          let next = delete (put buyers canonical (absorb canon other)) a in
          let there : get next canonical ≡ some (absorb canon other) = ground (
            arith,
            take,
            eq_refl canonical,
            get-taken canonical a (absorb canon other) buyers canonical take,
          ) in
          let rest = merge-Merged canonical more (absorb canon other) next there in
          rw e (record {
            canon = rest.canon;
            found = rest.found;
            no_more = λ k n. rest.no_more k (
                ground (
                  arith,
                  n,
                  h,
                  take,
                  eq_iff canonical k,
                  get-taken canonical a (absorb canon other) buyers k take,
                ));
            gone = λ k m s. ground (
              arith,
              m,
              s,
              rest.gone k,
              rest.no_more k,
              get-taken canonical a (absorb canon other) buyers k take,
            );
          })
    ]

-- Where no alias has a record, the loop changes nothing.
pub merge_idle :
    (canonical : String) (aliases : List String) (canon : Buyer) (buyers : Dict Buyer)
    → ((k : String)
        → any (λ a. str_eq a k) aliases ≡ true
        → is_skipped canonical k ≡ false
        → get buyers k ≡ none)
    → merge_aliases canonical aliases canon buyers ≡ buyers
merge_idle canonical [] canon buyers h = unfold merge_aliases in refl
merge_idle canonical (a ∷ more) canon buyers h = elim (merge-cases canonical a more canon buyers) [
  | inl (why, e) ↦ e ∙ merge_idle canonical more canon buyers (λ k m s. h k (ground (arith, m)) s)
  | inr (other, take, was, e) ↦ absurd (ground (arith, was, take, eq_refl a, h a))
]

link-known :
    (canonical : String) (aliases : List String) (d : Dict String) (k : String)
    → get d k ≡ some canonical
    → get (link_all canonical aliases d) k ≡ some canonical
unfolding link_all
link-known canonical [] d k h = h
link-known canonical (a ∷ more) d k h = ground (
  arith,
  h,
  get-put d a k canonical,
  link-known canonical more d k h,
  link-known canonical more (put d a canonical) k,
)

link-named :
    (canonical : String) (aliases : List String) (d : Dict String) (k : String)
    → any (λ a. str_eq a k) aliases ≡ true
    → is_skipped canonical k ≡ false
    → get (link_all canonical aliases d) k ≡ some canonical
unfolding link_all
link-named canonical [] d k m s = absurd (cc m)
link-named canonical (a ∷ more) d k m s = ground (
  arith,
  m,
  s,
  eq_iff a k,
  get-put d a k canonical,
  link-named canonical more d k,
  link-named canonical more (put d a canonical) k,
  link-known canonical more (put d a canonical) k,
)

module _ (m : Meters) (canonical : String) (aliases : List String) (now : ℕ)
    (named : str_eq canonical "" ≡ false) where
  -- The records that the loop of `applyBuyerAliases` starts from.
  abbrev pub start : Dict Buyer
  start = put m.buyers canonical (buyer_or_new now (get m.buyers canonical))

  pub buyers-apply :
      (apply_buyer_aliases m canonical aliases now).buyers
      ≡ merge_aliases canonical aliases (buyer_or_new now (get m.buyers canonical)) start
  unfolding apply_buyer_aliases link_buyer_aliases
  buyers-apply = ground (arith, named)

  aliases-apply :
      (apply_buyer_aliases m canonical aliases now).aliases
      ≡ link_all canonical aliases (put m.aliases canonical canonical)
  unfolding apply_buyer_aliases link_buyer_aliases
  aliases-apply = ground (arith, named)

  pub apply-Merged :
      Merged canonical aliases start (apply_buyer_aliases m canonical aliases now).buyers
  apply-Merged = rw buyers-apply (
      merge-Merged canonical aliases (buyer_or_new now (get m.buyers canonical)) start (
        ground (
          arith,
          eq_refl canonical,
          get-put m.buyers canonical canonical (buyer_or_new now (get m.buyers canonical)),
        )))

  -- Where the canonical record is there and the aliases' are not, the records stay as they are.
  pub apply_idle :
      (b : Buyer)
      → get m.buyers canonical ≡ some b
      → ((k : String)
          → any (λ a. str_eq a k) aliases ≡ true
          → is_skipped canonical k ≡ false
          → get m.buyers k ≡ none)
      → (k : String) → get (apply_buyer_aliases m canonical aliases now).buyers k ≡ get m.buyers k
  apply_idle b h gone k =
      let canon = buyer_or_new now (get m.buyers canonical) in
      let idle = merge_idle canonical aliases canon start (λ j n s.
        ground (arith, gone j n s, s, eq_iff canonical j, get-put m.buyers canonical j canon)) in
      rw (buyers-apply, idle)
        (ground (arith, h, eq_iff canonical k, get-put m.buyers canonical k canon))

  -- The buyer's names lead to the canonical record.
  pub resolve-apply :
      (buyers : Dict Buyer) (b : Buyer) (id : String)
      → get buyers canonical ≡ some b
      → ((any (λ a. str_eq a id) aliases ≡ true) × (get buyers id ≡ none) × (str_eq id "" ≡ false))
        ⊎ (id ≡ canonical)
      → resolve_buyer_key
          (record (apply_buyer_aliases m canonical aliases now) { buyers = buyers })
          id
        ≡ canonical
  unfolding resolve_buyer_key
  resolve-apply buyers b id h (inr e) = rw e (ground (arith, h, named))
  resolve-apply buyers b id h (inl (n, none', s)) = rw aliases-apply (
      ground (
        arith,
        h,
        none',
        s,
        named,
        eq_iff id canonical,
        link-named canonical aliases (put m.aliases canonical canonical) id n,
      ))
