-- ===== src/Deposits/Sender/Resolved.antt =====
-- What `resolveSenderViaPrimaryR` of src/deposit-watcher.js answers.
use j41_sovagent_dispatcher.Prelude.{
  eq_refl, String, Bool, true, false, not, Option, none, some, List, [], ◌∷◌, keep, any, str_eq,
  ◌≡◌, ◌⊎◌, inl, inr, refl, arith,
}
use j41_sovagent_dispatcher.Deposits.Identity.{Keys, sender_matches_buyer}
use j41_sovagent_dispatcher.Deposits.Sender.{
  SenderVerified, absent, is_verified, is_unverified, other_value, Verification, Platform,
  extract_vin_address, is_true, vin_matches, judge_retry, named, retry_primary, resolve_sender,
}

-- The funding address is the buyer's, or the platform verified the payment for a primary address of the buyer.
abbrev pub Matched : Platform → String → Verification → Type 0
Matched pf buyer w =
    (k : Keys) × (pf.keys buyer ≡ some k)
    × ((vin_matches w k ≡ true)
        ⊎ ((p : String) × (any (λ q. str_eq q p) k.primary ≡ true)
            × (pf.retry p ≡ some w)
            × (w.verified ≡ true)
            × (w.sender_verified ≡ is_verified)))

-- What `resolve_sender` answers.
abbrev pub Resolved : Platform → String → Bool × Verification → Type 0
Resolved pf buyer (true, w) = Matched pf buyer w
Resolved pf buyer (false, w) = Unit

is_true-is_verified : (o : SenderVerified) → is_true o ≡ true → o ≡ is_verified
is_true-is_verified is_verified h = refl
is_true-is_verified absent h = absurd (cc h)
is_true-is_verified is_unverified h = absurd (cc h)
is_true-is_verified other_value h = absurd (cc h)

any-keep :
    (p : String) (f : String → Bool) (ps : List String)
    → any (λ q. str_eq q p) (keep f ps) ≡ true
    → any (λ q. str_eq q p) ps ≡ true
any-keep p f [] h = h
any-keep p f (q ∷ ps) h = ground (arith, h, any-keep p f ps)

any-named :
    (ps : List String) (p : String) (rest : List String)
    → named ps ≡ p ∷ rest
    → any (λ q. str_eq q p) ps ≡ true
any-named ps p rest h = any-keep p (λ q. not (str_eq q "")) ps (rw h (ground (arith, eq_refl p)))

judge-cases :
    (k : Keys) (w : Verification)
    → judge_retry k w ≡ true
    → (vin_matches w k ≡ true) ⊎ ((w.verified ≡ true) × (is_true w.sender_verified ≡ true))
judge-cases k w h = ground (arith, h)

module _ (pf : Platform) (buyer : String) where
  retry-Resolved :
      (k : Keys) (ps : List String) (v : Verification)
      → pf.keys buyer ≡ some k
      → named k.primary ≡ ps
      → Resolved pf buyer (retry_primary pf.retry k ps v)
  retry-Resolved k [] v hk hp = tt
  retry-Resolved k (p ∷ ps) v hk hp = answered (pf.retry p) refl
    where
      judged :
          (w : Verification)
          → pf.retry p ≡ some w
          → (b : Bool) → judge_retry k w ≡ b
          → Resolved pf buyer (b, w)
      judged w hr false h = tt
      judged w hr true h = (
        k,
        hk,
        elim (judge-cases k w h) [
          | inl m ↦ inl m
          | inr (a, s) ↦
              inr (p, any-named k.primary p ps hp, hr, a, is_true-is_verified w.sender_verified s)
        ],
      )

      answered :
          (o : Option Verification)
          → pf.retry p ≡ o
          → Resolved pf buyer (elim o as (λ _. Bool × Verification) [
            | none ↦ (false, v)
            | some again ↦ (judge_retry k again, again)
          ])
      answered none h = tt
      answered (some w) h = judged w h (judge_retry k w) refl

  pub resolve-Resolved : (v : Verification) → Resolved pf buyer (resolve_sender pf buyer v)
  unfolding resolve_sender
  resolve-Resolved v = found (pf.keys buyer) refl
    where
      matched :
          (k : Keys) (vin : String)
          → pf.keys buyer ≡ some k
          → extract_vin_address v ≡ some vin
          → (b : Bool) → sender_matches_buyer vin k ≡ b
          → Resolved pf buyer (b, v)
      matched k vin hk hv false h = tt
      matched k vin hk hv true h = (k, hk, inl (rw (vin_matches, hv) h))

      bound :
          (k : Keys)
          → pf.keys buyer ≡ some k
          → (o : Option String) → extract_vin_address v ≡ o
          → Resolved pf buyer (elim o as (λ _. Bool × Verification) [
            | some vin ↦ (sender_matches_buyer vin k, v)
            | none ↦ retry_primary pf.retry k (named k.primary) v
          ])
      bound k hk none hv = retry-Resolved k (named k.primary) v hk refl
      bound k hk (some vin) hv = matched k vin hk hv (sender_matches_buyer vin k) refl

      found :
          (o : Option Keys)
          → pf.keys buyer ≡ o
          → Resolved pf buyer (elim o as (λ _. Bool × Verification) [
            | none ↦ (false, v)
            | some k ↦ elim (extract_vin_address v) as (λ _. Bool × Verification) [
              | some vin ↦ (sender_matches_buyer vin k, v)
              | none ↦ retry_primary pf.retry k (named k.primary) v
            ]
          ])
      found none h = tt
      found (some k) h = bound k h (extract_vin_address v) refl
