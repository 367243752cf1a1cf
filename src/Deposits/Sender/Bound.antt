-- ===== src/Deposits/Sender/Bound.antt =====
-- What the sender checks of src/deposit-watcher.js let through.
use j41_sovagent_dispatcher.Prelude.{
  if-elim, String, Bool, true, false, not, ◌&&◌, Option, none, some, ◌≡◌, ◌≢◌, ◌⊎◌, inl, inr, refl,
  arith, if◌then◌else◌,
}
use j41_sovagent_dispatcher.Deposits.Identity.{same_buyer_identity}
use j41_sovagent_dispatcher.Deposits.Sender.Resolved.{Matched, Resolved, resolve-Resolved}
use j41_sovagent_dispatcher.Deposits.Sender.{
  SenderVerified, absent, is_verified, is_unverified, other_value, Verification, Platform, Refusal,
  sender_mismatch, sender_verification_required, is_mismatch, is_true, resolve_sender, Standing,
  refused, going, rescued, retry_refusal, check_verified, check_unverified, check_named,
  check_present, unless_accepted, check_sender,
}

-- The platform verified the payment and its sender, which is the buyer where it has a name.
abbrev pub Named : Platform → String → Verification → Type 0
Named pf buyer w =
    (w.verified ≡ true)
    × (w.sender_verified ≡ is_verified)
    × ((w.sender_id ≡ none)
        ⊎ ((id : String) × (w.sender_id ≡ some id) × (same_buyer_identity pf.keys id buyer ≡ true)))

-- Where the checks let a report go on, its sender is matched, or it is named.
abbrev pub Stage : Platform → String → Verification → Type 0 → Standing → Type 0
Stage pf buyer v Q (refused r) = Unit
Stage pf buyer v Q (going true w) = Matched pf buyer w
Stage pf buyer v Q (going false w) = (w ≡ v) × Q

abbrev pub Bound : Platform → String → Verification → Standing → Type 0
Bound pf buyer v = Stage pf buyer v (Named pf buyer v)

-- The documented answers: the field is a boolean, or it is absent.
abbrev pub IsDocumented : SenderVerified → Type 0
IsDocumented other_value = ⊥
IsDocumented _ = Unit

module _ (pf : Platform) (buyer : String) where
  module _ (v : Verification) where
    rescued-Stage :
        (Q : Type 0) (o : Bool × Verification) (r : Refusal)
        → Resolved pf buyer o
        → Stage pf buyer v Q (rescued o r)
    rescued-Stage Q (true, w) r h = h
    rescued-Stage Q (false, w) r h = tt

    Stage-map :
        (Q R : Type 0) (s : Standing) → (Q → R) → Stage pf buyer v Q s → Stage pf buyer v R s
    Stage-map Q R (refused r) f h = tt
    Stage-map Q R (going true w) f h = h
    Stage-map Q R (going false w) f (e, q) = (e, f q)

    unless-Stage :
        (Q R : Type 0) (f : Verification → Standing) (s : Standing)
        → Stage pf buyer v Q s
        → (Q → Stage pf buyer v R (f v))
        → Stage pf buyer v (Q × R) (unless_accepted f s)
    unless-Stage Q R f (refused r) h g = tt
    unless-Stage Q R f (going true w) h g = h
    unless-Stage Q R f (going false w) (e, q) g =
        rw e (Stage-map R (Q × R) (f v) (λ r. (q, r)) (g q))

    verified-Stage : Stage pf buyer v (v.verified ≡ true) (check_verified pf buyer v)
    unfolding check_verified
    verified-Stage =
        if-elim (Stage pf buyer v (v.verified ≡ true)) v.verified _ _ (λ h. (refl, h))
          (λ _.
            if-elim (Stage pf buyer v (v.verified ≡ true)) (is_mismatch v.reason) _ _
              (λ _.
                rescued-Stage (v.verified ≡ true) (resolve_sender pf buyer v) _
                  (resolve-Resolved pf buyer v))
              (λ _. tt))

    abbrev Known : Type 0
    Known = v.sender_verified ≢ is_unverified

    abbrev Person : Type 0
    Person =
        (v.sender_id ≡ none)
        ⊎ ((id : String) × (v.sender_id ≡ some id) × (same_buyer_identity pf.keys id buyer ≡ true))

    unverified-Stage : Stage pf buyer v Known (check_unverified pf buyer v)
    unfolding check_unverified
    unverified-Stage = go v.sender_verified refl
      where
        go :
            (o : SenderVerified)
            → v.sender_verified ≡ o
            → Stage pf buyer v Known (elim o as (λ _. Standing) [
              | is_unverified ↦
                  let found = resolve_sender pf buyer v in
                  rescued found (retry_refusal (not found.1.verified) found.1)
              | _ ↦ going false v
            ])
        go absent h = (refl, λ e. cc (h, e))
        go is_verified h = (refl, λ e. cc (h, e))
        go other_value h = (refl, λ e. cc (h, e))
        go is_unverified h =
            rescued-Stage Known (resolve_sender pf buyer v) _ (resolve-Resolved pf buyer v)

    named-Stage :
        Stage pf buyer v ((v.sender_verified ≡ is_verified) → Person) (check_named pf buyer v)
    unfolding check_named
    named-Stage = go v.sender_id refl
      where
        go :
            (o : Option String)
            → v.sender_id ≡ o
            → Stage pf buyer v
                ((v.sender_verified ≡ is_verified) → Person)
                (elim o as (λ _. Standing) [
                  | none ↦ going false v
                  | some id ↦
                      if is_true v.sender_verified && not (same_buyer_identity pf.keys id buyer)
                      then rescued (resolve_sender pf buyer v) sender_mismatch
                      else going false v
                ])
        go none h = (refl, λ _. inl h)
        go (some id) h =
            if-elim (Stage pf buyer v ((v.sender_verified ≡ is_verified) → Person))
              (is_true v.sender_verified && not (same_buyer_identity pf.keys id buyer)) _ _
              (λ _. rescued-Stage _ (resolve_sender pf buyer v) _ (resolve-Resolved pf buyer v))
              (λ b. (refl, λ s. inr (id, h, ground (arith, b, s))))

    present-Stage :
        IsDocumented v.sender_verified
        → Known
        → Stage pf buyer v (v.sender_verified ≡ is_verified) (check_present v)
    present-Stage documented known = go v.sender_verified refl documented
      where
        go :
            (o : SenderVerified)
            → v.sender_verified ≡ o
            → IsDocumented o
            → Stage pf buyer v (v.sender_verified ≡ is_verified) (elim o as (λ _. Standing) [
              | absent ↦ refused sender_verification_required
              | _ ↦ going false v
            ])
        go absent h d = tt
        go is_verified h d = (refl, h)
        go is_unverified h d = absurd (known h)
        go other_value h d = absurd d

    checks-Bound : IsDocumented v.sender_verified → Bound pf buyer v (check_sender pf buyer v)
    unfolding check_sender
    checks-Bound documented =
        Stage-map _ (Named pf buyer v) (check_sender pf buyer v) (λ (((a, k), p), s). (a, s, p s))
          (unless-Stage _ _ check_present _
            (unless-Stage _ _ (check_named pf buyer) _
              (unless-Stage _ _ (check_unverified pf buyer) _ verified-Stage
                (λ _. unverified-Stage))
              (λ _. named-Stage))
            (λ ((a, k), p). present-Stage documented k))

-- Where the platform's answer whether it verified the sender is a boolean or absent, the sender checks let a report go on
-- only where the funding address is the buyer's or the payment was verified as one from a primary address of
-- the buyer, or where the payment was verified with its sender, and the sender has no name or one that is
-- the buyer's.
pub check_sender-Bound :
    (pf : Platform) (buyer : String) (v : Verification)
    → IsDocumented v.sender_verified
    → Bound pf buyer v (check_sender pf buyer v)
check_sender-Bound = checks-Bound
