-- ===== src/Deposits/Sender.antt =====
-- The sender checks of `_reportVerifiedDeposit` in src/deposit-watcher.js: whether the funding transaction is bound to the
-- buyer that claims it.
pub mod Resolved
pub mod Bound
use j41_sovagent_dispatcher.Prelude.{
  ℕ, leb, String, Number, Bool, true, false, not, ◌&&◌, ◌||◌, ◌==◌, Option, none, some, List, [],
  ◌∷◌, all, length, keep, str_eq, if◌then◌else◌,
}
use j41_sovagent_dispatcher.Deposits.Identity.{
  codes, Keys, same_buyer_identity, sender_matches_buyer,
}

-- `senderVerified`, as it comes: the field may be absent, and may hold what is no boolean, such as null.
pub data SenderVerified : Type 0 where
  absent is_verified is_unverified other_value : SenderVerified

-- What `verifyPayment` answers. A text that is missing or empty is `none`, and so is an amount that is absent.
pub record Verification : Type 0 where
  pub verified : Bool
  pub reason : Option String
  pub sender_verified : SenderVerified
  pub sender_id : Option String
  pub sender_address : Option String
  pub sender : Option String
  pub from_address : Option String
  pub from : Option String
  pub confirmed_amount : Option Number

-- What the platform answers during a report: `none` is a call that throws. `retry` is `verifyPayment` with another
-- expected sender.
pub record Platform : Type 0 where
  pub keys : String → Option Keys
  pub verify : Option Verification
  pub retry : String → Option Verification
  pub status : Option (Option ℕ)

pub data Refusal : Type 0 where
  already_processed : Refusal
  verification_failed sender_mismatch sender_verification_required : Refusal
  credit_write_failed : Refusal

-- A character of an R-address after its first.
is_base58 : ℕ → Bool
is_base58 c =
    (leb b'1' c && leb c b'9')
    || (leb b'A' c && leb c b'H')
    || (leb b'J' c && leb c b'N')
    || (leb b'P' c && leb c b'Z')
    || (leb b'a' c && leb c b'k')
    || (leb b'm' c && leb c b'z')

is_r_address : List ℕ → Bool
is_r_address [] = false
is_r_address (c ∷ cs) = (c == b'R') && (leb 24 (length cs) && all is_base58 cs)

abbrev pub first_of : Option String → Option String → Option String
first_of none o = o
first_of (some s) o = some s

-- `extractVinAddress`.
unfoldable pub extract_vin_address : Verification → Option String
unfolding is_r_address is_base58
extract_vin_address v = first_of v.sender_address (
    first_of v.sender (
      first_of v.from_address (
        first_of v.from (elim v.sender_id [
          | none ↦ none
          | some id ↦ if is_r_address (codes id) then some id else none
        ]))))

abbrev pub is_mismatch : Option String → Bool
is_mismatch none = false
is_mismatch (some r) = str_eq r "sender_mismatch"

-- A reason that is given and is not a mismatch.
abbrev pub is_other : Option String → Bool
is_other none = false
is_other (some r) = not (str_eq r "sender_mismatch")

-- `=== true`.
abbrev pub is_true : SenderVerified → Bool
is_true is_verified = true
is_true _ = false

abbrev pub vin_matches : Verification → Keys → Bool
vin_matches v k = elim (extract_vin_address v) [
  | none ↦ false
  | some vin ↦ sender_matches_buyer vin k
]

-- What a retry with the first primary address proves.
abbrev pub judge_retry : Keys → Verification → Bool
judge_retry k retry =
    if not retry.verified && is_other retry.reason
    then false
    else (retry.verified && is_true retry.sender_verified)
      || (vin_matches retry k && (retry.verified || is_mismatch retry.reason))

abbrev pub named : List String → List String
named ps = keep (λ p. not (str_eq p "")) ps

abbrev pub retry_primary :
    (String → Option Verification) → Keys → List String → Verification → Bool × Verification
retry_primary retry k [] v = (false, v)
retry_primary retry k (p ∷ ps) v = elim (retry p) [
  | none ↦ (false, v)
  | some again ↦ (judge_retry k again, again)
]

-- `resolveSenderViaPrimaryR`: whether the sender is matched after all, and the verification that counts.
unfoldable pub resolve_sender : Platform → String → Verification → Bool × Verification
resolve_sender pf buyer v = elim (pf.keys buyer) [
  | none ↦ (false, v)
  | some k ↦ elim (extract_vin_address v) [
    | some vin ↦ (sender_matches_buyer vin k, v)
    | none ↦ retry_primary pf.retry k (named k.primary) v
  ]
]

-- Where the checks stand: refused, or going on with a sender that is accepted or not yet.
pub data Standing : Type 0 where
  refused : Refusal → Standing
  going : Bool → Verification → Standing

abbrev pub rescued : Bool × Verification → Refusal → Standing
rescued (true, v) r = going true v
rescued (false, v) r = refused r

-- A retry that fails on the amount or the address is not called a mismatch.
abbrev pub retry_refusal : Bool → Verification → Refusal
retry_refusal fails v = if is_other v.reason && fails then verification_failed else sender_mismatch

-- The verdict of the platform on the payment.
unfoldable pub check_verified : Platform → String → Verification → Standing
check_verified pf buyer v =
    if v.verified
    then going false v
    else if is_mismatch v.reason
    then rescued (resolve_sender pf buyer v) (retry_refusal true (resolve_sender pf buyer v).1)
    else refused verification_failed

-- The sender could not be verified.
unfoldable pub check_unverified : Platform → String → Verification → Standing
check_unverified pf buyer v = elim v.sender_verified [
  | is_unverified ↦
      let found = resolve_sender pf buyer v in
      rescued found (retry_refusal (not found.1.verified) found.1)
  | _ ↦ going false v
]

-- The sender is verified as somebody.
unfoldable pub check_named : Platform → String → Verification → Standing
check_named pf buyer v = elim v.sender_id [
  | none ↦ going false v
  | some id ↦
      if is_true v.sender_verified && not (same_buyer_identity pf.keys id buyer)
      then rescued (resolve_sender pf buyer v) sender_mismatch
      else going false v
]

abbrev pub check_present : Verification → Standing
check_present v = elim v.sender_verified [
  | absent ↦ refused sender_verification_required
  | _ ↦ going false v
]

-- A check is made while the sender is not accepted.
abbrev pub unless_accepted : (Verification → Standing) → Standing → Standing
unless_accepted f (going false v) = f v
unless_accepted f s = s

unfoldable pub check_sender : Platform → String → Verification → Standing
check_sender pf buyer v = unless_accepted check_present (
    unless_accepted (check_named pf buyer)
      (unless_accepted (check_unverified pf buyer) (check_verified pf buyer v)))
