-- ===== src/Deposits/Identity.antt =====
-- The names of buyers in src/deposit-watcher.js: whether two of them are one identity. Case is folded for ASCII.
use Prim.Native.Char.{code}
use j41_sovagent_dispatcher.Prelude.{
  ℕ, ◌+◌, ◌==◌, leb, String, Bool, true, false, not, ◌&&◌, ◌||◌, Option, none, some, List, [], ◌∷◌,
  map, any, length, str_eq, if◌then◌else◌,
}

abbrev pub codes : String → List ℕ
codes String.[] = []
codes (String.◌∷◌ c s) = code c ∷ codes s

-- What `trim` takes off.
is_space : ℕ → Bool
is_space c =
    (leb 9 c && leb c 13)
    || (c == 32)
    || (c == 160)
    || (c == 5760)
    || (leb 8192 c && leb c 8202)
    || (c == 8232)
    || (c == 8233)
    || (c == 8239)
    || (c == 8287)
    || (c == 12288)
    || (c == 65279)

drop_while : (ℕ → Bool) → List ℕ → List ℕ
drop_while p [] = []
drop_while p (c ∷ cs) = if p c then drop_while p cs else c ∷ cs

drop_end : (ℕ → Bool) → List ℕ → List ℕ
drop_end p [] = []
drop_end p (c ∷ cs) =
    let rest = drop_end p cs in if p c && leb (length rest) 0 then [] else c ∷ rest

unfoldable pub trim_codes : List ℕ → List ℕ
unfolding drop_while drop_end is_space
trim_codes cs = drop_end is_space (drop_while is_space cs)

abbrev pub lower_code : ℕ → ℕ
lower_code c = if leb b'A' c && leb c b'Z' then c + 32 else c

abbrev pub eq_codes : List ℕ → List ℕ → Bool
eq_codes [] [] = true
eq_codes (a ∷ rest) (b ∷ others) = (a == b) && eq_codes rest others
eq_codes _ _ = false

-- `normId`.
unfoldable pub norm_id : List ℕ → List ℕ
unfolding drop_end
norm_id cs = drop_end (λ c. c == b'@') (map lower_code (trim_codes cs))

-- `stripChain`: a chain's name before the last sign is taken out.
unfoldable pub strip_chain : List ℕ → List ℕ
strip_chain [] = []
strip_chain (c ∷ cs) =
    let rest = strip_chain cs in
    if eq_codes (map lower_code (c ∷ cs)) (codes ".vrsctest@")
      || eq_codes (map lower_code (c ∷ cs)) (codes ".vrsc@")
    then b'@' ∷ []
    else c ∷ rest

abbrev pub same_id : String → String → Bool
same_id a b = eq_codes (norm_id (codes a)) (norm_id (codes b))

-- What `getIdentityKeys` answers; an address that is missing or empty is `none`.
pub record Keys : Type 0 where
  pub i_address : Option String
  pub primary : List String
  pub minimum_signatures : ℕ

abbrev pub is_either : Option String → String → Bool
is_either none other = false
is_either (some i) other = str_eq i other || same_id i other

abbrev pub both_same : Option String → Option String → Bool
both_same (some a) (some b) = str_eq a b
both_same _ _ = false

abbrev pub same_keys : Option Keys → Option Keys → String → String → Bool
same_keys (some ka) (some kb) a b =
    both_same ka.i_address kb.i_address || (is_either ka.i_address b || is_either kb.i_address a)
same_keys _ _ a b = false

-- `sameBuyerIdentity`; `keys` is `none` where the lookup throws.
unfoldable pub same_buyer_identity : (String → Option Keys) → String → String → Bool
same_buyer_identity keys a b =
    if str_eq a "" || str_eq b ""
    then false
    else same_id a b
      || (eq_codes (norm_id (strip_chain (codes a))) (norm_id (strip_chain (codes b)))
          || same_keys (keys a) (keys b) a b)

-- `resolveCreditBuyerId`: the name that is credited, and its aliases.
unfoldable pub resolve_credit_buyer_id : Option Keys → String → String × List String
resolve_credit_buyer_id none claimed = (claimed, if str_eq claimed "" then [] else claimed ∷ [])
resolve_credit_buyer_id (some k) claimed = elim k.i_address [
  | none ↦ (claimed, claimed ∷ k.primary)
  | some i ↦ (i, claimed ∷ i ∷ k.primary)
]

-- `senderMatchesBuyer`: the funding address is a primary address of the buyer or its i-address.
unfoldable pub sender_matches_buyer : String → Keys → Bool
sender_matches_buyer vin k =
    not (str_eq vin "")
    && (any (λ p. str_eq p vin) k.primary || elim k.i_address [
      | none ↦ false
      | some i ↦ eq_codes (trim_codes (codes i)) (trim_codes (codes vin))
    ])
