-- ===== src/FeeTank/Cycle/Sends.antt =====
-- The answers of a sweep of src/fee-tank.js, and what each leaves of the state.
use j41_sovagent_dispatcher.Prelude.{
  String, none, some, length, ◌≡◌, ◌⊎◌, inl, inr, refl, sym, subst, arith, Option-cases,
}
use j41_sovagent_dispatcher.FeeTank.{
  missing_key, nothing_to_sweep, rejected, non_positive_amount, refusing_r_inputs, build_failed,
  broadcast_rejected, no_txid, Payment, Answer, answered, Swept, swept, send_sweep,
}
use j41_sovagent_dispatcher.FeeTank.Cycle.{Network, Round, State, settle_sweep}

abbrev pub IsFailed : Swept → Type 0
IsFailed (swept txid amount inputs) = ⊥
IsFailed _ = Unit

fails : {result : Swept} (f : Swept) → IsFailed f → result ≡ f → IsFailed result
fails f h e = subst IsFailed (sym e) h

Answer-cases :
    (a : Answer)
    → (a ≡ rejected) ⊎ (a ≡ answered none) ⊎ ((txid : String) × (a ≡ answered (some txid)))
Answer-cases rejected = inl refl
Answer-cases (answered none) = inr (inl refl)
Answer-cases (answered (some txid)) = inr (inr (txid, refl))

abbrev pub IsBroadcast : Network → Payment → String → Type 0
IsBroadcast net p txid =
    (hex : String) × (net.build p ≡ some hex) × (net.broadcast hex ≡ answered (some txid))

-- A sweep that is reported was built and broadcast.
pub send_sweep-cases :
    (net : Network) (p : Payment)
    → let result = send_sweep net.broadcast p (net.build p) in
      ((txid : String) × (result ≡ swept txid p.amount_sats (length p.utxos))
        × IsBroadcast net p txid)
      ⊎ IsFailed result
send_sweep-cases net p = elim (Option-cases (net.build p)) [
  | inl e ↦ inr (fails build_failed tt (ground arith))
  | inr (hex, e) ↦ elim (Answer-cases (net.broadcast hex)) [
    | inl a ↦ inr (fails broadcast_rejected tt (ground arith))
    | inr (inl a) ↦ inr (fails no_txid tt (ground arith))
    | inr (inr (txid, a)) ↦ inl (txid, ground arith, (hex, e, a))
  ]
]

pub settle_sweep-failed :
    (r : Round) (r_address : String) (st : State) (result : Swept)
    → IsFailed result
    → settle_sweep r r_address st result ≡ st
settle_sweep-failed r r_address st (swept txid amount inputs) h = absurd h
settle_sweep-failed r r_address st missing_key h = refl
settle_sweep-failed r r_address st nothing_to_sweep h = refl
settle_sweep-failed r r_address st non_positive_amount h = refl
settle_sweep-failed r r_address st refusing_r_inputs h = refl
settle_sweep-failed r r_address st build_failed h = refl
settle_sweep-failed r r_address st broadcast_rejected h = refl
settle_sweep-failed r r_address st no_txid h = refl
