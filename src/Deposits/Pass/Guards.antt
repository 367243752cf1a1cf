-- ===== src/Deposits/Pass/Guards.antt =====
-- The gates and the budget of a whole pass of the reconciliation in src/deposit-watcher.js.
use j41_sovagent_dispatcher.Prelude.{
  if-elim, ℕ, suc, ◌+◌, ◌≤◌, ◌<◌, String, Bool, true, false, not, List, [], ◌∷◌, none, some, ◌≡◌,
  ◌⊎◌, inl, inr, refl, arith,
}
use j41_sovagent_dispatcher.Deposits.{Processed, Desk}
use j41_sovagent_dispatcher.Deposits.Credit.{Fate}
use j41_sovagent_dispatcher.Deposits.Evidence.{
  StatusAnswer, throws, answers, unknown, lookup_of, synced_view, is_systemic, missed, is_evident,
}
use j41_sovagent_dispatcher.Deposits.Reconcile.{reconcile_one}
use j41_sovagent_dispatcher.Deposits.Pass.{
  backfill, Node, still_synced, pass_of, look_at, lookups, goes_on, reconcile_open,
  recheck_reversals, open_of, then_recheck, reconcile_synced, reconcile_adopted, reconcile_locked,
  PassState,
}
use j41_sovagent_dispatcher.Deposits.Pass.Debits.{debits_made, reconcile_one-Grounded}
use j41_sovagent_dispatcher.Deposits.Pass.Window.{recent, expire-expire}
use j41_sovagent_dispatcher.Deposits.Pass.Restored.{recheck-debits}

-- What the node says where a record is debited.
abbrev pub Trusted : Node → List Processed → Type 0
Trusted node rs =
    (synced_view node.before node.mainnet ≡ true)
    × (still_synced node ≡ true)
    × (node.supported ≡ true)
    × (node.suspended ≡ false)
    × (is_systemic (lookups node rs) ≡ false)

lookup_of-supported :
    (supported : Bool) (a : StatusAnswer) → lookup_of supported a ≡ unknown → supported ≡ true
unfolding lookup_of
lookup_of-supported true a h = refl
lookup_of-supported false (throws none) h = absurd (cc h)
lookup_of-supported false (throws (some code)) h = absurd (cc h)
lookup_of-supported false (answers none) h = absurd (cc h)
lookup_of-supported false (answers (some c)) h = absurd (cc h)

module _ (node : Node) (now : ℕ) where
  evident-synced :
      (r : Processed) → is_evident (pass_of node now) r ≡ true → still_synced node ≡ true
  unfolding is_evident
  evident-synced r h = ground (arith, h)

  -- One record's share of the debits and of the budget.
  abbrev Share : Fate → Desk → Desk → Type 0
  Share fate k after =
      ((debits_made after.moves ≡ debits_made k.moves)
        × (goes_on fate ≡ true → recent now after ≡ recent now k))
      ⊎ ((debits_made after.moves ≡ suc (debits_made k.moves))
          × (goes_on fate ≡ true → recent now after ≡ suc (recent now k))
          × (recent now k < node.budget)
          × (still_synced node ≡ true)
          × (node.supported ≡ true)
          × (node.suspended ≡ false))

  one-Share :
      (fate : Fate) (k : Desk) (txid : String)
      → Share fate k (reconcile_one fate (pass_of node now) k txid (look_at node txid))
  one-Share fate k txid =
      elim (reconcile_one-Grounded fate (pass_of node now) k txid (look_at node txid)) [
        | inl (m, s) ↦ inl (
          m,
          λ g. elim (s g) [
            | inl e ↦ rw e refl
            | inr e ↦ rw (e, (expire-expire now k.recent_reversals).0) refl
          ],
        )
        | inr (u, r, at, ((c, b, e, s, l), m, f)) ↦ inr (
          m,
          λ g. rw (f g, (expire-expire now k.recent_reversals).1) refl,
          l,
          evident-synced (missed (pass_of node now) r) e,
          lookup_of-supported node.supported (node.status txid) u,
          s,
        )
      ]

  -- Debits are made by a node that is still synced, and fit in the budget with those of the hour.
  abbrev Fits : ℕ → Desk → Desk → Type 0
  Fits b k after =
      (debits_made after.moves + recent now k ≤ debits_made k.moves + b)
      × ((debits_made after.moves ≡ debits_made k.moves)
          ⊎ ((still_synced node ≡ true) × (node.supported ≡ true) × (node.suspended ≡ false)))

  open-Fits :
      (b : ℕ) (k : Desk) (rs : List Processed)
      → node.budget ≤ b
      → recent now k ≤ b
      → Fits b k (reconcile_open node now k rs).1
  unfolding reconcile_open
  open-Fits b k [] hb hr = (omega (arith, hr), inl refl)
  open-Fits b k (r ∷ rs) hb hr =
      let fate = node.fate r.txid in
      let after = reconcile_one fate (pass_of node now) k r.txid (look_at node r.txid) in
      let share = one-Share fate k r.txid in
      if-elim (λ (a : Bool × Desk). Fits b k a.1) (goes_on fate) _ _
        (λ g. elim share [
          | inl (m, s) ↦
              let (f, o) = open-Fits b after rs hb (omega (arith, hr, s g)) in
              (
                omega (arith, f, m, s g),
                elim o [ inl e ↦ inl (omega (arith, e, m)) | inr y ↦ inr y ],
              )
          | inr (m, s, l, y, z, w) ↦
              let (f, o) = open-Fits b after rs hb (omega (arith, hb, l, s g)) in
              (omega (arith, f, m, s g), inr (y, z, w))
        ])
        (λ g. elim share [
          | inl (m, s) ↦ (omega (arith, hr, m), inl m)
          | inr (m, s, l, y, z, w) ↦ (omega (arith, hb, l, m), inr (y, z, w))
        ])

  -- One pass within the budget, by a node that can be trusted.
  abbrev Guarded : ℕ → Desk → List Processed → Desk → Type 0
  Guarded b k rs after =
      (debits_made after.moves + recent now k ≤ debits_made k.moves + b)
      × ((debits_made after.moves ≡ debits_made k.moves) ⊎ Trusted node rs)

  recheck-Guarded :
      (b : ℕ) (k : Desk) (rs : List Processed)
      → recent now k ≤ b
      → Guarded b k rs (recheck_reversals node now k)
  recheck-Guarded b k rs h =
      (omega (arith, h, recheck-debits node now k), inl (recheck-debits node now k))

  then-debits :
      (o : Bool × Desk) → debits_made (then_recheck node now o).moves ≡ debits_made o.1.moves
  then-debits (true, k) = recheck-debits node now k
  then-debits (false, k) = refl

  synced-Guarded :
      (b : ℕ) (k : Desk) (rs : List Processed)
      → node.budget ≤ b
      → recent now k ≤ b
      → Guarded b k rs (reconcile_synced node now k rs).1
  unfolding reconcile_synced
  synced-Guarded b k rs hb hr =
      if-elim (λ (a : PassState × Desk). Guarded b k rs a.1)
        (not (synced_view node.before node.mainnet)) _ _ (λ _. recheck-Guarded b k rs hr)
        (λ v.
          if-elim (λ (a : PassState × Desk). Guarded b k rs a.1) (is_systemic (lookups node rs)) _ _
            (λ _. recheck-Guarded b k rs hr)
            (λ y.
              let (f, o) = open-Fits b k rs hb hr in
              let m = then-debits (reconcile_open node now k rs) in
              (
                omega (arith, f, m),
                elim o [
                  | inl e ↦ inl (omega (arith, e, m))
                  | inr (s, p, u) ↦ inr (ground (arith, v), s, p, u, y)
                ],
              )))

  adopted-Guarded :
      (b : ℕ) (k : Desk) (rs : List Processed)
      → node.budget ≤ b
      → recent now k ≤ b
      → Guarded b k rs (reconcile_adopted node now k rs).1
  adopted-Guarded b k [] hb hr = recheck-Guarded b k [] hr
  adopted-Guarded b k (r ∷ rs) hb hr = synced-Guarded b k (r ∷ rs) hb hr

  locked-Guarded :
      (b : ℕ) (k : Desk)
      → node.budget ≤ b
      → recent now k ≤ b
      → (debits_made (reconcile_locked node now k).1.moves + recent now k ≤ debits_made k.moves + b)
        × ((debits_made (reconcile_locked node now k).1.moves ≡ debits_made k.moves)
            ⊎ ((node.enabled ≡ true) × Trusted node (open_of (backfill now k))))
  unfolding reconcile_locked backfill
  locked-Guarded b k hb hr =
      if-elim
        (λ (a : PassState × Desk).
          (debits_made a.1.moves + recent now k ≤ debits_made k.moves + b)
          × ((debits_made a.1.moves ≡ debits_made k.moves)
              ⊎ ((node.enabled ≡ true) × Trusted node (open_of (backfill now k)))))
        node.enabled _ _
        (λ e.
          let (f, o) = adopted-Guarded b (backfill now k) (open_of (backfill now k)) hb hr in
          (f, elim o [ inl m ↦ inl m | inr y ↦ inr (e, y) ]))
        (λ _. (omega (arith, hr), inl refl))

-- A pass over the deposits never takes the reversals of the last hour above the budget, where they were not above it
-- before.
pub reconcile_locked-budget :
    (node : Node) (now : ℕ) (k : Desk)
    → recent now k ≤ node.budget
    → debits_made (reconcile_locked node now k).1.moves + recent now k
      ≤ debits_made k.moves + node.budget
reconcile_locked-budget node now k h = (locked-Guarded node now node.budget k (omega arith) h).0

-- A pass that debits a buyer is switched on, its node is synced at both ends and did not fall back, the platform
-- tells a transaction that is not found from other failures, the financial suspension is off, and the
-- lookups of the open records, where they are several, do not all miss.
pub reconcile_locked-Trusted :
    (node : Node) (now : ℕ) (k : Desk)
    → debits_made k.moves < debits_made (reconcile_locked node now k).1.moves
    → (node.enabled ≡ true) × Trusted node (open_of (backfill now k))
reconcile_locked-Trusted node now k h =
    elim (locked-Guarded node now (node.budget + recent now k) k (omega arith) (omega arith)).1 [
      | inl e ↦ absurd (omega (arith, h, e))
      | inr y ↦ y
    ]
