-- ===== src/Spend/Addresses/Laws.antt =====
-- What the operations of the financial allowlist in src/spend-policy.js do to membership.
use j41_sovagent_dispatcher.Prelude.{
  String, Bool, true, false, not, ◌||◌, inl, inr, List, [], ◌∷◌, ◌++◌, map, any, keep, str_eq, ◌≡◌,
  refl, sym, ◌∙◌, arith, if◌then◌else◌, Bool-cases, eq_iff,
}
use j41_sovagent_dispatcher.Spend.{Entry, Allowlist, World}
use j41_sovagent_dispatcher.Spend.Addresses.{
  load_financial_allowlist, is_address_in_allowlist, write_allowlist, add_active_job_to_allowlist,
  remove_active_job_from_allowlist, add_to_refund_allowlist,
}

module _ {ℓ} {A : Type ℓ} (p : A → Bool) where
  any-append : (xs ys : List A) → any p (xs ++ ys) ≡ (any p xs || any p ys)
  any-append [] ys = refl
  any-append (x ∷ xs) ys = ground (arith, any-append xs ys)

  any-snoc : (xs : List A) (x : A) → p x ≡ true → any p (xs ++ x ∷ []) ≡ true
  any-snoc [] x h = ground arith
  any-snoc (y ∷ xs) x h = ground (arith, any-snoc xs x h)

any-map-snoc :
    (xs : List Entry) (e : Entry) (a : String)
    → e.address ≡ a
    → any (λ b. str_eq b a) (map (λ e. e.address) (xs ++ e ∷ [])) ≡ true
any-map-snoc [] e a h = ground (arith, eq_iff e.address a)
any-map-snoc (x ∷ xs) e a h = ground (arith, any-map-snoc xs e a h)

any-of_entry :
    (xs : List Entry) (a : String)
    → any (λ e. str_eq e.address a) xs ≡ true
    → any (λ b. str_eq b a) (map (λ e. e.address) xs) ≡ true
any-of_entry [] a h = h
any-of_entry (x ∷ xs) a h = ground (arith, any-of_entry xs a)

any-keep-not :
    (xs : List Entry) (j : String)
    → any (λ e. str_eq e.job_id j) (keep (λ e. not (str_eq e.job_id j)) xs) ≡ false
any-keep-not [] j = refl
any-keep-not (x ∷ xs) j = ground (arith, any-keep-not xs j)

-- What is read back after a write that succeeds.
load_written :
    (w : World) (list : Allowlist)
    → w.allowlist_writable ≡ true
    → (load_financial_allowlist (write_allowlist w list).1).0 ≡ list
unfolding load_financial_allowlist write_allowlist
load_written w list h = rw h

load_writable :
    (w : World) → (load_financial_allowlist w).1.allowlist_writable ≡ w.allowlist_writable
unfolding load_financial_allowlist
load_writable w = ground arith

in_permanent :
    (list : Allowlist) (a : String)
    → any (λ b. str_eq b a) (map (λ e. e.address) list.permanent) ≡ true
    → is_address_in_allowlist list a ≡ true
unfolding is_address_in_allowlist
in_permanent list a h = ground (
  arith,
  any-append (λ b. str_eq b a) (map (λ e. e.address) list.permanent)
      (map (λ e. e.address) list.operator ++ map (λ e. e.address) list.active_jobs),
)

in_active :
    (list : Allowlist) (a : String)
    → any (λ b. str_eq b a) (map (λ e. e.address) list.active_jobs) ≡ true
    → is_address_in_allowlist list a ≡ true
unfolding is_address_in_allowlist
in_active list a h = ground (
  arith,
  any-append (λ b. str_eq b a) (map (λ e. e.address) list.permanent)
      (map (λ e. e.address) list.operator ++ map (λ e. e.address) list.active_jobs),
  any-append (λ b. str_eq b a) (map (λ e. e.address) list.operator)
      (map (λ e. e.address) list.active_jobs),
)

-- While a job that is not yet listed is added and the file can be written, refunds to its buyer's
-- address are let through, and the owner's lists stay as they were.
pub add_active_job-allows :
    (w : World) (job_id address : String)
    → w.allowlist_writable ≡ true
    → any (λ e. str_eq e.job_id job_id) (load_financial_allowlist w).0.active_jobs ≡ false
    → let list = (load_financial_allowlist (add_active_job_to_allowlist w job_id address)).0 in
      (is_address_in_allowlist list address ≡ true)
      × (list.permanent ≡ (load_financial_allowlist w).0.permanent)
      × (list.operator ≡ (load_financial_allowlist w).0.operator)
unfolding add_active_job_to_allowlist
add_active_job-allows w job_id address h new =
    let (list, w₁) = load_financial_allowlist w in
    let e : Entry = record { address = address; job_id = job_id } in
    let list' : Allowlist = record list { active_jobs = list.active_jobs ++ e ∷ [] } in
    rw (new, load_written w₁ list' (load_writable w ∙ h))
      (in_active list' address (any-map-snoc list.active_jobs e address refl), refl, refl)

-- After a job is removed and the file can be written, no entry of the active jobs is the job's, and the
-- owner's lists stay as they were.
pub remove_active_job-gone :
    (w : World) (job_id : String)
    → w.allowlist_writable ≡ true
    → let list = (load_financial_allowlist (remove_active_job_from_allowlist w job_id)).0 in
      (any (λ e. str_eq e.job_id job_id) list.active_jobs ≡ false)
      × (list.permanent ≡ (load_financial_allowlist w).0.permanent)
      × (list.operator ≡ (load_financial_allowlist w).0.operator)
unfolding remove_active_job_from_allowlist
remove_active_job-gone w job_id h =
    let (list, w₁) = load_financial_allowlist w in
    let kept = keep (λ e. not (str_eq e.job_id job_id)) list.active_jobs in
    rw (load_written w₁ (record list { active_jobs = kept }) (load_writable w ∙ h))
      (any-keep-not (load_financial_allowlist w).0.active_jobs job_id, refl, refl)

writes :
    (w : World) (list : Allowlist)
    → ((write_allowlist w list).0 ≡ w.allowlist_writable)
      × ((write_allowlist w list).1.allowlist_writable ≡ w.allowlist_writable)
unfolding write_allowlist
writes w list = ground arith

approve-in_permanent :
    (list : Allowlist) (e : Entry)
    → any
        (λ b. str_eq b e.address)
        (map
          (λ e. e.address)
          (if any (λ d. str_eq d.address e.address) list.permanent
            then list
            else record list { permanent = list.permanent ++ e ∷ [] }).permanent)
      ≡ true
approve-in_permanent list e =
    elim (Bool-cases (any (λ d. str_eq d.address e.address) list.permanent)) [
      | inl old ↦ rw old (any-of_entry list.permanent e.address old)
      | inr new ↦ rw new (any-map-snoc list.permanent e e.address refl)
    ]

-- The owner's approval of a refund address reports success exactly when the file can be written, and
-- then the address is let through, also after the job's own entry is removed.
pub add_to_refund-allows :
    (w : World) (job_id address other_job : String)
    → let (written, w') = add_to_refund_allowlist w address job_id in
      (written ≡ w.allowlist_writable)
      × (written ≡ true
          → (is_address_in_allowlist (load_financial_allowlist w').0 address ≡ true)
            × (is_address_in_allowlist
                  (load_financial_allowlist (remove_active_job_from_allowlist w' other_job)).0
                  address
                ≡ true))
unfolding add_to_refund_allowlist
add_to_refund-allows w job_id address other_job =
    let (list, w₁) = load_financial_allowlist w in
    let e : Entry = record { address = address; job_id = job_id } in
    let list' : Allowlist =
      if any (λ d. str_eq d.address address) list.permanent
      then list
      else record list { permanent = list.permanent ++ e ∷ [] } in
    let (answer, still) = writes w₁ list' in
    let reads =
      λ (h : (write_allowlist w₁ list').0 ≡ true). load_written w₁ list' (sym answer ∙ h) in
    (
      answer ∙ load_writable w,
      λ h. (
        rw (reads h) (in_permanent list' address (approve-in_permanent list e)),
        in_permanent _ address (
            rw
              (
                (remove_active_job-gone (write_allowlist w₁ list').1 other_job
                    (still ∙ sym answer ∙ h)).1,
                reads h,
              )
              (approve-in_permanent list e)),
      ),
    )
