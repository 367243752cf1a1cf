-- ===== src/Spend/Addresses.antt =====
-- The financial allowlist of src/spend-policy.js, with the writes that fail.
pub mod Laws
use j41_sovagent_dispatcher.Prelude.{
  String, Bool, true, false, not, ◌||◌, List, [], ◌∷◌, ◌++◌, map, any, keep, str_eq, if◌then◌else◌,
}
use j41_sovagent_dispatcher.Spend.{Entry, Allowlist, File, missing, corrupt, holds, World}

abbrev pub deny_all : Allowlist
deny_all = record { permanent = []; operator = []; active_jobs = [] }

unfoldable pub load_financial_allowlist : World → Allowlist × World
load_financial_allowlist w = elim w.allowlist [
  | missing ↦
      (deny_all, if w.allowlist_writable then record w { allowlist = holds deny_all } else w)
  | corrupt ↦ (deny_all, w)
  | holds list ↦ (list, w)
]

unfoldable pub is_address_in_allowlist : Allowlist → String → Bool
is_address_in_allowlist list address =
    any (λ a. str_eq a address)
      (map (λ e. e.address) list.permanent
        ++ (map (λ e. e.address) list.operator ++ map (λ e. e.address) list.active_jobs))

-- `fs.writeFileSync`: the new world, and whether it was written.
unfoldable pub write_allowlist : World → Allowlist → Bool × World
write_allowlist w list =
    if w.allowlist_writable then (true, record w { allowlist = holds list }) else (false, w)

-- A failed write is logged, and the list stays as it was.
unfoldable pub add_active_job_to_allowlist : World → String → String → World
add_active_job_to_allowlist w job_id buyer_address =
    let (list, w₁) = load_financial_allowlist w in
    if any (λ e. str_eq e.job_id job_id) list.active_jobs
    then w₁
    else (write_allowlist w₁ (record list {
      active_jobs = list.active_jobs ++ (record { address = buyer_address; job_id = job_id }) ∷ [];
    })).1

unfoldable pub remove_active_job_from_allowlist : World → String → World
remove_active_job_from_allowlist w job_id =
    let (list, w₁) = load_financial_allowlist w in
    (write_allowlist w₁
      (record list { active_jobs = keep (λ e. not (str_eq e.job_id job_id)) list.active_jobs })).1

-- The owner's approval of a refund address; `false` stands for the error that it throws.
unfoldable pub add_to_refund_allowlist : World → String → String → Bool × World
add_to_refund_allowlist w address job_id =
    let (list, w₁) = load_financial_allowlist w in
    write_allowlist w₁ (
      if any (λ e. str_eq e.address address) list.permanent then list else record list {
        permanent = list.permanent ++ (record { address = address; job_id = job_id }) ∷ [];
      })
