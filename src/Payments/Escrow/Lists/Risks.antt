-- ===== src/Payments/Escrow/Lists/Risks.antt =====
-- The lists of escrow.ts: how many jobs are listed.
use aops_pmoa.Prelude.{
  ℕ, zero, suc, ◌≤◌, List, [], ◌∷◌, map, min, max, leb, ◌&&◌, ◌==◌, text_comparable, arith, length,
  filter,
}
use mathlib.Core.Option
use aops_pmoa.Payments.Types.{mode_comparable}
use aops_pmoa.Prelude.Sort.{order_by}
use aops_pmoa.Payments.Escrow.Types.{EscrowJobRow, EscrowDb}
use aops_pmoa.Payments.Escrow.Lists.{first_rows, ListEscrowJobsInput, list_item, list_escrow_jobs}

length-first_rows :
    {R S : Type 0} (f : R → S) (n : ℕ) (rs : List R) → length (map f (first_rows n rs)) ≤ n
length-first_rows f zero rs = omega arith
length-first_rows f (suc n) [] = omega arith
length-first_rows f (suc n) (r ∷ rs) = let shorter = length-first_rows f n rs in omega arith

-- The list of jobs has at most 200 items, whatever limit is asked for, and at most the limit, if it is
-- at least one.
pub length-list_escrow_jobs :
    (input : ListEscrowJobsInput) (db : EscrowDb)
    → (length (list_escrow_jobs input db) ≤ 200)
      × (length (list_escrow_jobs input db) ≤ max (Option.get_or input.limit 50) 1)
unfolding list_escrow_jobs
length-list_escrow_jobs input db =
    let bound = length-first_rows (list_item db) (min (max (Option.get_or input.limit 50) 1) 200) (
      order_by (λ (a b : EscrowJobRow). leb b.created_at a.created_at)
        (filter (λ (j : EscrowJobRow). j.org_id == input.org_id && j.mode == input.mode)
          db.jobs)) in
    (omega (arith, bound), omega (arith, bound))
