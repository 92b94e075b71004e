-- ===== src/ServiceStore/Cancelling.antt =====
-- `Store.Cancel` of a job that has not started touches no other job.
use dependecy_graph_auditor.Prelude.{
  ℕ, ◌≡◌, ◌∙◌, sym, ap, subst, String, str_eq, Bool, true, false, some, List, [], ◌∷◌, find_where,
  update_where, Memᴰ,
}
use mathlib.Core.Option.{some-injective}
use dependecy_graph_auditor.Job.{Status, Job}
use dependecy_graph_auditor.ServiceStore.Tables.{Row, Db}
use dependecy_graph_auditor.ServiceStore.Transaction.{Result, ◌>>=◌}
use dependecy_graph_auditor.ServiceStore.Statements.{has_id, update_jobs}
use dependecy_graph_auditor.ServiceStore.Claim.{is_claimable}
use dependecy_graph_auditor.ServiceStore.Operate.{
  cancelled_row, record_cancellation, cancel_in, cancel,
}
use dependecy_graph_auditor.ServiceStore.Keeps.{
  Keeps, bind_ok, Keeps-bind, Keeps-update_jobs, keeps_rules,
}
use dependecy_graph_auditor.ServiceStore.Selected.{get_job_ok}

Memᴰ-spared :
    {A : Type 0} (p : A → Bool) (f : A → A) (xs : List A) {a : A}
    → p a ≡ false
    → Memᴰ a xs
    → Memᴰ a (update_where p f xs)
Memᴰ-spared p f [] e m = elim m [ ]
Memᴰ-spared p f (x ∷ xs) e (Memᴰ.head same) = Memᴰ.head (rw (sym (ap p same) ∙ e) same)
Memᴰ-spared p f (x ∷ xs) e (Memᴰ.tail m) = Memᴰ.tail (Memᴰ-spared p f xs e m)

module _ (other : Row) where
  abbrev There : ℕ → List Row → Type 0
  There n rows = Memᴰ other rows

  There-record_cancellation :
      (id : String) (c : Bool) (now : ℕ) → Keeps There (record_cancellation id c now)
  unfolding record_cancellation
  There-record_cancellation id c now = search keeps_rules depth 8

  There-cancelled :
      (r : Row) (now : ℕ)
      → str_eq other.id r.id ≡ false
      → Keeps There
          (update_jobs (has_id r.id) (cancelled_row now) >>= λ _. record_cancellation r.id true now)
  There-cancelled r now apart =
      Keeps-bind _ _
        (Keeps-update_jobs There (has_id r.id) (cancelled_row now)
          (λ n rows m. Memᴰ-spared (has_id r.id) (cancelled_row now) rows apart m))
        λ _. There-record_cancellation r.id true now

  There-cancel_in :
      (s : Status) (r : Row) (now : ℕ)
      → is_claimable s ≡ true
      → str_eq other.id r.id ≡ false
      → Keeps There (cancel_in s r now)
  unfolding cancel_in
  There-cancel_in Status.pending r now e apart = There-cancelled r now apart
  There-cancel_in Status.retry_scheduled r now e apart = There-cancelled r now apart
  There-cancel_in Status.running r now e apart = cc
  There-cancel_in Status.waiting r now e apart = cc
  There-cancel_in Status.completed r now e apart = cc
  There-cancel_in Status.failed r now e apart = cc
  There-cancel_in Status.dead_lettered r now e apart = cc
  There-cancel_in Status.cancelled r now e apart = cc

  -- Cancelling a job that is pending or scheduled for a retry leaves each other row of the table
  -- as it is. So a root that waits still waits once its last active child has been cancelled.
  pub cancel-leaves_others :
      (id : String) (now : ℕ) (db db' : Db) (r : Row) (value : Job)
      → cancel id now db ≡ Result.ok (value, db')
      → find_where (has_id id) db.jobs ≡ some r
      → is_claimable r.status ≡ true
      → str_eq other.id r.id ≡ false
      → Memᴰ other db.jobs
      → Memᴰ other db'.jobs
  unfolding cancel
  cancel-leaves_others id now db db' r value e found waits apart m =
      let (row, mid, first, rest) = bind_ok _ _ db db' value e in
      let (found', same) = get_job_ok id db mid row first in
      let is_row : row ≡ r = some-injective _ _ (sym found' ∙ found) in
      (There-cancel_in row.status row now
          (subst (λ s. is_claimable s.status ≡ true) (sym is_row) waits)
          (subst (λ s. str_eq other.id s.id ≡ false) (sym is_row) apart)).at
        mid db' value rest (subst (λ t. Memᴰ other t.jobs) same m)
