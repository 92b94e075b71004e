-- ===== src/QueueStore/Contract.antt =====
-- What ReclaimStuckJobs and DeadLetterJob promise.
use dependecy_graph_auditor.Prelude.{
  ◌≡◌, refl, inl, inr, Bool, true, false, List, [], ◌∷◌, update_where, count_where, All, All-intro,
  All-update_turn, ◌+◌, Bool-cases, arith,
}
use dependecy_graph_auditor.Job.{Status, Job, is_pending, is_running}
use dependecy_graph_auditor.ServiceStore.Tables.{Row, Db}
use dependecy_graph_auditor.ServiceStore.Transaction.{Result}
use dependecy_graph_auditor.ServiceStore.Statements.{update_jobs}
use dependecy_graph_auditor.QueueStore.Operations.{with_status, reclaim_stuck_jobs}

running_not_pending : (s : Status) → is_running s ≡ true → is_pending s ≡ false
running_not_pending Status.running e = refl
running_not_pending Status.pending e = cc
running_not_pending Status.waiting e = cc
running_not_pending Status.retry_scheduled e = cc
running_not_pending Status.completed e = cc
running_not_pending Status.failed e = cc
running_not_pending Status.dead_lettered e = cc
running_not_pending Status.cancelled e = cc

pending_after :
    (rows : List Row)
    → count_where
        (λ r. is_pending r.status)
        (update_where (λ r. is_running r.status) (with_status Status.pending) rows)
      ≡ count_where (λ r. is_pending r.status) rows + count_where (λ r. is_running r.status) rows
pending_after [] = omega arith
pending_after (r ∷ rows) =
    let rest = pending_after rows in
    elim (Bool-cases (is_running r.status)) [
      | inl e ↦ rw (e, running_not_pending r.status e) (omega (arith, rest))
      | inr e ↦ rw e (ground (arith, rest))
    ]

-- ReclaimStuckJobs never fails; afterwards no job is running, and it answers how many were.
pub reclaim_stuck_jobs-leaves_none :
    (db : Db)
    → (db' : Db) × (reclaim_stuck_jobs db
        ≡ Result.ok (count_where (λ r. is_running r.status) db.jobs, db'))
      × All (λ r. is_running r.status ≡ false) db'.jobs
      × (count_where (λ r. is_pending r.status) db'.jobs
          ≡ count_where (λ r. is_pending r.status) db.jobs
            + count_where (λ r. is_running r.status) db.jobs)
unfolding reclaim_stuck_jobs update_jobs
reclaim_stuck_jobs-leaves_none db =
    let stuck : Row → Bool = λ r. is_running r.status in
    (
      record db { jobs = update_where stuck (with_status Status.pending) db.jobs },
      refl,
      All-update_turn (λ r. Unit {0}) (λ r. is_running r.status ≡ false) stuck
          (with_status Status.pending) db.jobs (λ r _ hit. refl) (λ r _ miss. miss)
          (All-intro (λ r. Unit {0}) db.jobs (λ r. tt)),
      pending_after db.jobs,
    )
