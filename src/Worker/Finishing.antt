-- ===== src/Worker/Finishing.antt =====
-- When a pool reports that it is done, and when it never does.
use dependecy_graph_auditor.Prelude.{
  ℕ, suc, ◌+◌, ◌≤◌, ◌<◌, ◌≡◌, refl, ◌∙◌, ◌⊎◌, inl, inr, String, Bool, false, ◌==◌, ltb, List, [],
  length, Bool-cases, arith,
}
use dependecy_graph_auditor.Job.{Job}
use dependecy_graph_auditor.Worker.Pool.{
  Pool, new_pool, check_done, close_done, release, begin_submit, count_submitted, send, refuse,
  submit_child, succeed, publish, handle_error, strand, begin_shutdown, signal_closing, close_queue,
}
use dependecy_graph_auditor.Worker.Steps.{Step, Leads}
use dependecy_graph_auditor.Worker.Accounting.{Counts, Leads-Counts, new_pool-Counts, of_both}

-- No worker has closed Done or is about to.
abbrev pub IsUnreported : Pool → Type 0
IsUnreported p = (p.done ≡ false) × (p.reporting ≡ 0)

-- A change that does not touch the report, and strands nothing less.
abbrev Silent : Pool → Pool → Type 0
Silent p q =
    (q.done ≡ p.done) × (q.reporting ≡ p.reporting) × (length p.stranded ≤ length q.stranded)

begin_submit-Silent : (p : Pool) (j : Job) → Silent p (begin_submit p j)
unfolding begin_submit
begin_submit-Silent p j =
    of_both (Silent p) p.stopping p _ (refl, refl, omega arith) (refl, refl, omega arith)

handle_error-Silent : (p : Pool) (j : Job) (message : String) → Silent p (handle_error p j message)
unfolding handle_error release publish
handle_error-Silent p j message =
    of_both (Silent p) (ltb (j.attempts + 1) j.max_attempts) _ _ (refl, refl, omega arith)
      (of_both (λ r. Silent p (release r)) p.has_dlq _ p (refl, refl, omega arith)
        (refl, refl, omega arith))

-- A step is silent, or a worker reads that the count is zero, or one that has done so closes Done.
Step-kinds :
    (p q : Pool)
    → Step p q
    → Silent p q
      ⊎ (((p.in_flight ≡ 0) × (length p.stranded ≤ length q.stranded))
          ⊎ ((n : ℕ) × (p.reporting ≡ suc n) × (length p.stranded ≤ length q.stranded)))
unfolding count_submitted send refuse submit_child succeed release strand check_done close_done
    begin_shutdown signal_closing close_queue
Step-kinds p q (Step.begins_submit j) = inl (begin_submit-Silent p j)
Step-kinds p q (Step.feeds front j back child e) =
    inl (of_both (Silent p) p.accepting _ p (begin_submit-Silent p child) (refl, refl, omega arith))
Step-kinds p q (Step.counts front j back e) = inl (refl, refl, omega arith)
Step-kinds p q (Step.sends front j back e room) = inl (refl, refl, omega arith)
Step-kinds p q (Step.refuses front j back e c) = inl (refl, refl, omega arith)
Step-kinds p q (Step.dequeues j rest e) = inl (refl, refl, omega arith)
Step-kinds p q (Step.succeeds front j back e) = inl (refl, refl, omega arith)
Step-kinds p q (Step.fails front j back message e) = inl (handle_error-Silent _ j message)
Step-kinds p q (Step.retries front j back e room) = inl (refl, refl, omega arith)
Step-kinds p q (Step.strands front j back e c) = inl (refl, refl, omega arith)
Step-kinds p q (Step.checks n e) = elim (Bool-cases (p.in_flight == 0)) [
  | inl empty ↦ rw empty (inr (inl (ground (arith, empty), omega arith)))
  | inr more ↦ rw more (inl (refl, refl, omega arith))
]
Step-kinds p q (Step.reports n e) = inr (inr (n, e, omega arith))
Step-kinds p q Step.begins_shutdown = inl (refl, refl, omega arith)
Step-kinds p q (Step.signals_closing e k l) = inl (refl, refl, omega arith)
Step-kinds p q (Step.closes_queue e) = inl (refl, refl, omega arith)

abbrev pub IsDrained : Pool → Type 0
IsDrained p =
    (p.sending ≡ []) × (p.queue ≡ []) × (p.busy ≡ []) × (p.sleeping ≡ []) × (p.stranded ≡ [])

-- On the way from one state to another there is one in which the pool holds no job.
abbrev pub PassesEmpty : Pool → Pool → Type 0
PassesEmpty p q = (m : Pool) × Leads p m × Leads m q × IsDrained m

never_done :
    (p q : Pool)
    → Counts 0 p
    → 0 < length p.stranded
    → IsUnreported p
    → Leads p q
    → IsUnreported q × (0 < length q.stranded)
never_done p q counted some_lost before Leads.stay = (before, some_lost)
never_done p q counted some_lost before (Leads.later {q = m} way step) =
    let (still, lost) = never_done p m counted some_lost before way in
    let total = Leads-Counts p m way counted in
    elim (Step-kinds m q step) [
      | inl (done, reporting, more) ↦
          ((done ∙ still.0, reporting ∙ still.1), omega (arith, lost, more))
      | inr (inl (zero_read, more)) ↦ absurd (omega (arith, zero_read, total, lost))
      | inr (inr (n, e, more)) ↦
          let none_reports = still.1 in absurd (omega (arith, e, none_reports))
    ]

-- Once a retry has met a closed queue, a pool of which no worker has closed Done or has read that
-- the count is zero and is about to, never closes Done, whatever happens afterwards, since the job
-- that was dropped stays counted.
pub stranded-never_done :
    (capacity : ℕ) (has_dlq : Bool) (jobs : List Job) (p q : Pool)
    → Leads (new_pool capacity has_dlq jobs) p
    → 0 < length p.stranded
    → IsUnreported p
    → Leads p q
    → q.done ≡ false
stranded-never_done capacity has_dlq jobs p q way lost before onward =
    (never_done p q
      (Leads-Counts (new_pool capacity has_dlq jobs) p way (new_pool-Counts capacity has_dlq jobs))
      lost before onward).0.0
