-- ===== src/Worker/Accounting.antt =====
-- A pool counts exactly the jobs that it holds.
use dependecy_graph_auditor.Prelude.{
  ℕ, suc, ◌+◌, ◌≡◌, ap, ◌∙◌, inl, inr, String, Bool, true, false, ◌==◌, ltb, List, [], ◌∷◌, ◌++◌,
  length, length-append, if◌then◌else◌, Bool-cases, arith,
}
use dependecy_graph_auditor.Job.{Job}
use dependecy_graph_auditor.Worker.Pool.{
  Pool, new_pool, check_done, close_done, release, begin_submit, count_submitted, send, refuse,
  submit_child, succeed, publish, failed_job, handle_error, strand, begin_shutdown, signal_closing,
  close_queue,
}
use dependecy_graph_auditor.Worker.Steps.{Step, Leads}

-- The jobs that a pool has counted and not yet ended.
abbrev pub held : Pool → ℕ
held p = length p.sending + length p.queue + length p.busy + length p.sleeping + length p.stranded

-- The count is that of the jobs held, and of some that a worker has in its hands.
abbrev pub Counts : ℕ → Pool → Type 0
Counts k p = p.in_flight ≡ k + held p

length-snoc : (xs : List Job) (j : Job) → length (xs ++ j ∷ []) ≡ suc (length xs)
length-snoc xs j = let size = length-append xs (j ∷ []) in omega (arith, size)

length-without :
    (front : List Job) (j : Job) (back : List Job)
    → length (front ++ j ∷ back) ≡ suc (length (front ++ back))
length-without front j back =
    let whole = length-append front (j ∷ back) in
    let rest = length-append front back in omega (arith, whole, rest)

-- A list without one of its jobs is shorter by one.
one_less :
    (xs front : List Job) (j : Job) (back : List Job)
    → xs ≡ front ++ j ∷ back
    → length xs ≡ suc (length (front ++ back))
one_less xs front j back e = ap length e ∙ length-without front j back

-- What holds of both branches of a test.
pub of_both {κ} : (P : Pool → Type κ) (b : Bool) (p q : Pool) → P p → P q → P (if b then p else q)
of_both P true p q h k = h
of_both P false p q h k = k

begin_submit-Counts : (p : Pool) (j : Job) → Counts 0 p → Counts 0 (begin_submit p j)
unfolding begin_submit
begin_submit-Counts p j h = of_both (Counts 0) p.stopping p _ h h

send-Counts : (p : Pool) (j : Job) → Counts 1 p → Counts 0 (send p j)
unfolding send
send-Counts p j h = let size = length-snoc p.queue j in omega (arith, h, size)

release-Counts : (p : Pool) → Counts 1 p → Counts 0 (release p)
unfolding release
release-Counts p h = omega (arith, h)

publish-Counts :
    (p : Pool) (j : Job) (message : String) → Counts 1 p → Counts 1 (publish p j message)
unfolding publish
publish-Counts p j message h = elim (Bool-cases p.has_dlq) [ inl e ↦ rw e h | inr e ↦ rw e h ]

handle_error-Counts :
    (p : Pool) (j : Job) (message : String) → Counts 1 p → Counts 0 (handle_error p j message)
unfolding handle_error
handle_error-Counts p j message h = elim (Bool-cases (ltb (j.attempts + 1) j.max_attempts)) [
  | inl e ↦ rw e (omega (arith, h))
  | inr e ↦ rw e (
      release-Counts (publish p (failed_job j) message) (publish-Counts p (failed_job j) message h))
]

pub Step-Counts : (p q : Pool) → Step p q → Counts 0 p → Counts 0 q
unfolding count_submitted refuse submit_child succeed strand check_done close_done begin_shutdown
    signal_closing close_queue
Step-Counts p q (Step.begins_submit j) h = begin_submit-Counts p j h
Step-Counts p q (Step.feeds front j back child e) h =
    of_both (Counts 0) p.accepting _ p (begin_submit-Counts p child h) h
Step-Counts p q (Step.counts front j back e) h = omega (arith, h)
Step-Counts p q (Step.sends front j back e room) h =
    let size = one_less p.sending front j back e in
    send-Counts (record p { sending = front ++ back }) j (omega (arith, h, size))
Step-Counts p q (Step.refuses front j back e c) h =
    let size = one_less p.sending front j back e in omega (arith, h, size)
Step-Counts p q (Step.dequeues j rest e) h = let size = ap length e in omega (arith, h, size)
Step-Counts p q (Step.succeeds front j back e) h =
    let size = one_less p.busy front j back e in
    release-Counts (record p { busy = front ++ back }) (omega (arith, h, size))
Step-Counts p q (Step.fails front j back message e) h =
    let size = one_less p.busy front j back e in
    handle_error-Counts (record p { busy = front ++ back }) j message (omega (arith, h, size))
Step-Counts p q (Step.retries front j back e room) h =
    let size = one_less p.sleeping front j back e in
    send-Counts (record p { sleeping = front ++ back }) j (omega (arith, h, size))
Step-Counts p q (Step.strands front j back e c) h =
    let size = one_less p.sleeping front j back e in omega (arith, h, size)
Step-Counts p q (Step.checks n e) h = of_both (Counts 0) (p.in_flight == 0) _ _ h h
Step-Counts p q (Step.reports n e) h = h
Step-Counts p q Step.begins_shutdown h = h
Step-Counts p q (Step.signals_closing e k l) h = h
Step-Counts p q (Step.closes_queue e) h = h

pub Leads-Counts : (p q : Pool) → Leads p q → Counts 0 p → Counts 0 q
Leads-Counts p q Leads.stay h = h
Leads-Counts p q (Leads.later {q = m} way step) h = Step-Counts m q step (Leads-Counts p m way h)

pub new_pool-Counts :
    (capacity : ℕ) (has_dlq : Bool) (jobs : List Job) → Counts 0 (new_pool capacity has_dlq jobs)
unfolding new_pool
new_pool-Counts capacity has_dlq jobs = omega arith

-- Whatever submissions, workers, delays and a shutdown do in between, a pool that started with some
-- jobs counts exactly those that a submission has counted and not yet sent, and those that are
-- queued, handled, waiting for a retry, or stranded by a closed queue.
pub in_flight-held :
    (capacity : ℕ) (has_dlq : Bool) (jobs : List Job) (p : Pool)
    → Leads (new_pool capacity has_dlq jobs) p
    → p.in_flight ≡ held p
in_flight-held capacity has_dlq jobs p way =
    let counted =
      Leads-Counts (new_pool capacity has_dlq jobs) p way (new_pool-Counts capacity has_dlq jobs) in
    omega (arith, counted)
