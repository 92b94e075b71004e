-- ===== src/Worker/Steps.antt =====
-- The steps of a pool, as its callers, workers and its shutdown can interleave.
use dependecy_graph_auditor.Prelude.{
  ℕ, suc, ◌<◌, ◌≡◌, String, true, false, List, [], ◌∷◌, ◌++◌, length,
}
use dependecy_graph_auditor.Job.{Job}
use dependecy_graph_auditor.Worker.Pool.{
  Pool, begin_submit, count_submitted, send, refuse, submit_child, succeed, handle_error, strand,
  check_done, close_done, begin_shutdown, signal_closing, close_queue,
}

-- The channel takes a job while the queue is not closed and has room; a queue that is being closed
-- may refuse it, and one that is closed does.
abbrev CanSend : Pool → Type 0
CanSend p = (p.closed ≡ false) × (length p.queue < p.capacity)

-- Any job that a worker handles may submit children, and the worker's end need not wait for them:
-- this only adds steps. The shutdown closes the queue when no `Submit` of the pool is left.
pub data Step : Pool → Pool → Type 0 where
  begins_submit : {p : Pool} (j : Job) → Step p (begin_submit p j)
  feeds :
      {p : Pool} (front : List Job) (j : Job) (back : List Job) (child : Job)
      → p.busy ≡ front ++ j ∷ back
      → Step p (submit_child p child)
  counts :
      {p : Pool} (front : List Job) (j : Job) (back : List Job)
      → p.entering ≡ front ++ j ∷ back
      → Step p (count_submitted (record p { entering = front ++ back }) j)
  sends :
      {p : Pool} (front : List Job) (j : Job) (back : List Job)
      → p.sending ≡ front ++ j ∷ back
      → CanSend p
      → Step p (send (record p { sending = front ++ back }) j)
  refuses :
      {p : Pool} (front : List Job) (j : Job) (back : List Job)
      → p.sending ≡ front ++ j ∷ back
      → p.closing ≡ true
      → Step p (refuse (record p { sending = front ++ back }))
  dequeues :
      {p : Pool} (j : Job) (rest : List Job)
      → p.queue ≡ j ∷ rest
      → Step p (record p { queue = rest; busy = j ∷ p.busy })
  succeeds :
      {p : Pool} (front : List Job) (j : Job) (back : List Job)
      → p.busy ≡ front ++ j ∷ back
      → Step p (succeed (record p { busy = front ++ back }))
  fails :
      {p : Pool} (front : List Job) (j : Job) (back : List Job) (message : String)
      → p.busy ≡ front ++ j ∷ back
      → Step p (handle_error (record p { busy = front ++ back }) j message)
  retries :
      {p : Pool} (front : List Job) (j : Job) (back : List Job)
      → p.sleeping ≡ front ++ j ∷ back
      → CanSend p
      → Step p (send (record p { sleeping = front ++ back }) j)
  strands :
      {p : Pool} (front : List Job) (j : Job) (back : List Job)
      → p.sleeping ≡ front ++ j ∷ back
      → p.closing ≡ true
      → Step p (strand (record p { sleeping = front ++ back }) j)
  checks : {p : Pool} (n : ℕ) → p.checking ≡ suc n → Step p (check_done p)
  reports : {p : Pool} (n : ℕ) → p.reporting ≡ suc n → Step p (close_done p)
  begins_shutdown : {p : Pool} → Step p (begin_shutdown p)
  signals_closing :
      {p : Pool} → p.stopping ≡ true → p.entering ≡ [] → p.sending ≡ [] → Step p (signal_closing p)
  closes_queue : {p : Pool} → p.closing ≡ true → Step p (close_queue p)

pub data Leads : Pool → Pool → Type 0 where
  stay : {p : Pool} → Leads p p
  later : {p q r : Pool} → Leads p q → Step q r → Leads p r
