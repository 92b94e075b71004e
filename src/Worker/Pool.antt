-- ===== src/Worker/Pool.antt =====
-- The state of a pool without a durable store, and what its methods do to it.
use dependecy_graph_auditor.Prelude.{
  ℕ, ◌+◌, ◌-◌, String, Bool, true, false, ◌==◌, ltb, List, [], ◌∷◌, ◌++◌, length, if◌then◌else◌,
}
use dependecy_graph_auditor.Job.{Status, Job}

pub record DeadLetter : Type 0 where
  pub job : Job
  pub error : String

-- `entering` are the jobs whose `Submit` has passed the test of `stopping`, and `sending` those that
-- it has counted and not yet put into the channel, which is `queue`. `busy` are the jobs that
-- workers handle and `sleeping` those that workers hold until their delay is over and the channel
-- takes them. `stranded` are those that came back to a closed queue: the source only logs them.
-- `checking` workers are between lowering the count and reading it in `checkDone`, and `reporting`
-- ones have read zero there and have not closed Done yet.
pub record Pool : Type 0 where
  pub capacity : ℕ
  pub has_dlq : Bool
  pub entering : List Job
  pub sending : List Job
  pub queue : List Job
  pub busy : List Job
  pub sleeping : List Job
  pub stranded : List Job
  pub dead : List DeadLetter
  pub in_flight : ℕ
  pub checking : ℕ
  pub reporting : ℕ
  pub accepting : Bool
  pub stopping : Bool
  pub closing : Bool
  pub closed : Bool
  pub done : Bool

-- A pool over a queue that may hold jobs already.
unfoldable pub new_pool : ℕ → Bool → List Job → Pool
new_pool capacity has_dlq jobs = record {
  capacity = capacity;
  has_dlq = has_dlq;
  entering = [];
  sending = [];
  queue = jobs;
  busy = [];
  sleeping = [];
  stranded = [];
  dead = [];
  in_flight = length jobs;
  checking = 0;
  reporting = 0;
  accepting = true;
  stopping = false;
  closing = false;
  closed = false;
  done = false;
}

-- The first part of `checkDone`: a worker reads the count.
unfoldable pub check_done : Pool → Pool
check_done p =
    let left = record p { checking = p.checking - 1 } in
    if p.in_flight == 0 then record left { reporting = p.reporting + 1 } else left

-- The second part, where the count was zero.
unfoldable pub close_done : Pool → Pool
close_done p = record p { reporting = p.reporting - 1; done = true }

-- The count of jobs goes down by one, before the worker reads it.
unfoldable pub release : Pool → Pool
release p = record p { in_flight = p.in_flight - 1; checking = p.checking + 1 }

-- `Pool.Submit` under the lock: a pool that stops refuses the job.
unfoldable pub begin_submit : Pool → Job → Pool
begin_submit p j = if p.stopping then p else record p { entering = j ∷ p.entering }

-- `Pool.Submit` counts a job of `entering` before it calls the queue's `Submit`.
unfoldable pub count_submitted : Pool → Job → Pool
count_submitted p j = record p { in_flight = p.in_flight + 1; sending = j ∷ p.sending }

-- The channel takes a job.
unfoldable pub send : Pool → Job → Pool
send p j = record p { queue = p.queue ++ j ∷ [] }

-- The queue has refused a submitted job, which is not counted any more.
unfoldable pub refuse : Pool → Pool
refuse p = record p { in_flight = p.in_flight - 1 }

-- A child that cannot be submitted cannot be persisted either, without a store, and is dropped.
unfoldable pub submit_child : Pool → Job → Pool
unfolding begin_submit
submit_child p j = if p.accepting then begin_submit p j else p

-- The end of the worker's loop after a handler that succeeded, when its children are submitted.
unfoldable pub succeed : Pool → Pool
unfolding release
succeed p = release p

abbrev pub failed_job : Job → Job
failed_job j = record j { status = Status.running; attempts = j.attempts + 1 }

-- `DLQ.Publish`, where the pool has one.
unfoldable pub publish : Pool → Job → String → Pool
publish p j message =
    if p.has_dlq
    then record p {
      dead =
          p.dead
          ++ record { job = record j { status = Status.dead_lettered }; error = message } ∷ [];
    }
    else p

-- The worker's loop after a handler that failed: a further attempt after a delay, or the end.
unfoldable pub handle_error : Pool → Job → String → Pool
unfolding release publish
handle_error p j message =
    let failed = failed_job j in
    if ltb failed.attempts failed.max_attempts
    then record p { sleeping = failed ∷ p.sleeping }
    else release (publish p failed message)

-- The queue has refused a retry.
unfoldable pub strand : Pool → Job → Pool
strand p j = record p { stranded = j ∷ p.stranded }

unfoldable pub begin_shutdown : Pool → Pool
begin_shutdown p = record p { stopping = true; accepting = false }

-- `Queue.Close`: the signal for the senders that wait, and then the channel.
unfoldable pub signal_closing : Pool → Pool
signal_closing p = record p { closing = true }

unfoldable pub close_queue : Pool → Pool
close_queue p = record p { closed = true }
