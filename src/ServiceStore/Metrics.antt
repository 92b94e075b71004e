-- ===== src/ServiceStore/Metrics.antt =====
-- `Store.Metrics`: what the operators see of the store.
use mathlib.Core.Logic.{ite}
use dependecy_graph_auditor.Prelude.{
  ℕ, suc, ◌+◌, String, str_eq, Bool, true, false, ◌&&◌, ltb, Option, none, some, is_some, List, [],
  ◌∷◌, count_where, find_where, lookup, assign,
}
use dependecy_graph_auditor.Job.{is_retry_scheduled}
use dependecy_graph_auditor.ServiceStore.Tables.{
  Row, AttemptStatus, AttemptRow, EventType, EventRow, Db,
}
use dependecy_graph_auditor.ServiceStore.Transaction.{Tx, ◌>>=◌, query}
use dependecy_graph_auditor.ServiceStore.Statements.{has_id}
use dependecy_graph_auditor.ServiceStore.Listing.{Counts, counts}
use dependecy_graph_auditor.ServiceStore.DlqListing.{of_public_job}

pub record MetricKey : Type 0 where
  pub job_type : String
  pub outcome : AttemptStatus

unfoldable pub AttemptStatus-discrete : Discrete AttemptStatus
AttemptStatus-discrete = hlevel

unfoldable pub same_key : MetricKey → MetricKey → Bool
same_key j k =
    str_eq j.job_type k.job_type && ite (AttemptStatus-discrete j.outcome k.outcome) true false

abbrev pub Attempts : Type 0
Attempts = List (MetricKey × ℕ)

-- The database's averages: of the seconds between two times of a row.
pub record Averages : Type 1 where
  pub Float : Type 0
  pub nought : Float
  pub mean_seconds : List (ℕ × ℕ) → Float
  pub half_minute : ℕ

pub record Metrics (averages : Averages) : Type 0 where
  pub counts : Counts
  pub submissions : ℕ
  pub attempts : Attempts
  pub average_queue_wait_seconds : averages.Float
  pub average_handler_seconds : averages.Float
  pub retries : ℕ
  pub lease_expirations : ℕ
  pub dlq_entries : ℕ
  pub dlq_replays : ℕ
  pub workers_fresh : ℕ

abbrev pub is_submitted : EventType → Bool
is_submitted EventType.submitted = true
is_submitted _ = false

abbrev pub is_retry : EventType → Bool
is_retry (EventType.reached s) = is_retry_scheduled s
is_retry _ = false

abbrev pub is_expiration : EventType → Bool
is_expiration EventType.lease_expired = true
is_expiration _ = false

unfoldable pub count_events : (EventType → Bool) → List EventRow → ℕ
count_events p events = count_where (λ e. p e.event_type) events

unfoldable pub with_time : ℕ → Option ℕ → List (ℕ × ℕ) → List (ℕ × ℕ)
with_time start none times = times
with_time start (some end) times = (start, end) ∷ times

-- From the creation to the start of the jobs that were started.
unfoldable pub queue_waits : List Row → List (ℕ × ℕ)
unfolding with_time
queue_waits [] = []
queue_waits (r ∷ rows) = with_time r.created_at r.started_at (queue_waits rows)

-- From the start to the end of the attempts that have ended.
unfoldable pub handler_times : List AttemptRow → List (ℕ × ℕ)
unfolding with_time
handler_times [] = []
handler_times (a ∷ attempts) = with_time a.started_at a.finished_at (handler_times attempts)

-- COALESCE(AVG(…), 0): the average of no row is NULL.
unfoldable pub average : (averages : Averages) → List (ℕ × ℕ) → averages.Float
average averages [] = averages.nought
average averages (t ∷ times) = averages.mean_seconds (t ∷ times)

unfoldable pub count_or_zero : Option ℕ → ℕ
count_or_zero none = 0
count_or_zero (some n) = n

unfoldable pub count_key : MetricKey → Attempts → Attempts
unfolding same_key count_or_zero
count_key k groups = assign same_key k (suc (count_or_zero (lookup same_key groups k))) groups

-- The group of an attempt whose job the join finds.
unfoldable pub count_attempt : AttemptRow → Option Row → Attempts → Attempts
unfolding count_key
count_attempt a none groups = groups
count_attempt a (some r) groups =
    count_key (record { job_type = r.job_type; outcome = a.status }) groups

-- GROUP BY j.type, a.status.
unfoldable pub attempt_groups : List Row → List AttemptRow → Attempts
unfolding count_attempt
attempt_groups jobs [] = []
attempt_groups jobs (a ∷ attempts) =
    count_attempt a (find_where (has_id a.job_id) jobs) (attempt_groups jobs attempts)

unfoldable pub metrics_of : (averages : Averages) → ℕ → Counts → Db → Metrics averages
unfolding count_events average queue_waits handler_times attempt_groups of_public_job
metrics_of averages now groups db = record {
  counts = groups;
  submissions = count_events is_submitted db.events;
  attempts = attempt_groups db.jobs db.attempts;
  average_queue_wait_seconds = average averages (queue_waits db.jobs);
  average_handler_seconds = average averages (handler_times db.attempts);
  retries = count_events is_retry db.events;
  lease_expirations = count_events is_expiration db.events;
  dlq_entries = count_where (of_public_job db.jobs) db.dlq;
  dlq_replays = count_where (λ d. of_public_job db.jobs d && is_some d.replayed_at) db.dlq;
  workers_fresh = count_where (λ w. ltb now (w.heartbeat_at + averages.half_minute)) db.workers;
}

unfoldable pub metrics : (averages : Averages) → ℕ → Tx (Metrics averages)
unfolding counts metrics_of
metrics averages now = do groups ← counts; query (metrics_of averages now groups)
