-- ===== src/ServiceStore/DlqTests.antt =====
-- The theorems about the dead letters, the workers and the metrics, at three dead letters that are read two at a
-- time, and at a worker that starts again.
use Prim.Native.String.{len}
use dependecy_graph_auditor.Prelude.{
  ℕ, ◌-◌, ◌<◌, ◌≤◌, ◌≡◌, refl, ap, ◌⊎◌, inr, String, str_eq, false, not, Option, none, some, List,
  [], ◌∷◌, ◌++◌, map, ℤ, length, arith, select_where, find_where, count_where, lookup, true,
  PairwiseApart,
}
use mathlib.Core.Option
use dependecy_graph_auditor.Job.{Status}
use dependecy_graph_auditor.ServiceStore.Tables.{
  AttemptStatus, AttemptRow, DlqRow, WorkerRow, Db, empty_db,
}
use dependecy_graph_auditor.ServiceStore.Transaction.{Result, done, query, proceed, ◌>>=◌}
use dependecy_graph_auditor.ServiceStore.Statements.{pending_row, has_id}
use dependecy_graph_auditor.ServiceStore.Listing.{is_public, page_limit, of_result}
use dependecy_graph_auditor.ServiceStore.Samples.{nth_uuid, nth_uuid-present}
use dependecy_graph_auditor.ServiceStore.ListingTests.{sample_formats, parse-nth_uuid}
use dependecy_graph_auditor.ServiceStore.DlqListing.{
  Numbers, DlqPage, scan_entry, dlq_cursor, newer_entry, of_public_job, listed_entries, next_entry,
  list_dlq,
}
use dependecy_graph_auditor.ServiceStore.DlqPages.{list_dlq-pages}
use dependecy_graph_auditor.ServiceStore.Counting.{total_of}
use dependecy_graph_auditor.ServiceStore.Metrics.{
  MetricKey, AttemptStatus-discrete, same_key, Averages, Metrics, count_or_zero, count_key,
  count_attempt, attempt_groups, metrics,
}
use dependecy_graph_auditor.ServiceStore.Metering.{belongs, metrics-counts}
use dependecy_graph_auditor.ServiceStore.Workers.{
  is_worker, register_worker, worker_heartbeat, register_worker-worker_heartbeat,
}

abbrev sample_numbers : Numbers
sample_numbers = record {
  print = nth_uuid;
  scan = λ s. some (ℤ.pos (len s - 1));
  scan-print = λ n. ap (Option.map ℤ.pos) (parse-nth_uuid n);
  print-present = nth_uuid-present;
}

abbrev dead_letter : ℕ → String → DlqRow
dead_letter id job_id = record {
  id = id;
  job_id = job_id;
  job_type = "t";
  payload = none;
  attempts = 3;
  error = "";
  error_kind = none;
  root_job_id = none;
  parent_job_id = none;
  dead_at = 9;
  replayed_at = none;
  replayed_as_job_id = none;
}

abbrev dead_db : Db
dead_db = record empty_db {
  jobs = pending_row "a" "t" "" 5 1 "a" ∷ pending_row "b" "t" "" 5 2 "b" ∷ [];
  dlq = dead_letter 1 "a" ∷ dead_letter 2 "b" ∷ dead_letter 3 "a" ∷ dead_letter 4 "gone" ∷ [];
}

abbrev no_entries : DlqPage
no_entries = record { entries = []; next_cursor = "" }

abbrev page_ids : Result (DlqPage × Db) → List ℕ
page_ids (Result.ok (p, db)) = map (λ e. e.id) p.entries
page_ids (Result.err e) = []

-- The dead letter whose job is gone is not listed.
list_dlq_first_page :
    page_ids (list_dlq sample_formats sample_numbers (ℤ.pos 2) "" dead_db) ≡ 3 ∷ 2 ∷ []
unfolding list_dlq of_result dlq_cursor done query proceed ◌>>=◌ page_limit next_entry scan_entry
    of_public_job pending_row
list_dlq_first_page = refl

dead_db-PairwiseApart : PairwiseApart newer_entry dead_db.dlq
dead_db-PairwiseApart = (
  (inr refl, (inr refl, (inr refl, tt))),
  ((inr refl, (inr refl, tt)), ((inr refl, tt), (tt, tt))),
)

start_of_list : dlq_cursor sample_formats sample_numbers "" ≡ Result.ok none
unfolding dlq_cursor
start_of_list = refl

list_dlq-pages_example :
    (p : DlqPage) × (list_dlq sample_formats sample_numbers (ℤ.pos 2) "" dead_db
      ≡ Result.ok (p, dead_db))
    × (((p.next_cursor ≡ "") × (p.entries ≡ map scan_entry (listed_entries none dead_db)))
        ⊎ ((str_eq p.next_cursor "" ≡ false)
            × ((next : Option ℤ) × (dlq_cursor sample_formats sample_numbers p.next_cursor
                  ≡ Result.ok next)
                × (p.entries ++ map scan_entry (listed_entries next dead_db)
                    ≡ map scan_entry (listed_entries none dead_db))
                × (length (listed_entries next dead_db) < length (listed_entries none dead_db)))))
list_dlq-pages_example =
    list_dlq-pages sample_formats sample_numbers (ℤ.pos 2) "" none dead_db dead_db-PairwiseApart
      start_of_list

abbrev worker_row : String → ℕ → WorkerRow
worker_row id t = record { id = id; started_at = t; heartbeat_at = t }

abbrev worker_db : Db
worker_db = record empty_db { workers = worker_row "w" 3 ∷ worker_row "v" 4 ∷ [] }

one_row : length (select_where (is_worker "w") worker_db.workers) ≤ 1
one_row = omega arith

register_worker-worker_heartbeat_example :
    (ws : List WorkerRow) × ((register_worker "w" 10 >>= λ _. worker_heartbeat "w" 20) worker_db
      ≡ Result.ok (tt, record worker_db { workers = ws }))
    × (select_where (is_worker "w") ws
        ≡ record { id = "w"; started_at = 10; heartbeat_at = 20 } ∷ [])
    × (select_where (λ r. not (is_worker "w" r)) ws
        ≡ select_where (λ r. not (is_worker "w" r)) worker_db.workers)
register_worker-worker_heartbeat_example =
    register_worker-worker_heartbeat "w" 10 20 worker_db one_row

abbrev pairs : Averages
pairs = record { Float = ℕ; nought = 0; mean_seconds = λ times. length times; half_minute = 30 }

abbrev ended : String → AttemptStatus → AttemptRow
ended id status = record {
  job_id = id;
  attempt = 1;
  worker_id = "w";
  lease_token = "";
  status = status;
  started_at = 6;
  finished_at = some 8;
  error_kind = none;
  error = none;
}

abbrev metered_db : Db
metered_db = record dead_db {
  attempts =
      ended "a" (AttemptStatus.in_status Status.completed)
      ∷ ended "b" AttemptStatus.abandoned
      ∷ ended "b" AttemptStatus.abandoned
      ∷ [];
}

abbrev abandoned_ones : MetricKey
abandoned_ones = record { job_type = "t"; outcome = AttemptStatus.abandoned }

two_abandoned :
    lookup same_key (attempt_groups metered_db.jobs metered_db.attempts) abandoned_ones ≡ some 2
unfolding attempt_groups count_attempt count_key same_key AttemptStatus-discrete count_or_zero
    pending_row
two_abandoned = refl

metrics-counts_example :
    (m : Metrics pairs) × (metrics pairs 40 metered_db ≡ Result.ok (m, metered_db))
    × ((k : MetricKey)
        → count_or_zero (lookup same_key m.attempts k)
          ≡ count_where
              (λ a. belongs k a (find_where (has_id a.job_id) metered_db.jobs))
              metered_db.attempts)
    × (total_of (λ s. true) m.counts ≡ count_where is_public metered_db.jobs)
    × (m.dlq_replays ≤ m.dlq_entries)
metrics-counts_example = metrics-counts pairs 40 metered_db
