-- ===== src/ServiceStore/Retry.antt =====
-- `Store.Retry`: a job that has failed is submitted again.
use dependecy_graph_auditor.Prelude.{ℕ, String, ◌||◌, false, if◌then◌else◌}
use dependecy_graph_auditor.Job.{Job, Submission, Error, is_failed, is_dead_lettered}
use dependecy_graph_auditor.ServiceStore.Tables.{Services}
use dependecy_graph_auditor.ServiceStore.Transaction.{Tx, ◌>>=◌, done, fail_with}
use dependecy_graph_auditor.ServiceStore.Statements.{attempts_or}
use dependecy_graph_auditor.ServiceStore.Submit.{submit}
use dependecy_graph_auditor.ServiceStore.Detail.{get}

unfoldable pub retry_submission : Job → ℕ → Submission
retry_submission j max_attempts = record {
  job_type = j.job_type;
  payload = j.payload;
  max_attempts = attempts_or max_attempts j.max_attempts;
  idempotency_key = "";
  request_hash = "";
  root_job_id = "";
  parent_job_id = "";
  internal = false;
  retried_from_job_id = j.id;
  replayed_from_job_id = "";
}

unfoldable pub retry : Services → String → ℕ → ℕ → Tx Job
retry services id max_attempts now = do
  detail ← get services services.decode_update id
  if is_failed detail.job.status || is_dead_lettered detail.job.status
      then (do
        submitted ← submit services (retry_submission detail.job max_attempts) now
        done submitted.0)
      else fail_with Error.conflict
