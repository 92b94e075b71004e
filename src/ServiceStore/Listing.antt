-- ===== src/ServiceStore/Listing.antt =====
-- `Store.List` and `Store.Counts`: a page of the public jobs, the newest first, and how many of
-- them are in each status.
use Prim.Native.String.{◌++◌ as append}
use dependecy_graph_auditor.Prelude.{
  ℕ, ◌+◌, ℤ, String, str_eq, Bool, true, ◌&&◌, ◌||◌, not, ◌==◌, ltb, Option, none, some, List, [],
  ◌∷◌, map, count_where, if◌then◌else◌, select_where, take, page, ordered,
}
use dependecy_graph_auditor.Job.{
  Status, Job, is_pending, is_running, is_waiting, is_retry_scheduled, is_completed, is_failed,
  is_dead_lettered, is_cancelled,
}
use dependecy_graph_auditor.ServiceStore.Tables.{Row, Services}
use dependecy_graph_auditor.ServiceStore.Transaction.{Result, Tx, ◌>>=◌, done, query, fail_with}
use dependecy_graph_auditor.ServiceStore.Statements.{scan_service_job}
use dependecy_graph_auditor.ServiceStore.Cursor.{Formats, encode_cursor, decode_cursor}

abbrev pub Counts : Type 0
Counts = List (Status × ℕ)

-- `none` and the empty text are filters that are not set.
pub record ListFilter : Type 0 where
  pub status : Option Status
  pub job_type : String
  pub query : String
  pub limit : ℤ
  pub cursor : String

pub record ListPage : Type 0 where
  pub jobs : List Job
  pub next_cursor : String
  pub counts : Counts

-- A limit that is out of range is replaced by 50.
unfoldable pub page_limit : ℤ → ℕ
page_limit (ℤ.pos n) = if n == 0 || ltb 100 n then 50 else n
page_limit (ℤ.negsuc n) = 50

unfoldable pub same_status : Status → Status → Bool
same_status Status.pending s = is_pending s
same_status Status.running s = is_running s
same_status Status.waiting s = is_waiting s
same_status Status.retry_scheduled s = is_retry_scheduled s
same_status Status.completed s = is_completed s
same_status Status.failed s = is_failed s
same_status Status.dead_lettered s = is_dead_lettered s
same_status Status.cancelled s = is_cancelled s

unfoldable pub has_status : Option Status → Row → Bool
unfolding same_status
has_status none r = true
has_status (some s) r = same_status s r.status

abbrev pub is_public : Row → Bool
is_public r = not r.internal

-- The WHERE clause but for the cursor; `ilike` is the database's match of a text with a pattern.
unfoldable pub passes : (String → String → Bool) → ListFilter → Row → Bool
unfolding has_status
passes ilike filter r =
    let pattern = append "%" (append filter.query "%") in
    is_public r
    && has_status filter.status r
    && (str_eq filter.job_type "" || str_eq r.job_type filter.job_type)
    && (str_eq filter.query "" || (ilike r.id pattern || ilike r.job_type pattern))

-- (created_at, id) < ($created, $id).
unfoldable pub older_than : Services → ℕ → String → Row → Bool
older_than services created id r =
    ltb r.created_at created || (r.created_at == created && services.text_lt r.id id)

-- ORDER BY created_at DESC, id DESC.
unfoldable pub newer : Services → Row → Row → Bool
unfolding older_than
newer services a b = older_than services a.created_at a.id b

unfoldable pub behind_cursor : Services → Option (ℕ × String) → Row → Bool
unfolding older_than
behind_cursor services none r = true
behind_cursor services (some (created, id)) r = older_than services created id r

unfoldable pub of_result : {A : Type 0} → Result A → Tx A
unfolding done fail_with
of_result (Result.ok a) = done a
of_result (Result.err e) = fail_with e

unfoldable pub start_cursor : Formats → String → Result (Option (ℕ × String))
start_cursor formats cursor =
    if str_eq cursor "" then Result.ok none else elim (decode_cursor formats cursor) [
      | Result.ok place ↦ Result.ok (some place)
      | Result.err e ↦ Result.err e
    ]

-- The rows of the query without its LIMIT.
unfoldable pub listed :
    Services → (String → String → Bool) → ListFilter → Option (ℕ × String) → List Row → List Row
unfolding passes newer behind_cursor
listed services ilike filter place rows =
    ordered (newer services)
      (select_where (λ r. passes ilike filter r && behind_cursor services place r) rows)

unfoldable pub next_cursor : Formats → Option Job → String
next_cursor formats none = ""
next_cursor formats (some last) = encode_cursor formats last.created_at last.id

abbrev pub all_statuses : List Status
all_statuses =
    Status.pending ∷ Status.running ∷ Status.waiting ∷ Status.retry_scheduled ∷ Status.completed
    ∷ Status.failed ∷ Status.dead_lettered ∷ Status.cancelled ∷ []

-- GROUP BY status over the rows that pass a test: a status without rows has no group.
unfoldable pub count_groups : (Row → Bool) → List Row → List Status → Counts
unfolding same_status
count_groups p rows [] = []
count_groups p rows (s ∷ statuses) =
    let n = count_where (λ r. p r && same_status s r.status) rows in
    let groups = count_groups p rows statuses in if n == 0 then groups else (s, n) ∷ groups

unfoldable pub counts : Tx Counts
counts = query (λ db. count_groups is_public db.jobs all_statuses)

unfoldable pub list : Services → Formats → (String → String → Bool) → ListFilter → Tx ListPage
list services formats ilike filter = do
  let limit = page_limit filter.limit
  place ← of_result (start_cursor formats filter.cursor)
  rows ← query (λ db. take (limit + 1) (listed services ilike filter place db.jobs))
  let (jobs, last) = page limit (map scan_service_job rows)
  groups ← counts
  done (record { jobs = jobs; next_cursor = next_cursor formats last; counts = groups })
