-- ===== src/ServiceStore/DlqListing.antt =====
-- `Store.ListDLQ`: a page of the dead letters of public jobs, the newest first.
use dependecy_graph_auditor.Prelude.{
  ℕ, ◌+◌, ◌≡◌, ℤ, String, str_eq, Bool, true, false, find_where, ◌&&◌, ltb, Option, none, some,
  List, map, if◌then◌else◌, select_where, take, page, ordered,
}
use dependecy_graph_auditor.Job.{ErrorKind, Error}
use dependecy_graph_auditor.ServiceStore.Tables.{Row, DlqRow, Db, coalesce}
use dependecy_graph_auditor.ServiceStore.Transaction.{Result, Tx, ◌>>=◌, done, query}
use dependecy_graph_auditor.ServiceStore.Statements.{has_id}
use dependecy_graph_auditor.ServiceStore.Operate.{is_public}
use dependecy_graph_auditor.ServiceStore.Cursor.{Formats}
use dependecy_graph_auditor.ServiceStore.Listing.{page_limit, of_result}

-- fmt.Sprint and fmt.Sscan of an id.
pub record Numbers : Type 0 where
  pub print : ℕ → String
  pub scan : String → Option ℤ
  pub scan-print : (n : ℕ) → scan (print n) ≡ some (ℤ.pos n)
  pub print-present : (n : ℕ) → str_eq (print n) "" ≡ false

pub record DlqEntry : Type 0 where
  pub id : ℕ
  pub job_id : String
  pub job_type : String
  pub payload : String
  pub attempts : ℕ
  pub error_kind : Option ErrorKind
  pub error : String
  pub dead_at : ℕ
  pub replayed_at : Option ℕ
  pub replayed_as_job_id : String

pub record DlqPage : Type 0 where
  pub entries : List DlqEntry
  pub next_cursor : String

unfoldable pub scan_entry : DlqRow → DlqEntry
scan_entry r = record {
  id = r.id;
  job_id = r.job_id;
  job_type = r.job_type;
  payload = coalesce r.payload;
  attempts = r.attempts;
  error_kind = r.error_kind;
  error = r.error;
  dead_at = r.dead_at;
  replayed_at = r.replayed_at;
  replayed_as_job_id = coalesce r.replayed_as_job_id;
}

unfoldable pub scanned : Option ℤ → Result (Option ℤ)
scanned none = Result.err Error.conflict
scanned (some id) = Result.ok (some id)

unfoldable pub scanned_text : Numbers → Option String → Result (Option ℤ)
unfolding scanned
scanned_text numbers none = Result.err Error.conflict
scanned_text numbers (some text) = scanned (numbers.scan text)

unfoldable pub dlq_cursor : Formats → Numbers → String → Result (Option ℤ)
unfolding scanned_text
dlq_cursor formats numbers cursor =
    if str_eq cursor "" then Result.ok none else scanned_text numbers (formats.decode_text cursor)

-- ORDER BY d.id DESC.
abbrev pub newer_entry : DlqRow → DlqRow → Bool
newer_entry a b = ltb b.id a.id

-- d.id < $1.
abbrev pub before_entry : Option ℤ → DlqRow → Bool
before_entry none r = true
before_entry (some (ℤ.pos id)) r = ltb r.id id
before_entry (some (ℤ.negsuc id)) r = false

-- JOIN jobs j ON j.id=d.job_id WHERE j.internal=FALSE.
unfoldable pub of_public_job : List Row → DlqRow → Bool
of_public_job jobs r = is_public (find_where (has_id r.job_id) jobs)

-- The rows of the query without its LIMIT.
abbrev pub listed_entries : Option ℤ → Db → List DlqRow
listed_entries place db =
    ordered newer_entry (select_where (λ r. of_public_job db.jobs r && before_entry place r) db.dlq)

unfoldable pub next_entry : Formats → Numbers → Option DlqEntry → String
next_entry formats numbers none = ""
next_entry formats numbers (some last) = formats.encode_text (numbers.print last.id)

unfoldable pub list_dlq : Formats → Numbers → ℤ → String → Tx DlqPage
list_dlq formats numbers limit cursor = do
  let size = page_limit limit
  place ← of_result (dlq_cursor formats numbers cursor)
  rows ← query (λ db. take (size + 1) (listed_entries place db))
  let (entries, last) = page size (map scan_entry rows)
  done (record { entries = entries; next_cursor = next_entry formats numbers last })
