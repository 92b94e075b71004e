-- ===== src/ServiceStore/Selected.antt =====
-- `Cancel` and `ReclaimExpired` act on rows that they have read before. Since ids are distinct, the
-- row that an UPDATE by id finds is the row that was read.
use dependecy_graph_auditor.Prelude.{
  ℕ, ◌≡◌, refl, ◌∙◌, subst, ◌⊎◌, inl, inr, String, Bool, true, false, Option, none, some, List,
  find_where, All, All-imp, All-update_turn, All-Memᴰ, All-of_members, Memᴰ, Memᴰ-find_where, arith,
}
use dependecy_graph_auditor.Job.{Status, Job, Error}
use dependecy_graph_auditor.ServiceStore.Tables.{Row, Db, Services}
use dependecy_graph_auditor.ServiceStore.Transaction.{Result, Tx, query, or_fail}
use dependecy_graph_auditor.ServiceStore.Statements.{has_id, select_job, update_jobs}
use dependecy_graph_auditor.ServiceStore.Operate.{get_job, record_cancellation, cancel_in, cancel}
use dependecy_graph_auditor.ServiceStore.Rows.{
  IsSound, cancelled_row-IsSound, cancel_requested-IsSound,
}
use dependecy_graph_auditor.ServiceStore.Identity.{DistinctIds, DistinctIds-only}
use dependecy_graph_auditor.ServiceStore.Keeps.{
  Keeps, Turns, bind_ok, Keeps-bind, Keeps-done, Keeps-fail_with, Turns-bind, Turns-update_jobs,
  keeps_rules,
}
use dependecy_graph_auditor.ServiceStore.Invariant.{SoundRows, SoundRows-update}

pub or_fail_ok :
    {A : Type 0} (o : Option A) (x : Error) (db db' : Db) (a : A)
    → or_fail o x db ≡ Result.ok (a, db')
    → (o ≡ some a) × (db ≡ db')
unfolding or_fail
or_fail_ok none x db db' a e = cc
or_fail_ok (some b) x db db' a e = (ground arith, ground arith)

pub query_ok :
    {A : Type 0} (f : Db → A) (db db' : Db) (a : A)
    → query f db ≡ Result.ok (a, db')
    → (f db ≡ a) × (db ≡ db')
unfolding query
query_ok f db db' a e = (ground arith, ground arith)

pub get_job_ok :
    (id : String) (db db' : Db) (r : Row)
    → get_job id db ≡ Result.ok (r, db')
    → (find_where (has_id id) db.jobs ≡ some r) × (db ≡ db')
unfolding get_job select_job
get_job_ok id db db' r e =
    let (o, mid, first, rest) = bind_ok _ _ db db' r e in
    let (found, same) = query_ok (λ t. find_where (has_id id) t.jobs) db mid o first in
    let (there, same') = or_fail_ok o Error.not_found mid db' r rest in
    (found ∙ there, same ∙ same')

module _ (services : Services) (held : List Job) where
  -- The table in which `row` is the only row with its id.
  abbrev pub Known : Row → ℕ → List Row → Type 0
  Known row n rows =
      All (λ r. IsSound services held n r × ((has_id row.id r ≡ false) ⊎ (r ≡ row))) rows

  -- The UPDATE of one row by its id, in such a table.
  pub Turns-update-Known :
      (row : Row) (f : Row → Row)
      → ((n : ℕ) → IsSound services held n row → IsSound services held n (f row))
      → Turns (Known row) (SoundRows services held) (update_jobs (has_id row.id) f)
  Turns-update-Known row f step =
      Turns-update_jobs (Known row) (SoundRows services held) (has_id row.id) f λ n rows h.
        All-update_turn _ (IsSound services held n) (has_id row.id) f rows
          (λ r k hit. known_step n r k.0 k.1 hit) (λ r k miss. k.0) h
    where
      known_step :
          (n : ℕ) (r : Row)
          → IsSound services held n r
          → (has_id row.id r ≡ false) ⊎ (r ≡ row)
          → has_id row.id r ≡ true
          → IsSound services held n (f r)
      known_step n r sound (inl miss) hit = cc
      known_step n r sound (inr same) hit = rw same (step n (rw same at sound))

  Sound-record_cancellation :
      (id : String) (c : Bool) (now : ℕ)
      → Keeps (SoundRows services held) (record_cancellation id c now)
  unfolding record_cancellation
  Sound-record_cancellation id c now = search keeps_rules depth 8

  Turns-Known :
      {A : Type 0} (row : Row) (m : Tx A)
      → Keeps (SoundRows services held) m
      → Turns (Known row) (SoundRows services held) m
  Turns-Known row m k = record {
    at = λ db db' a e h.
        k.at db db' a e (All-imp _ (IsSound services held db.drawn) db.jobs (λ r known. known.0) h);
  }

  Turns-cancel_in :
      (s : Status) (row : Row) (now : ℕ)
      → row.status ≡ s
      → Turns (Known row) (SoundRows services held) (cancel_in s row now)
  unfolding cancel_in
  Turns-cancel_in Status.pending row now e =
      Turns-bind _ _
        (Turns-update-Known row _ (λ n h. cancelled_row-IsSound services held n row now (rw e) h))
        λ _. Sound-record_cancellation row.id true now
  Turns-cancel_in Status.retry_scheduled row now e =
      Turns-bind _ _
        (Turns-update-Known row _ (λ n h. cancelled_row-IsSound services held n row now (rw e) h))
        λ _. Sound-record_cancellation row.id true now
  Turns-cancel_in Status.running row now e =
      Turns-bind _ _
        (Turns-update-Known row _ (λ n h. cancel_requested-IsSound services held n row now h))
        λ _. Sound-record_cancellation row.id false now
  Turns-cancel_in Status.waiting row now e = Turns-Known row _ (
      Keeps-bind _ _
        (SoundRows-update services held _ _
          λ n r hit h. cancelled_row-IsSound services held n r now (ground arith) h)
        λ _.
          Keeps-bind _ _
            (SoundRows-update services held _ _
              λ n r hit h. cancel_requested-IsSound services held n r now h)
            λ _. Sound-record_cancellation row.id true now)
  Turns-cancel_in Status.cancelled row now e = Turns-Known row _ (Keeps-done _)
  Turns-cancel_in Status.completed row now e = Turns-Known row _ (Keeps-fail_with _)
  Turns-cancel_in Status.failed row now e = Turns-Known row _ (Keeps-fail_with _)
  Turns-cancel_in Status.dead_lettered row now e = Turns-Known row _ (Keeps-fail_with _)

  pub Known-at :
      (row : Row) (n : ℕ) (rows : List Row)
      → Memᴰ row rows
      → DistinctIds rows
      → SoundRows services held n rows
      → Known row n rows
  Known-at row n rows m d h = All-of_members _ rows λ r inside. (
    All-Memᴰ (IsSound services held n) rows h inside,
    All-Memᴰ (λ s. (has_id row.id s ≡ false) ⊎ (s ≡ row)) rows (DistinctIds-only rows row d m)
        inside,
  )

  pub Sound-cancel :
      (id : String) (now : ℕ) (db db' : Db) (a : Job)
      → cancel id now db ≡ Result.ok (a, db')
      → DistinctIds db.jobs
      → SoundRows services held db.drawn db.jobs
      → SoundRows services held db'.drawn db'.jobs
  unfolding cancel
  Sound-cancel id now db db' a e d h =
      let (row, mid, first, rest) = bind_ok _ _ db db' a e in
      let (found, same) = get_job_ok id db mid row first in
      (Turns-cancel_in row.status row now refl).at mid db' a rest (
        subst (λ t. Known row t.drawn t.jobs) same
          (Known-at row db.drawn db.jobs (Memᴰ-find_where _ db.jobs row found).0 d h))
