-- ===== src/QueueStore/Acquiring.antt =====
-- Which job AcquireJob answers, and that it answers it once.
use dependecy_graph_auditor.Prelude.{
  ℕ, ◌≡◌, refl, sym, ap, ◌∙◌, subst, ◌⊎◌, inl, inr, String, eq_iff, Bool, true, false, ◌&&◌, none,
  some, List, [], select_where, update_where, All, Memᴰ, Memᴰ-select_where, All-Memᴰ, All-intro,
  All-update_turn, ◌≢◌, Option-cases, arith,
}
use mathlib.Core.Option.{some-injective}
use dependecy_graph_auditor.Job.{Status, Job, is_pending}
use dependecy_graph_auditor.ServiceStore.Tables.{Row, Db, Services}
use dependecy_graph_auditor.ServiceStore.Transaction.{
  Result, ◌>>=◌, done, query, proceed, ok-injective,
}
use dependecy_graph_auditor.ServiceStore.Statements.{has_id, update_jobs}
use dependecy_graph_auditor.ServiceStore.Claim.{first_claimable}
use dependecy_graph_auditor.ServiceStore.Claiming.{Memᴰ-first_claimable}
use dependecy_graph_auditor.ServiceStore.Choice.{
  NoLater, first_claimable-NoLater, first_claimable-none,
}
use dependecy_graph_auditor.QueueStore.Operations.{
  scan_job, with_status, is_due, acquire_row, acquire_job,
}

-- The tables after a job has been marked as running.
abbrev pub with_running : Row → Db → Db
with_running r db = record db {
  jobs = update_where (has_id r.id) (with_status Status.running) db.jobs;
}

acquire_found :
    (services : Services) (locked : String → Bool) (now : ℕ) (db : Db) (r : Row)
    → first_claimable services (select_where (is_due locked now) db.jobs) ≡ some r
    → acquire_job services locked now db
      ≡ Result.ok (some (scan_job (with_status Status.running r)), with_running r db)
unfolding acquire_job acquire_row update_jobs done query proceed ◌>>=◌
acquire_found services locked now db r e = rw e refl

acquire_nothing :
    (services : Services) (locked : String → Bool) (now : ℕ) (db : Db)
    → first_claimable services (select_where (is_due locked now) db.jobs) ≡ none
    → acquire_job services locked now db ≡ Result.ok (none, db)
unfolding acquire_job acquire_row update_jobs done query proceed ◌>>=◌
acquire_nothing services locked now db e = rw e refl

-- AcquireJob never fails. It returns nothing where no row is due, and else a due row than which no
-- due row was scheduled earlier, as a running job, and marks it, and nothing but the rows of its
-- id, as running.
pub acquire_job-takes_first :
    (services : Services) (locked : String → Bool) (now : ℕ) (db : Db)
    → ((select_where (is_due locked now) db.jobs ≡ [])
        × (acquire_job services locked now db ≡ Result.ok (none, db)))
      ⊎ ((r : Row) × Memᴰ r db.jobs
          × (is_due locked now r ≡ true)
          × All (NoLater r) (select_where (is_due locked now) db.jobs)
          × (acquire_job services locked now db
              ≡ Result.ok (some (scan_job (with_status Status.running r)), with_running r db)))
acquire_job-takes_first services locked now db =
    let due = select_where (is_due locked now) db.jobs in
    elim (Option-cases (first_claimable services due)) [
      | inl nothing ↦ inl (
        first_claimable-none services due nothing,
        acquire_nothing services locked now db nothing,
      )
      | inr (r, first) ↦
          let (inside, hit) =
            Memᴰ-select_where (is_due locked now) db.jobs
              (Memᴰ-first_claimable services due r first) in
          inr (
            r,
            inside,
            hit,
            first_claimable-NoLater services due r first,
            acquire_found services locked now db r first,
          )
    ]

-- After an UPDATE by id, the rows of this id have what it sets.
pub updated_by_id :
    (P : Row → Type 0) (id : String) (f : Row → Row) (rows : List Row)
    → ((r : Row) → P (f r))
    → All (λ r. has_id id r ≡ true → P r) (update_where (has_id id) f rows)
updated_by_id P id f rows h =
    All-update_turn (λ r. Unit {0}) (λ r. has_id id r ≡ true → P r) (has_id id) f rows
      (λ r _ hit again. h r) (λ r _ miss hit. cc (miss, hit))
      (All-intro (λ r. Unit {0}) rows (λ r. tt))

-- What an AcquireJob that answers a job has done.
acquired :
    (services : Services) (locked : String → Bool) (now : ℕ) (db db' : Db) (j : Job)
    → acquire_job services locked now db ≡ Result.ok (some j, db')
    → (r : Row) × Memᴰ r db.jobs
      × (is_pending r.status ≡ true)
      × (r.id ≡ j.id)
      × (with_running r db ≡ db')
unfolding is_due scan_job
acquired services locked now db db' j e = elim (acquire_job-takes_first services locked now db) [
  | inl (none_due, nothing) ↦ absurd (no_job (ap (λ r. r.0) (ok-injective _ _ (sym nothing ∙ e))))
  | inr (r, inside, due, firsts, value) ↦
      let same = ok-injective _ _ (sym value ∙ e) in
      (
        r,
        inside,
        first_true _ _ _ due,
        ap (λ k. k.id) (some-injective _ _ (ap (λ x. x.0) same)),
        ap (λ x. x.1) same,
      )
]
  where
    no_job : none ≡ some j → ⊥
    no_job f = cc f

    first_true : (a b c : Bool) → (a && b && c) ≡ true → a ≡ true
    first_true a b c f = ground arith

true_is_not_false : {b : Bool} → b ≡ true → b ≡ false → ⊥
true_is_not_false e f = cc (e, f)

-- Two calls of AcquireJob, one after the other, do not answer the same job.
pub acquire_job-acquire_job :
    (services : Services) (locked locked' : String → Bool) (now now' : ℕ) (db db' db'' : Db)
    (j k : Job)
    → acquire_job services locked now db ≡ Result.ok (some j, db')
    → acquire_job services locked' now' db' ≡ Result.ok (some k, db'')
    → k.id ≢ j.id
acquire_job-acquire_job services locked locked' now now' db db' db'' j k e f same =
    let (r, inside, pending, id, after) = acquired services locked now db db' j e in
    let (s, inside', pending', id', after') = acquired services locked' now' db' db'' k f in
    let rows = ap (λ t. t.jobs) after in
    let running =
      updated_by_id (λ t. is_pending t.status ≡ false) r.id (with_status Status.running) db.jobs
        (λ t. refl) in
    let one : s.id ≡ r.id = id' ∙ same ∙ sym id in
    let quiet =
      All-Memᴰ _ _ running (subst (Memᴰ s) (sym rows) inside') ((eq_iff s.id r.id).1 one) in
    true_is_not_false pending' quiet
