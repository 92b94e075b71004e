-- ===== src/ServiceStore/Settlement.antt =====
-- `finalizeRoot` against a description of it by the statuses of the children.
use dependecy_graph_auditor.Prelude.{
  ℕ, ◌≡◌, refl, sym, ◌∙◌, ap, subst, ◌⊎◌, inl, inr, String, eq_iff, Bool, true, false, ◌&&◌, ◌==◌,
  not, none, if◌then◌else◌, some, find_where, count_where, update_where, Memᴰ, Memᴰ-find_where,
  Memᴰ-update_where, Bool-cases, arith,
}
use dependecy_graph_auditor.Job.{Status, is_waiting, is_completed}
use dependecy_graph_auditor.ServiceStore.Tables.{Row, Db, Services}
use dependecy_graph_auditor.ServiceStore.Transaction.{
  Result, Tx, ◌>>=◌, ◌>>◌, proceed, statement, query, when, or_fail, done,
}
use dependecy_graph_auditor.ServiceStore.Statements.{
  has_id, update_jobs, select_job, insert_event, insert_dlq,
}
use dependecy_graph_auditor.ServiceStore.Finalize.{
  is_active, active_children, failed_children, dead_children, root_status, root_error_kind, settled,
  failure_message, insert_result, conclude_root, settle_root, finalize_root, audit_summary_of,
}
use dependecy_graph_auditor.ServiceStore.Verdicts.{Children, Verdict, count_children, Verdict-of}

-- A transaction that always succeeds, and leaves the table of jobs alone.
record Quiet (m : Tx (Unit {0})) : Type 0 where
  pub at : (db : Db) → (db' : Db) × (m db ≡ Result.ok (tt, db')) × (db'.jobs ≡ db.jobs)

Quiet-then : (m k : Tx (Unit {0})) → Quiet m → Quiet k → Quiet (m >> k)
unfolding ◌>>=◌
Quiet-then m k qm qk = record {
  at = λ db.
      let (mid, first, same) = qm.at db in
      let (db', rest, same') = qk.at mid in
      (db', ap (λ r. proceed r (λ _. k)) first ∙ rest, same' ∙ same);
}

Quiet-when : (b : Bool) (m : Tx (Unit {0})) → Quiet m → Quiet (when b m)
unfolding when done
Quiet-when true m q = q
Quiet-when false m q = record { at = λ db. (db, refl, refl) }

Quiet-statement : (f : Db → Db) → ((db : Db) → (f db).jobs ≡ db.jobs) → Quiet (statement f)
unfolding statement
Quiet-statement f same = record { at = λ db. (f db, refl, same db) }

Quiet-conclude_root :
    (root : Row) (status : Status) (summary : String) (now : ℕ)
    → Quiet (conclude_root root status summary now)
unfolding conclude_root insert_result insert_dlq insert_event
Quiet-conclude_root root status summary now =
    Quiet-then _ _ (Quiet-when _ _ (Quiet-statement _ (λ db. refl))) (
      Quiet-then _ _ (Quiet-when _ _ (Quiet-statement _ (λ db. refl)))
        (Quiet-statement _ (λ db. refl)))

-- The status and the table that `settle_root` makes for the row `r` of a root.
abbrev status_for : Row → Db → Status
status_for r db = root_status (failed_children r.id db.jobs) (dead_children r.id db.jobs)

abbrev settles : Row → Row → Bool
settles r s = has_id r.id s && is_waiting s.status

abbrev with_settled : Row → ℕ → Db → Db
with_settled r now db = record db {
  jobs =
      update_where (settles r) (settled (status_for r db) (failure_message r.job_type) now) db.jobs;
}

module _ (services : Services) (root : String) (now : ℕ) (db : Db) (r : Row)
    (found : find_where (has_id root) db.jobs ≡ some r) where
  finalize_found :
      finalize_root services root now db
      ≡ when (active_children root db.jobs == 0) (settle_root services r now) db
  unfolding finalize_root select_job query or_fail done ◌>>=◌
  finalize_found = rw found refl

  settle_total :
      (db' : Db) × (settle_root services r now db ≡ Result.ok (tt, db'))
      × (db'.jobs ≡ (with_settled r now db).jobs)
  unfolding settle_root query update_jobs ◌>>=◌
  settle_total =
      (Quiet-when (not (count_where (settles r) db.jobs == 0)) _ (
          Quiet-conclude_root r (status_for r db)
            (audit_summary_of services r.id (failed_children r.id db.jobs) db) now)).at
        (with_settled r now db)

  settle_when :
      (b : Bool) → b ≡ true → when b (settle_root services r now) db ≡ settle_root services r now db
  unfolding when
  settle_when b e = rw e refl

  stay_when : (b : Bool) → b ≡ false → when b (settle_root services r now) db ≡ Result.ok (tt, db)
  unfolding when done
  stay_when b e = rw e refl

  same_id : r.id ≡ root
  same_id = (eq_iff r.id root).0 (Memᴰ-find_where (has_id root) db.jobs r found).1

  settled_member :
      is_waiting r.status ≡ true
      → Memᴰ
          (settled (status_for r db) (failure_message r.job_type) now r)
          (with_settled r now db).jobs
  settled_member waits =
      Memᴰ-update_where (settles r) _ db.jobs (Memᴰ-find_where (has_id root) db.jobs r found).0
        (rw waits (ground (arith, eq_iff r.id r.id)))

  Verdict-found :
      (active_children root db.jobs == 0) ≡ true → Verdict root db.jobs (status_for r db)
  Verdict-found e =
      subst
        (λ id.
          Verdict root db.jobs
            (root_status (failed_children id db.jobs) (dead_children id db.jobs)))
        (sym same_id) (Verdict-of root db.jobs (ground arith))

  not_ended :
      (active_children root db.jobs == 0) ≡ false
      → ¬ Children root db.jobs (λ s. is_active s ≡ false)
  unfolding active_children
  not_ended e all =
      let zero_active = (count_children root db.jobs is_active).1 all in absurd (ground arith)

  -- `finalizeRoot` on the row of a root: while a child is active it changes nothing. Once none is, it
  -- always succeeds, and a root that waits gets its end time, its error and a status that
  -- is dead-lettered exactly when some child is, completed exactly when every child is, and failed
  -- exactly when no child is dead-lettered and not every child is completed.
  pub finalize_root-Verdict :
      ((¬ Children root db.jobs (λ s. is_active s ≡ false))
        × (finalize_root services root now db ≡ Result.ok (tt, db)))
      ⊎ ((status : Status) × (db' : Db) × Verdict root db.jobs status
          × (finalize_root services root now db ≡ Result.ok (tt, db'))
          × (is_waiting r.status ≡ true
              → Memᴰ
                  (record r {
                    status = status;
                    completed_at = some now;
                    last_error =
                        if is_completed status then none else some (failure_message r.job_type);
                    last_error_kind = root_error_kind status;
                  })
                  db'.jobs))
  unfolding settled
  finalize_root-Verdict = elim (Bool-cases (active_children root db.jobs == 0)) [
    | inl none_left ↦
        let (db', settles_to, jobs) = settle_total in
        inr (
          status_for r db,
          db',
          Verdict-found none_left,
          finalize_found ∙ settle_when _ none_left ∙ settles_to,
          λ waits. rw jobs (settled_member waits),
        )
    | inr some_left ↦ inl (not_ended some_left, finalize_found ∙ stay_when _ some_left)
  ]
