-- ===== src/ServiceStore/Idempotency.antt =====
-- `Store.Submit` with an idempotency key: the first submission makes the job, a repeated one
-- returns it.
use dependecy_graph_auditor.Prelude.{
  find_append, ℕ, ◌≡◌, refl, sym, ◌∙◌, subst, inl, inr, String, str_eq, eq_iff, Bool, true, false,
  Option, none, some, [], ◌∷◌, ◌++◌, find_where, is_some, if◌then◌else◌, Bool-cases, arith,
}
use dependecy_graph_auditor.Job.{Job, Submission, Error, default_max_attempts}
use dependecy_graph_auditor.ServiceStore.Tables.{Row, Db, Services, coalesce, column_is}
use dependecy_graph_auditor.ServiceStore.Transaction.{
  Result, Tx, ◌>>=◌, or_fail, done, fail_with, query,
}
use dependecy_graph_auditor.ServiceStore.Statements.{
  scan_service_job, has_id, key_taken, inserted, insert_job, select_job, insert_event, new_job_id,
  attempts_or, is_castable, submission_hash, pending_row,
}
use dependecy_graph_auditor.ServiceStore.Submit.{
  submitted_row, load_existing, record_submitted, submit,
}
use dependecy_graph_auditor.ServiceStore.Claiming.{drawn_after}

-- The test of the digest at the end of that branch.
abbrev checked : Bool → Job → Tx (Job × Bool)
checked same value = if same then done (value, false) else fail_with Error.idempotency_conflict

checked_again :
    (b : Bool) (k : Job) (db db' : Db) (j : Job) (c : Bool)
    → checked b k db ≡ Result.ok ((j, c), db')
    → (db ≡ db') × ((mid : Db) → checked b k mid ≡ Result.ok ((j, false), mid))
unfolding done fail_with
checked_again true k db db' j c e =
    let same : k ≡ j = ground arith in (ground arith, λ mid. rw same refl)
checked_again false k db db' j c e = cc

-- `load_existing`, for the row that it finds.
abbrev answer : Option Row → String → Tx (Job × Bool)
answer f hash = do
  existing ← or_fail f Error.database
  checked (str_eq (coalesce existing.request_hash) hash) (scan_service_job existing)

-- An answer repeats itself.
answer_again :
    (f : Option Row) (hash : String) (db db' : Db) (j : Job) (c : Bool)
    → answer f hash db ≡ Result.ok ((j, c), db')
    → (db ≡ db') × ((mid : Db) → answer f hash mid ≡ Result.ok ((j, false), mid))
unfolding or_fail ◌>>=◌
answer_again none hash db db' j c e = cc
answer_again (some row) hash db db' j c e =
    checked_again (str_eq (coalesce row.request_hash) hash) (scan_service_job row) db db' j c e

-- The answer to a submission whose job was there before.
load_existing_again :
    (key hash : String) (db : Db) (row : Row)
    → find_where (λ r. column_is r.idempotency_key key) db.jobs ≡ some row
    → str_eq (coalesce row.request_hash) hash ≡ true
    → load_existing key hash db ≡ Result.ok ((scan_service_job row, false), db)
unfolding load_existing or_fail done ◌>>=◌
load_existing_again key hash db row found same = rw (found, same) refl

record_submitted_ok :
    (id : String) (now : ℕ) (db db' : Db) (row : Row) (j : Job) (c : Bool)
    → find_where (has_id id) db.jobs ≡ some row
    → record_submitted id now db ≡ Result.ok ((j, c), db')
    → (j ≡ scan_service_job row) × (db'.jobs ≡ db.jobs)
unfolding record_submitted insert_event select_job or_fail query done ◌>>=◌
record_submitted_ok id now db db' row j c found e = ground arith

-- The part of `submit` after its INSERT.
abbrev conclude : String → String → String → ℕ → Bool → Tx (Job × Bool)
conclude id key hash now created =
    if created then record_submitted id now else load_existing key hash

load_existing-answer :
    (key hash : String) (db : Db)
    → load_existing key hash db
      ≡ answer (find_where (λ r. column_is r.idempotency_key key) db.jobs) hash db
unfolding load_existing query ◌>>=◌
load_existing-answer key hash db = refl

module _ (r : Row) (key hash : String) (now : ℕ) (db : Db) (k : r.idempotency_key ≡ some key) where
  insert_taken :
      key_taken (some key) db.jobs ≡ true
      → (insert_job r >>= conclude r.id key hash now) db ≡ load_existing key hash db
  unfolding insert_job inserted ◌>>=◌
  insert_taken taken = rw (k, taken) refl

  insert_clash :
      key_taken (some key) db.jobs ≡ false
      → is_some (find_where (has_id r.id) db.jobs) ≡ true
      → (insert_job r >>= conclude r.id key hash now) db ≡ Result.err Error.database
  unfolding insert_job inserted ◌>>=◌
  insert_clash free clash = rw (k, free, clash) refl

  insert_fresh :
      key_taken (some key) db.jobs ≡ false
      → is_some (find_where (has_id r.id) db.jobs) ≡ false
      → (insert_job r >>= conclude r.id key hash now) db
        ≡ record_submitted r.id now (record db { jobs = db.jobs ++ r ∷ [] })
  unfolding insert_job inserted ◌>>=◌
  insert_fresh free fresh = rw (k, free, fresh) refl

-- The answer to a later submission with the key of a row that is there.
present_again :
    (first : Row) (key hash : String) (db : Db)
    → find_where (λ r. column_is r.idempotency_key key) db.jobs ≡ some first
    → first.request_hash ≡ some hash
    → (second : Row) (later : ℕ) → second.idempotency_key ≡ some key
    → (insert_job second >>= conclude second.id key hash later) db
      ≡ Result.ok ((scan_service_job first, false), db)
present_again first key hash db found h second later k =
    insert_taken second key hash later db k (rw found refl)
    ∙ load_existing_again key hash db first found (rw h (ground (arith, eq_iff hash hash)))

-- An INSERT of a row with a key, the answer to it, and the answer to a later INSERT with that key.
insert_twice :
    (first second : Row) (key hash : String) (now later : ℕ) (db db' : Db) (j : Job) (c : Bool)
    → first.idempotency_key ≡ some key
    → first.request_hash ≡ some hash
    → second.idempotency_key ≡ some key
    → (insert_job first >>= conclude first.id key hash now) db ≡ Result.ok ((j, c), db')
    → (insert_job second >>= conclude second.id key hash later) (drawn_after db')
      ≡ Result.ok ((j, false), drawn_after db')
insert_twice first second key hash now later db db' j c k1 h1 k2 e =
    elim (Bool-cases (key_taken (some key) db.jobs)) [
      | inl taken ↦
          let (same, again) =
            answer_again (find_where (λ r. column_is r.idempotency_key key) db.jobs) hash db db' j c
              (sym (load_existing-answer key hash db)
                ∙ sym (insert_taken first key hash now db k1 taken)
                ∙ e) in
          subst
            (λ d.
              (insert_job second >>= conclude second.id key hash later) (drawn_after d)
              ≡ Result.ok ((j, false), drawn_after d))
            same
            (insert_taken second key hash later (drawn_after db) k2 taken
              ∙ load_existing-answer key hash (drawn_after db)
              ∙ again (drawn_after db))
      | inr free ↦ elim (Bool-cases (is_some (find_where (has_id first.id) db.jobs))) [
        | inl clash ↦ cc (insert_clash first key hash now db k1 free clash, e)
        | inr fresh ↦
            let (same, jobs) =
              record_submitted_ok first.id now (record db { jobs = db.jobs ++ first ∷ [] }) db'
                first j c
                (find_append (has_id first.id) db.jobs first fresh
                  (ground (arith, eq_iff first.id first.id)))
                (sym (insert_fresh first key hash now db k1 free fresh) ∙ e) in
            rw same (
              present_again first key hash (drawn_after db')
                (rw jobs (
                  find_append (λ r. column_is r.idempotency_key key) db.jobs first free
                    (rw k1 (ground (arith, eq_iff key key)))))
                h1 second later k2)
      ]
    ]

-- After a submission that has an idempotency key and succeeds, the same submission, made next and at
-- any time, answers with the same job and `created` false, and leaves the tables as the first one
-- left them, but for the identifier that it draws.
pub submit-submit :
    (services : Services) (input : Submission) (now later : ℕ) (db db' : Db) (j : Job) (c : Bool)
    → str_eq input.idempotency_key "" ≡ false
    → submit services input now db ≡ Result.ok ((j, c), db')
    → submit services input later db' ≡ Result.ok ((j, false), drawn_after db')
unfolding submit submitted_row pending_row new_job_id ◌>>=◌
submit-submit services input now later db db' j c keyed e =
    elim (Bool-cases (is_castable services input.payload)) [
      | inr refused ↦ cc (rw refused at e)
      | inl castable ↦ rw castable (
          insert_twice (row db.drawn now) (row db'.drawn later) input.idempotency_key
            (submission_hash services filled) now later (drawn_after db) db' j c (rw keyed refl)
            refl (rw keyed refl) (rw castable at e))
    ]
  where
    filled : Submission
    filled = record input { max_attempts = attempts_or input.max_attempts default_max_attempts }

    row : ℕ → ℕ → Row
    row n at_time =
        let id = services.new_uuid n in
        submitted_row id (if str_eq input.root_job_id "" then id else input.root_job_id) filled
          (submission_hash services filled) at_time
