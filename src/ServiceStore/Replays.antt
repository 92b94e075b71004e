-- ===== src/ServiceStore/Replays.antt =====
-- A dead letter that was replayed is not replayed again right afterwards.
use dependecy_graph_auditor.Prelude.{
  find_kept, find_member, Memᴰ-update_where, ℕ, ◌≡◌, refl, ◌∙◌, ap, ◌⊎◌, inl, inr, String, str_eq,
  Bool, true, false, ◌&&◌, ◌==◌, Option, none, some, List, [], ◌∷◌, ◌++◌, find_where, update_where,
  is_some, if◌then◌else◌, All, All-intro, All-update_turn, All-Memᴰ, Memᴰ, Memᴰ-find_where, arith,
}
use dependecy_graph_auditor.Job.{Job, Error, default_max_attempts}
use dependecy_graph_auditor.ServiceStore.Tables.{
  Row, Db, DlqRow, EventType, EventDetails, Services, coalesce,
}
use dependecy_graph_auditor.ServiceStore.Transaction.{
  Result, Tx, ◌>>=◌, ◌>>◌, or_fail, done, fail_with, query, statement,
}
use dependecy_graph_auditor.ServiceStore.Statements.{
  scan_service_job, has_id, key_taken, inserted, insert_job, select_job, insert_event, new_job_id,
  attempts_or, pending_row,
}
use dependecy_graph_auditor.ServiceStore.Operate.{
  is_public, replay_row, public_entry, mark_replayed, replay, replay_dlq,
}
use dependecy_graph_auditor.ServiceStore.Claiming.{drawn_after}
use dependecy_graph_auditor.ServiceStore.Keeps.{bind_ok}

-- The entry as `mark_replayed` changes it.
abbrev marked : String → ℕ → DlqRow → DlqRow
marked id now d = record d { replayed_at = some now; replayed_as_job_id = some id }

insert_unkeyed_ok :
    (r : Row) (db db' : Db) (b : Bool)
    → r.idempotency_key ≡ none
    → insert_job r db ≡ Result.ok (b, db')
    → db' ≡ record db { jobs = db.jobs ++ r ∷ [] }
unfolding insert_job inserted
insert_unkeyed_ok r db db' b k e =
    go r.idempotency_key (is_some (find_where (has_id r.id) db.jobs)) k e
  where
    go :
        (key : Option String) (clash : Bool)
        → key ≡ none
        → inserted r (key_taken key db.jobs) clash db ≡ Result.ok (b, db')
        → db' ≡ record db { jobs = db.jobs ++ r ∷ [] }
    go (some key) clash q h = cc
    go none true q h = cc
    go none false q h = ground arith

-- The statements of `replay` after its INSERT of the job.
abbrev replay_rest : DlqRow → String → ℕ → Tx Job
replay_rest source id now = do
  mark_replayed source.id id now
  insert_event id EventType.submitted none none EventDetails.empty now
  insert_event id EventType.replayed none none (EventDetails.source_details source.job_id) now
  found ← select_job id
  row ← or_fail found Error.database
  done (scan_service_job row)

replay_rest_ok :
    (source : DlqRow) (id : String) (now : ℕ) (db db' : Db) (j : Job)
    → replay_rest source id now db ≡ Result.ok (j, db')
    → (db'.jobs ≡ db.jobs)
      × (db'.dlq ≡ update_where (λ (d : DlqRow). d.id == source.id) (marked id now) db.dlq)
unfolding mark_replayed insert_event select_job statement query or_fail done ◌>>=◌
replay_rest_ok source id now db db' j e = ground arith

replay_ok :
    (services : Services) (source : DlqRow) (limit now : ℕ) (db db' : Db) (j : Job)
    → replay services source limit now db ≡ Result.ok (j, db')
    → (db'.dlq
        ≡ update_where
            (λ (d : DlqRow). d.id == source.id)
            (marked (services.new_uuid db.drawn) now)
            db.dlq)
      × ((row : Row) × (db'.jobs ≡ db.jobs ++ row ∷ []))
unfolding replay new_job_id replay_row pending_row ◌>>=◌
replay_ok services source limit now db db' j e =
    let id = services.new_uuid db.drawn in
    let row = replay_row id source (attempts_or limit default_max_attempts) now in
    let (b, mid, first, rest) =
      bind_ok (insert_job row) (λ _. replay_rest source id now) (drawn_after db) db' j e in
    let put = insert_unkeyed_ok row (drawn_after db) mid b refl first in
    let (jobs, dlq) = replay_rest_ok source id now mid db' j rest in
    (
      dlq ∙ ap (λ t. update_where (λ (d : DlqRow). d.id == source.id) (marked id now) t.dlq) put,
      (row, jobs ∙ ap (λ t. t.jobs) put),
    )

-- The search of `public_entry`, over the two tables.
abbrev is_entry : ℕ → List Row → DlqRow → Bool
is_entry entry jobs d = d.id == entry && is_public (find_where (has_id d.job_id) jobs)

still_entry :
    (entry : ℕ) (jobs more : List Row) (d : DlqRow)
    → is_entry entry jobs d ≡ true
    → is_entry entry (jobs ++ more) d ≡ true
still_entry entry jobs more d e = go (find_where (has_id d.job_id) jobs) refl
  where
    go :
        (o : Option Row)
        → find_where (has_id d.job_id) jobs ≡ o
        → is_entry entry (jobs ++ more) d ≡ true
    go none q = ground (arith, rw q at e)
    go (some r) q = rw (find_kept (has_id d.job_id) jobs more r q) (rw q at e)

replay_dlq_ok :
    (services : Services) (entry limit now : ℕ) (db db' : Db) (j : Job)
    → replay_dlq services entry limit now db ≡ Result.ok (j, db')
    → (source : DlqRow) × (public_entry entry db ≡ some source)
      × (replay services source limit now db ≡ Result.ok (j, db'))
unfolding replay_dlq query or_fail fail_with ◌>>=◌
replay_dlq_ok services entry limit now db db' j e = go (public_entry entry db) e
  where
    first_try :
        (b : Bool) (m : Tx Job)
        → (if b then m else fail_with Error.conflict) db ≡ Result.ok (j, db')
        → m db ≡ Result.ok (j, db')
    first_try true m q = q
    first_try false m q = cc

    go :
        (o : Option DlqRow)
        → (or_fail o Error.not_found >>= λ source.
              if str_eq (coalesce source.replayed_as_job_id) ""
              then replay services source limit now
              else fail_with Error.conflict)
            db
          ≡ Result.ok (j, db')
        → (source : DlqRow) × (o ≡ some source)
          × (replay services source limit now db ≡ Result.ok (j, db'))
    go none q = cc
    go (some source) q =
        (source, refl, first_try (str_eq (coalesce source.replayed_as_job_id) "") _ q)

-- An entry that was replayed.
replayed_conflict :
    (services : Services) (entry limit now : ℕ) (db : Db) (source : DlqRow) (id : String)
    → public_entry entry db ≡ some source
    → source.replayed_as_job_id ≡ some id
    → str_eq id "" ≡ false
    → replay_dlq services entry limit now db ≡ Result.err Error.conflict
unfolding replay_dlq query or_fail done fail_with ◌>>=◌
replayed_conflict services entry limit now db source id found was present =
    rw (found, was, present) refl

-- Each row with the id of an entry that was marked shows the new job.
All-marked :
    (entry : ℕ) (id : String) (now : ℕ) (rows : List DlqRow)
    → All
        (λ (d : DlqRow). ((d.id == entry) ≡ false) ⊎ (d.replayed_as_job_id ≡ some id))
        (update_where (λ (d : DlqRow). d.id == entry) (marked id now) rows)
All-marked entry id now rows =
    All-update_turn (λ (d : DlqRow). Unit {0}) _ (λ (d : DlqRow). d.id == entry) (marked id now)
      rows (λ d k hit. inr refl) (λ d k miss. inl miss) (All-intro _ rows (λ d. tt))

is_marked :
    (entry : ℕ) (jobs : List Row) (id : String) (d : DlqRow)
    → is_entry entry jobs d ≡ true
    → ((d.id == entry) ≡ false) ⊎ (d.replayed_as_job_id ≡ some id)
    → d.replayed_as_job_id ≡ some id
is_marked entry jobs id d e (inl miss) = ground arith
is_marked entry jobs id d e (inr same) = same

-- What the search finds once `source` was marked, and a job added.
finds_marked :
    (entry : ℕ) (id : String) (now : ℕ) (jobs more : List Row) (dlq : List DlqRow) (source : DlqRow)
    → Memᴰ source dlq
    → is_entry entry jobs source ≡ true
    → (d : DlqRow) × (find_where
          (is_entry entry (jobs ++ more))
          (update_where (λ (d : DlqRow). d.id == entry) (marked id now) dlq)
        ≡ some d)
      × (d.replayed_as_job_id ≡ some id)
finds_marked entry id now jobs more dlq source inside fits = go (find_where test after_mark) refl
  where
    test : DlqRow → Bool
    test = is_entry entry (jobs ++ more)

    after_mark : List DlqRow
    after_mark = update_where (λ (d : DlqRow). d.id == entry) (marked id now) dlq

    there : is_some (find_where test after_mark) ≡ true
    there =
        find_member test after_mark
          (Memᴰ-update_where (λ (d : DlqRow). d.id == entry) (marked id now) dlq inside
            (ground arith))
          (still_entry entry jobs more source fits)

    go :
        (o : Option DlqRow)
        → find_where test after_mark ≡ o
        → (d : DlqRow) × (find_where test after_mark ≡ some d) × (d.replayed_as_job_id ≡ some id)
    go none q = cc (rw q at there)
    go (some d) q =
        let (m, e) = Memᴰ-find_where test after_mark d q in
        (
          d,
          q,
          is_marked entry (jobs ++ more) id d e
              (All-Memᴰ _ after_mark (All-marked entry id now dlq) m),
        )

-- After an entry of the dead-letter queue has been replayed, a replay of it that is made next is
-- refused with ErrConflict, at any time and with any limit.
pub replay_dlq-replay_dlq :
    (services : Services) (entry limit now limit' later : ℕ) (db db' : Db) (j : Job)
    → replay_dlq services entry limit now db ≡ Result.ok (j, db')
    → replay_dlq services entry limit' later db' ≡ Result.err Error.conflict
unfolding public_entry
replay_dlq-replay_dlq services entry limit now limit' later db db' j e =
    let (source, found, rest) = replay_dlq_ok services entry limit now db db' j e in
    let (dlq, (row, jobs)) = replay_ok services source limit now db db' j rest in
    let (inside, fits) = Memᴰ-find_where (is_entry entry db.jobs) db.dlq source found in
    let same : source.id ≡ entry = ground arith in
    let (d, again, was) =
      finds_marked entry (services.new_uuid db.drawn) now db.jobs (row ∷ []) db.dlq source inside
        fits in
    replayed_conflict services entry limit' later db' d (services.new_uuid db.drawn)
      (rw (jobs, dlq, same) again) was (services.uuid_present db.drawn)
