-- ===== src/ServiceStore/Keeps.antt =====
-- Transactions that keep a property of the table of jobs, one rule for each way to build one.
use dependecy_graph_auditor.Prelude.{
  ℕ, suc, ◌≡◌, refl, sym, subst₂, String, Bool, true, false, Option, none, some, [], ◌∷◌, subst,
  List, ◌++◌, is_some, find_where, update_where, if◌then◌else◌, arith,
}
use dependecy_graph_auditor.Job.{Error}
use dependecy_graph_auditor.ServiceStore.Tables.{Row, EventType, EventDetails, DlqRow, Db, Services}
use dependecy_graph_auditor.ServiceStore.Transaction.{
  Result, Tx, ◌>>=◌, proceed, done, fail_with, query, statement, or_fail, when,
}
use dependecy_graph_auditor.ServiceStore.Statements.{
  has_id, inserted, insert_job, select_job, update_jobs, insert_event, insert_dlq, new_job_id,
}

-- `m` keeps `P`, in which the count of drawn UUIDs may stand.
pub record Keeps (P : ℕ → List Row → Type 0) {A : Type 0} (m : Tx A) : Type 0 where
  pub at :
      (db db' : Db) (a : A) → m db ≡ Result.ok (a, db') → P db.drawn db.jobs → P db'.drawn db'.jobs

-- `m` leads from `P` to `Q`.
pub record Turns (P Q : ℕ → List Row → Type 0) {A : Type 0} (m : Tx A) : Type 0 where
  pub at :
      (db db' : Db) (a : A) → m db ≡ Result.ok (a, db') → P db.drawn db.jobs → Q db'.drawn db'.jobs

proceed_ok :
    {A B : Type 0} (r : Result (A × Db)) (f : A → Tx B) (b : B) (db' : Db)
    → proceed r f ≡ Result.ok (b, db')
    → (a : A) × (mid : Db) × (r ≡ Result.ok (a, mid)) × (f a mid ≡ Result.ok (b, db'))
unfolding proceed
proceed_ok (Result.ok (a, mid)) f b db' e = (a, mid, refl, e)
proceed_ok (Result.err x) f b db' e = cc

-- Inversion of a chain that succeeds.
pub bind_ok :
    {A B : Type 0} (m : Tx A) (f : A → Tx B) (db db' : Db) (b : B)
    → (m >>= f) db ≡ Result.ok (b, db')
    → (a : A) × (mid : Db) × (m db ≡ Result.ok (a, mid)) × (f a mid ≡ Result.ok (b, db'))
unfolding ◌>>=◌
bind_ok m f db db' b e = proceed_ok (m db) f b db' e

module _ (P : ℕ → List Row → Type 0) where
  -- The tables of a result that is known.
  arrive :
      {A : Type 0} (mid db' : Db) (a b : A)
      → ◌≡◌ {A = Result (A × Db)} (Result.ok (a, mid)) (Result.ok (b, db'))
      → P mid.drawn mid.jobs
      → P db'.drawn db'.jobs
  arrive mid db' a b e h =
      let same : mid ≡ db' = ground arith in subst (λ d. P d.drawn d.jobs) same h

module _ {P : ℕ → List Row → Type 0} where
  -- A transaction that leaves the table of jobs, and the count of UUIDs, as they are.
  pub Keeps_unchanged :
      {A : Type 0} (m : Tx A)
      → ((db db' : Db) (a : A)
          → m db ≡ Result.ok (a, db')
          → (db'.jobs ≡ db.jobs) × (db'.drawn ≡ db.drawn))
      → Keeps P m
  Keeps_unchanged m same = record {
    at = λ db db' a e h. let (jobs, drawn) = same db db' a e in subst₂ P (sym drawn) (sym jobs) h;
  }

  pub Keeps-bind :
      {A B : Type 0} (m : Tx A) (f : A → Tx B)
      → Keeps P m
      → ((a : A) → Keeps P (f a))
      → Keeps P (m >>= f)
  Keeps-bind m f km kf = record {
    at = λ db db' b e h.
        let (a, mid, first, rest) = bind_ok m f db db' b e in
        (kf a).at mid db' b rest (km.at db mid a first h);
  }

  pub Keeps-done : {A : Type 0} (a : A) → Keeps P (done a)
  unfolding done
  Keeps-done a = Keeps_unchanged (done a) (λ db db' b e. ground arith)

  pub Keeps-fail_with : {A : Type 0} (x : Error) → Keeps P (fail_with {A = A} x)
  unfolding fail_with
  Keeps-fail_with x = Keeps_unchanged (fail_with x) (λ db db' b e. cc)

  pub Keeps-query : {A : Type 0} (f : Db → A) → Keeps P (query f)
  unfolding query
  Keeps-query f = Keeps_unchanged (query f) (λ db db' b e. ground arith)

  pub Keeps-or_fail : {A : Type 0} (o : Option A) (x : Error) → Keeps P (or_fail o x)
  unfolding or_fail
  Keeps-or_fail none x = Keeps-fail_with x
  Keeps-or_fail (some a) x = Keeps-done a

  pub Keeps-when : (b : Bool) (m : Tx (Unit {0})) → (b ≡ true → Keeps P m) → Keeps P (when b m)
  unfolding when
  Keeps-when true m k = k refl
  Keeps-when false m k = Keeps-done tt

  pub Keeps-if :
      {A : Type 0} (b : Bool) (m n : Tx A) → Keeps P m → Keeps P n → Keeps P (if b then m else n)
  Keeps-if true m n km kn = km
  Keeps-if false m n km kn = kn

  pub Keeps-statement :
      (f : Db → Db)
      → ((db : Db) → ((f db).jobs ≡ db.jobs) × ((f db).drawn ≡ db.drawn))
      → Keeps P (statement f)
  unfolding statement
  Keeps-statement f same = Keeps_unchanged (statement f) (λ db db' b e. ground (arith, same db))

  pub Keeps-select_job : (id : String) → Keeps P (select_job id)
  unfolding select_job
  Keeps-select_job id = Keeps-query _

  pub Turns-bind :
      {Q : ℕ → List Row → Type 0} {A B : Type 0} (m : Tx A) (f : A → Tx B)
      → Turns P Q m
      → ((a : A) → Keeps Q (f a))
      → Turns P Q (m >>= f)
  Turns-bind m f km kf = record {
    at = λ db db' b e h.
        let (a, mid, first, rest) = bind_ok m f db db' b e in
        (kf a).at mid db' b rest (km.at db mid a first h);
  }

  pub Keeps-insert_event :
      (id : String) (event_type : EventType) (attempt : Option ℕ) (worker : Option String)
      (details : EventDetails) (now : ℕ)
      → Keeps P (insert_event id event_type attempt worker details now)
  unfolding insert_event
  Keeps-insert_event id event_type attempt worker details now =
      Keeps-statement _ (λ db. (refl, refl))

  pub Keeps-insert_dlq : (entry : ℕ → DlqRow) → Keeps P (insert_dlq entry)
  unfolding insert_dlq
  Keeps-insert_dlq entry = Keeps-statement _ (λ db. (refl, refl))

-- The statements that change the table, for any property of it.
module _ (P : ℕ → List Row → Type 0) where
  pub Keeps-update_jobs :
      (p : Row → Bool) (f : Row → Row)
      → ((n : ℕ) (rows : List Row) → P n rows → P n (update_where p f rows))
      → Keeps P (update_jobs p f)
  unfolding update_jobs
  Keeps-update_jobs p f step = record {
    at = λ db db' a e h. arrive P _ db' _ a e (step db.drawn db.jobs h);
  }

  pub Turns-update_jobs :
      (Q : ℕ → List Row → Type 0) (p : Row → Bool) (f : Row → Row)
      → ((n : ℕ) (rows : List Row) → P n rows → Q n (update_where p f rows))
      → Turns P Q (update_jobs p f)
  unfolding update_jobs
  Turns-update_jobs Q p f step = record {
    at = λ db db' a e h. arrive Q _ db' _ a e (step db.drawn db.jobs h);
  }

  inserted_keeps :
      (r : Row) (taken clash : Bool) (db db' : Db) (a : Bool)
      → (clash ≡ false → P db.drawn db.jobs → P db.drawn (db.jobs ++ r ∷ []))
      → inserted r taken clash db ≡ Result.ok (a, db')
      → P db.drawn db.jobs
      → P db'.drawn db'.jobs
  unfolding inserted
  inserted_keeps r true clash db db' a new e h = arrive P db db' false a e h
  inserted_keeps r false true db db' a new e h = cc
  inserted_keeps r false false db db' a new e h = arrive P _ db' true a e (new refl h)

  pub Keeps-insert_job :
      (r : Row)
      → ((n : ℕ) (rows : List Row)
          → is_some (find_where (has_id r.id) rows) ≡ false
          → P n rows
          → P n (rows ++ r ∷ []))
      → Keeps P (insert_job r)
  unfolding insert_job
  Keeps-insert_job r new = record {
    at = λ db db' a e h. inserted_keeps r _ _ db db' a (new db.drawn db.jobs) e h;
  }

  pub Keeps-new_job_id :
      (services : Services)
      → ((n : ℕ) (rows : List Row) → P n rows → P (suc n) rows)
      → Keeps P (new_job_id services)
  unfolding new_job_id
  Keeps-new_job_id services later = record {
    at = λ db db' a e h. arrive P _ db' _ a e (later db.drawn db.jobs h);
  }

pub ruleset keeps_rules = (
  Keeps-bind, Keeps-done, Keeps-fail_with, Keeps-query, Keeps-or_fail, Keeps-when, Keeps-if,
  Keeps-select_job, Keeps-insert_event, Keeps-insert_dlq,
)
