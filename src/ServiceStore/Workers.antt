-- ===== src/ServiceStore/Workers.antt =====
-- `Store.RegisterWorker` and `Store.WorkerHeartbeat`.
use dependecy_graph_auditor.Prelude.{
  ℕ, ◌≤◌, ◌≡◌, refl, sym, ap, ◌∙◌, Option-cases, inl, inr, String, str_eq, Bool, true, not, List,
  [], ◌∷◌, ◌++◌, map, length, suc, none, some, is_some, if◌then◌else◌, find_where, update_where,
  select_where, Bool-cases, arith, eq_iff,
}
use mathlib.Core.Option.{some-injective}
use mathlib.Core.List.{append-nil}
use text.Mathlib.TextPositions.{eq_refl}
use dependecy_graph_auditor.ServiceStore.Tables.{WorkerRow, Db}
use dependecy_graph_auditor.ServiceStore.Transaction.{Result, Tx, ◌>>=◌, proceed, statement}

abbrev pub is_worker : String → WorkerRow → Bool
is_worker id r = str_eq r.id id

abbrev beaten : ℕ → WorkerRow → WorkerRow
beaten now r = record r { heartbeat_at = now }

abbrev restarted : ℕ → WorkerRow → WorkerRow
restarted now r = record r { started_at = now; heartbeat_at = now }

unfoldable pub registered : String → ℕ → List WorkerRow → List WorkerRow
registered id now rows =
    if is_some (find_where (is_worker id) rows)
    then update_where (is_worker id) (restarted now) rows
    else rows ++ record { id = id; started_at = now; heartbeat_at = now } ∷ []

-- INSERT … ON CONFLICT (id) DO UPDATE.
unfoldable pub register_worker : String → ℕ → Tx (Unit {0})
unfolding registered statement
register_worker id now = statement (λ db. record db { workers = registered id now db.workers })

unfoldable pub worker_heartbeat : String → ℕ → Tx (Unit {0})
unfolding statement
worker_heartbeat id now =
    statement λ db. record db { workers = update_where (is_worker id) (beaten now) db.workers }

module _ {A : Type 0} (p : A → Bool) where
  select-update_where :
      (f : A → A) (xs : List A)
      → ((x : A) → p (f x) ≡ p x)
      → select_where p (update_where p f xs) ≡ map f (select_where p xs)
  select-update_where f [] keeps = refl
  select-update_where f (x ∷ xs) keeps =
      let rest = select-update_where f xs keeps in
      elim (Bool-cases (p x)) [
        | inl e ↦ rw (e, keeps x, e) (ap (λ ys. f x ∷ ys) rest)
        | inr e ↦ rw (e, e) rest
      ]

  others-update_where :
      (f : A → A) (xs : List A)
      → ((x : A) → p (f x) ≡ p x)
      → select_where (λ x. not (p x)) (update_where p f xs) ≡ select_where (λ x. not (p x)) xs
  others-update_where f [] keeps = refl
  others-update_where f (x ∷ xs) keeps =
      let rest = others-update_where f xs keeps in
      elim (Bool-cases (p x)) [
        | inl e ↦ rw (e, keeps x, e) rest
        | inr e ↦ rw (e, e) (ap (λ ys. x ∷ ys) rest)
      ]

  select-append :
      (q : A → Bool) (xs ys : List A)
      → select_where q (xs ++ ys) ≡ select_where q xs ++ select_where q ys
  select-append q [] ys = refl
  select-append q (x ∷ xs) ys = elim (Bool-cases (q x)) [
    | inl e ↦ rw e (ap (λ zs. x ∷ zs) (select-append q xs ys))
    | inr e ↦ rw e (select-append q xs ys)
  ]

  -- Where at most one row passes, the rows that pass are the first one found, or none.
  select_single :
      (xs : List A) (x : A)
      → length (select_where p xs) ≤ 1
      → find_where p xs ≡ some x
      → (select_where p xs ≡ x ∷ []) × (p x ≡ true)
  select_single [] x one e = cc
  select_single (y ∷ xs) x one e = elim (Bool-cases (p y)) [
    | inr miss ↦
        let (all, hit) = select_single xs x (rw miss at one) (rw miss at e) in (rw miss all, hit)
    | inl hit ↦
        let same : y ≡ x = some-injective _ _ (rw hit at e) in
        let none_left = nothing_of_length (select_where p xs) (rw hit at one) in
        (rw (hit, none_left, same) refl, sym (ap p same) ∙ hit)
  ]
    where
      nothing_of_length : (ys : List A) → suc (length ys) ≤ 1 → ys ≡ []
      nothing_of_length [] h = refl
      nothing_of_length (y ∷ ys) h = absurd (omega arith)

  select_none : (xs : List A) → find_where p xs ≡ none → select_where p xs ≡ []
  select_none [] e = refl
  select_none (x ∷ xs) e = elim (Bool-cases (p x)) [
    | inr miss ↦ rw miss (select_none xs (rw miss at e))
    | inl hit ↦ cc (rw hit at e)
  ]

-- Registering a worker leaves one row of its id, with the time of the call, and no other row changed.
registered-select :
    (id : String) (now : ℕ) (rows : List WorkerRow)
    → length (select_where (is_worker id) rows) ≤ 1
    → (select_where (is_worker id) (registered id now rows)
        ≡ record { id = id; started_at = now; heartbeat_at = now } ∷ [])
      × (select_where (λ r. not (is_worker id r)) (registered id now rows)
          ≡ select_where (λ r. not (is_worker id r)) rows)
unfolding registered
registered-select id now rows one = elim (Option-cases (find_where (is_worker id) rows)) [
  | inl e ↦
      let fresh : str_eq id id ≡ true = eq_refl id in
      (
        rw (e, select-append (is_worker id) (is_worker id) rows _, select_none _ rows e, fresh)
            refl,
        rw (e, select-append (is_worker id) (λ r. not (is_worker id r)) rows _, fresh)
            (append-nil _),
      )
  | inr (r, e) ↦
      let (single, hit) = select_single (is_worker id) rows r one e in
      let same : r.id ≡ id = (eq_iff r.id id).0 hit in
      (
        rw (e, select-update_where (is_worker id) (restarted now) rows (λ x. refl), single, same)
            refl,
        rw e (others-update_where (is_worker id) (restarted now) rows (λ x. refl)),
      )
]

-- Where the table has at most one row of an id, as its primary key demands, registering a worker of
-- this id and a heartbeat of it leave exactly one row of it, which carries the time of the
-- registration as its start and the time of the heartbeat, and all rows of other workers stay as
-- they are. Both calls succeed, whether the worker was registered before or not.
pub register_worker-worker_heartbeat :
    (id : String) (now later : ℕ) (db : Db)
    → length (select_where (is_worker id) db.workers) ≤ 1
    → (ws : List WorkerRow) × ((register_worker id now >>= λ _. worker_heartbeat id later) db
        ≡ Result.ok (tt, record db { workers = ws }))
      × (select_where (is_worker id) ws
          ≡ record { id = id; started_at = now; heartbeat_at = later } ∷ [])
      × (select_where (λ r. not (is_worker id r)) ws
          ≡ select_where (λ r. not (is_worker id r)) db.workers)
unfolding register_worker worker_heartbeat statement ◌>>=◌ proceed
register_worker-worker_heartbeat id now later db one =
    let rows = registered id now db.workers in
    let (single, others) = registered-select id now db.workers one in
    (
      update_where (is_worker id) (beaten later) rows,
      refl,
      select-update_where (is_worker id) (beaten later) rows (λ r. refl)
          ∙ ap (map (beaten later)) single,
      others-update_where (is_worker id) (beaten later) rows (λ r. refl) ∙ others,
    )
