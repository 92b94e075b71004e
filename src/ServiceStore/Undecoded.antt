-- ===== src/ServiceStore/Undecoded.antt =====
-- When `Store.Get` fails.
use dependecy_graph_auditor.Prelude.{
  ◌≡◌, refl, sym, ap, ◌∙◌, ◌⊎◌, inl, inr, String, str_eq, eq_iff, Bool, true, false, ◌&&◌, Option,
  none, some, List, [], ◌∷◌, find_where, select_where, Memᴰ, Memᴰ-select_where, Memᴰ-ordered,
  Memᴰ-of_ordered, Bool-cases, Option-cases,
}
use text.Mathlib.TextPositions.{eq_refl}
use dependecy_graph_auditor.Job.{UpdateResult, Status, Error, is_completed}
use dependecy_graph_auditor.ServiceStore.Tables.{Row, ResultRow, Db, Services, column_is}
use dependecy_graph_auditor.ServiceStore.Transaction.{Result}
use dependecy_graph_auditor.ServiceStore.Statements.{scan_service_job, has_id}
use dependecy_graph_auditor.ServiceStore.Finalize.{is_update_scan}
use dependecy_graph_auditor.ServiceStore.Detail.{
  Detail, result_of, is_update_check, add_result, with_results, add_update, decode_updates,
  update_results_of, get,
}
use dependecy_graph_auditor.ServiceStore.Details.{shown, missing, undecoded, found_detail}

-- A completed update check that the scan with the id has started.
abbrev pub IsUpdateCheck : String → Row → Type 0
IsUpdateCheck id r =
    (r.root_job_id ≡ id)
    × (r.parent_job_id ≡ some id)
    × (r.job_type ≡ "package_update_check")
    × (r.internal ≡ true)
    × (r.status ≡ Status.completed)

-- A scan of which an update check has stored a result that does not decode.
abbrev pub HasUndecoded : (String → Option UpdateResult) → Row → Db → Type 0
HasUndecoded decode row db =
    (row.job_type ≡ "dependency_update_scan")
    × (row.id ≡ row.root_job_id)
    × ((child : Row) × (text : String) × Memᴰ child db.jobs
        × IsUpdateCheck row.id child
        × (result_of child.id db.results ≡ some text)
        × (decode text ≡ none))

completed_status : (s : Status) → is_completed s ≡ true → s ≡ Status.completed
completed_status Status.completed e = refl
completed_status Status.pending e = cc
completed_status Status.running e = cc
completed_status Status.waiting e = cc
completed_status Status.retry_scheduled e = cc
completed_status Status.failed e = cc
completed_status Status.dead_lettered e = cc
completed_status Status.cancelled e = cc

and_true : (a b : Bool) → (a && b) ≡ true → (a ≡ true) × (b ≡ true)
and_true true b e = (refl, e)
and_true false b e = cc

column_text : (o : Option String) (s : String) → column_is o s ≡ true → o ≡ some s
column_text none s e = cc
column_text (some t) s e = ap some ((eq_iff t s).0 e)

is_update_check-IsUpdateCheck :
    (id : String) (r : Row) → is_update_check id r ≡ true → IsUpdateCheck id r
unfolding is_update_check
is_update_check-IsUpdateCheck id r e =
    let (first, status) = and_true _ _ e in
    let (first, internal) = and_true _ _ first in
    let (first, job_type) = and_true _ _ first in
    let (root, parent) = and_true _ _ first in
    (
      (eq_iff r.root_job_id id).0 root,
      column_text r.parent_job_id id parent,
      (eq_iff r.job_type "package_update_check").0 job_type,
      internal,
      completed_status r.status status,
    )

IsUpdateCheck-is_update_check :
    (id : String) (r : Row) → IsUpdateCheck id r → is_update_check id r ≡ true
unfolding is_update_check
IsUpdateCheck-is_update_check id r (root, parent, job_type, internal, status) =
    rw (root, parent, job_type, internal, status, eq_refl id) refl

select_where-Memᴰ :
    {A : Type 0} (p : A → Bool) (x : A) (xs : List A)
    → Memᴰ x xs
    → p x ≡ true
    → Memᴰ x (select_where p xs)
select_where-Memᴰ p x [] m e = elim m [ ]
select_where-Memᴰ p x (y ∷ xs) (Memᴰ.head same) e = rw (ap p (sym same) ∙ e) (Memᴰ.head same)
select_where-Memᴰ p x (y ∷ xs) (Memᴰ.tail m) e =
    let rest = select_where-Memᴰ p x xs m e in
    elim (Bool-cases (p y)) [ inl k ↦ rw k (Memᴰ.tail rest) | inr k ↦ rw k rest ]

head_or_tail : {A : Type 0} (x y : A) (xs : List A) → Memᴰ x (y ∷ xs) → (x ≡ y) ⊎ Memᴰ x xs
head_or_tail x y xs (Memᴰ.head same) = inl same
head_or_tail x y xs (Memᴰ.tail m) = inr m

-- What the join adds for a row is its id with its result.
added_result :
    (p : String × String) (r : Row) (o : Option String) (rest : List (String × String))
    → Memᴰ p (add_result r o rest)
    → (o ≡ some p.1) ⊎ Memᴰ p rest
unfolding add_result
added_result p r none rest m = inr m
added_result p r (some text) rest m = elim (head_or_tail p (r.id, text) rest m) [
  | inl same ↦ inl (ap (λ q. some q.1) (sym same))
  | inr later ↦ inr later
]

module _ (results : List ResultRow) where
  with_results-Memᴰ :
      (p : String × String) (rows : List Row)
      → Memᴰ p (with_results results rows)
      → (r : Row) × Memᴰ r rows × (result_of r.id results ≡ some p.1)
  unfolding with_results
  with_results-Memᴰ p [] m = elim m [ ]
  with_results-Memᴰ p (r ∷ rows) m =
      elim (added_result p r (result_of r.id results) (with_results results rows) m) [
        | inl found ↦ (r, Memᴰ.head refl, found)
        | inr later ↦
            let (s, inside, k) = with_results-Memᴰ p rows later in (s, Memᴰ.tail inside, k)
      ]

  Memᴰ-with_results :
      (r : Row) (text : String) (rows : List Row)
      → Memᴰ r rows
      → result_of r.id results ≡ some text
      → Memᴰ (r.id, text) (with_results results rows)
  unfolding with_results add_result
  Memᴰ-with_results r text [] m e = elim m [ ]
  Memᴰ-with_results r text (s ∷ rows) (Memᴰ.head same) e =
      let found = ap (λ t. result_of t.id results) (sym same) ∙ e in
      rw found (Memᴰ.head (ap (λ t. (t.id, text)) same))
  Memᴰ-with_results r text (s ∷ rows) (Memᴰ.tail m) e =
      let rest = Memᴰ-with_results r text rows m e in
      elim (Option-cases (result_of s.id results)) [
        | inl k ↦ rw k rest
        | inr (other, k) ↦ rw k (Memᴰ.tail rest)
      ]

module _ (decode : String → Option UpdateResult) where
  decode_updates_bad :
      (xs : List (String × String))
      → decode_updates decode xs ≡ none
      → (p : String × String) × Memᴰ p xs × (decode p.1 ≡ none)
  unfolding decode_updates add_update
  decode_updates_bad [] e = cc
  decode_updates_bad ((id, text) ∷ xs) e = elim (Option-cases (decode text)) [
    | inl bad ↦ ((id, text), Memᴰ.head refl, bad)
    | inr (update, good) ↦ elim (Option-cases (decode_updates decode xs)) [
      | inl later ↦ let (p, inside, bad) = decode_updates_bad xs later in (p, Memᴰ.tail inside, bad)
      | inr (updates, fine) ↦ cc (rw (good, fine) at e)
    ]
  ]

  bad_decode_updates :
      (p : String × String) (xs : List (String × String))
      → Memᴰ p xs
      → decode p.1 ≡ none
      → decode_updates decode xs ≡ none
  unfolding decode_updates add_update
  bad_decode_updates p [] m bad = elim m [ ]
  bad_decode_updates p ((id, text) ∷ xs) (Memᴰ.head same) bad =
      let first : decode text ≡ none = ap (λ q. decode q.1) (sym same) ∙ bad in rw first refl
  bad_decode_updates p ((id, text) ∷ xs) (Memᴰ.tail m) bad =
      let rest = bad_decode_updates p xs m bad in
      elim (Option-cases (decode text)) [ inl k ↦ rw k refl | inr (update, k) ↦ rw (k, rest) refl ]

module _ (services : Services) (decode : String → Option UpdateResult) (row : Row) (db : Db) where
  abbrev by_id : Row → Row → Bool
  by_id a b = services.text_lt a.id b.id

  update_results_bad : update_results_of services decode row db ≡ none → HasUndecoded decode row db
  unfolding update_results_of
  update_results_bad e =
      elim (Bool-cases (is_update_scan row.job_type && str_eq row.id row.root_job_id)) [
        | inr other ↦ cc (rw other at e)
        | inl scan ↦
            let (job_type, root) = and_true _ _ scan in
            let (p, inside, bad) = decode_updates_bad decode _ (rw scan at e) in
            let (child, listed, text) = with_results-Memᴰ db.results p _ inside in
            let (member, fits) =
              Memᴰ-select_where (is_update_check row.id) db.jobs
                (Memᴰ-of_ordered by_id child _ listed) in
            (
              (eq_iff row.job_type "dependency_update_scan").0 job_type,
              (eq_iff row.id row.root_job_id).0 root,
              (child, p.1, member, is_update_check-IsUpdateCheck row.id child fits, text, bad),
            )
      ]

  bad_update_results : HasUndecoded decode row db → update_results_of services decode row db ≡ none
  unfolding update_results_of
  bad_update_results (job_type, root, (child, text, member, check, stored, bad)) =
      let scan : (is_update_scan row.job_type && str_eq row.id row.root_job_id) ≡ true =
        rw (job_type, (eq_iff row.id row.root_job_id).1 root) refl in
      let listed = Memᴰ-ordered by_id child _ (
        select_where-Memᴰ (is_update_check row.id) child db.jobs member
          (IsUpdateCheck-is_update_check row.id child check)) in
      rw scan (
        bad_decode_updates decode (child.id, text) _
          (Memᴰ-with_results db.results child text _ listed stored) bad)

-- Where no job has the id, `get` fails as not found. Where the job is an update scan of which a
-- completed update check has stored a result that does not decode, it fails as undecoded; and where
-- there is no such result it answers the detail of the job. None of this changes the tables.
pub get-errors :
    (services : Services) (decode : String → Option UpdateResult) (id : String) (db : Db)
    → ((find_where (has_id id) db.jobs ≡ none)
        × (get services decode id db ≡ Result.err Error.not_found))
      ⊎ ((row : Row) × (find_where (has_id id) db.jobs ≡ some row)
          × ((HasUndecoded decode row db × (get services decode id db ≡ Result.err Error.unparsed))
              ⊎ ((¬ HasUndecoded decode row db)
                  × ((detail : Detail) × (get services decode id db ≡ Result.ok (detail, db))
                      × (detail.job ≡ scan_service_job row)))))
unfolding shown
get-errors services decode id db = elim (Option-cases (find_where (has_id id) db.jobs)) [
  | inl absent ↦ inl (absent, missing services decode id db absent)
  | inr (row, found) ↦ elim (Option-cases (update_results_of services decode row db)) [
    | inl bad ↦ inr (
      row,
      found,
      inl (
        update_results_bad services decode row db bad,
        undecoded services decode id db row found bad,
      ),
    )
    | inr (updates, good) ↦
        let answer = found_detail services decode id db row updates found good in
        inr (
          row,
          found,
          inr (
            λ some_bad. cc (bad_update_results services decode row db some_bad, good),
            (shown services id db row updates, answer, refl),
          ),
        )
  ]
]
