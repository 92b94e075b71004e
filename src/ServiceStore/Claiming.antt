-- ===== src/ServiceStore/Claiming.antt =====
-- What `Claim` does when it succeeds: it takes the first eligible row, or there is none.
use dependecy_graph_auditor.Prelude.{
  ℕ, suc, ◌≡◌, refl, subst, ◌⊎◌, inl, inr, String, Bool, Option, none, some, List, [], ◌∷◌,
  find_where, select_where, update_where, Memᴰ, Bool-cases, arith,
}
use dependecy_graph_auditor.Job.{Job, Error}
use dependecy_graph_auditor.ServiceStore.Tables.{Row, Db, Services}
use dependecy_graph_auditor.ServiceStore.Transaction.{Result, Tx, ◌>>=◌, or_fail}
use dependecy_graph_auditor.ServiceStore.Statements.{
  scan_service_job, has_id, select_job, update_jobs, insert_event, new_job_id,
}
use dependecy_graph_auditor.ServiceStore.Claim.{
  eligible, claim_before, pick, first_claimable, claimed, insert_attempt, record_start, take,
  take_next, claim,
}

module _ (services : Services) where
  Memᴰ-pick :
      (r : Row) (rows : List Row) (o : Option Row)
      → ((s : Row) → o ≡ some s → Memᴰ s rows)
      → Memᴰ (pick services r o) (r ∷ rows)
  unfolding pick
  Memᴰ-pick r rows none inside = Memᴰ.head refl
  Memᴰ-pick r rows (some s) inside = elim (Bool-cases (claim_before services s r)) [
    | inl before ↦ rw before (Memᴰ.tail (inside s refl))
    | inr later ↦ rw later (Memᴰ.head refl)
  ]

  pub Memᴰ-first_claimable :
      (rows : List Row) (x : Row) → first_claimable services rows ≡ some x → Memᴰ x rows
  unfolding first_claimable
  Memᴰ-first_claimable [] x e = cc
  Memᴰ-first_claimable (r ∷ rows) x e =
      let same : pick services r (first_claimable services rows) ≡ x = ground arith in
      subst (λ y. Memᴰ y (r ∷ rows)) same
        (Memᴰ-pick r rows (first_claimable services rows) (λ s q. Memᴰ-first_claimable rows s q))

-- After its UPDATE a claim leaves the table of jobs alone.
record_start_ok :
    (row : Row) (worker token : String) (now : ℕ) (db db' : Db) (o : Option Job)
    → record_start row worker token now db ≡ Result.ok (o, db')
    → (db'.jobs ≡ db.jobs) × (db'.drawn ≡ db.drawn) × (o ≡ some (scan_service_job row))
unfolding record_start insert_attempt insert_event ◌>>=◌
record_start_ok row worker token now db db' o e = ground arith

found_ok :
    {A : Type 0} (f : Option Row) (x : Error) (k : Row → Tx A) (db db' : Db) (a : A)
    → (or_fail f x >>= k) db ≡ Result.ok (a, db')
    → (row : Row) × (f ≡ some row) × (k row db ≡ Result.ok (a, db'))
unfolding or_fail ◌>>=◌
found_ok none x k db db' a e = cc
found_ok (some row) x k db db' a e = (row, refl, e)

-- What a claim of `next` leaves.
pub record Taken (next : Row) (worker token : String) (lease now : ℕ) (db db' : Db) (o : Option Job)
    : Type 0 where
  pub row : Row
  pub found :
      find_where
        (has_id next.id)
        (update_where (has_id next.id) (claimed worker token lease now) db.jobs)
      ≡ some row
  pub rows : db'.jobs ≡ update_where (has_id next.id) (claimed worker token lease now) db.jobs
  pub drawn_same : db'.drawn ≡ db.drawn
  pub value : o ≡ some (scan_service_job row)

pub take_ok :
    (next : Row) (worker token : String) (lease now : ℕ) (db db' : Db) (o : Option Job)
    → take next worker token lease now db ≡ Result.ok (o, db')
    → Taken next worker token lease now db db' o
unfolding take select_job update_jobs ◌>>=◌
take_ok next worker token lease now db db' o e =
    let updated : List Row =
      update_where (has_id next.id) (claimed worker token lease now) db.jobs in
    let (row, found, rest) =
      found_ok (find_where (has_id next.id) updated) Error.database
        (λ r. record_start r worker token now) (record db { jobs = updated }) db' o e in
    let (same, drawn, value) =
      record_start_ok row worker token now (record db { jobs = updated }) db' o rest in
    record { row = row; found = found; rows = same; drawn_same = drawn; value = value }

-- The store after a claim has drawn its token.
abbrev pub drawn_after : Db → Db
drawn_after db = record db { drawn = suc db.drawn }

-- The rows that a claim can take.
abbrev pub candidates : (String → Bool) → ℕ → Db → List Row
candidates locked now db = select_where (eligible locked now) db.jobs

module _ (services : Services) (locked : String → Bool) (worker : String) (lease now : ℕ) where
  take_next_ok :
      (f : Option Row) (token : String) (db db' : Db) (o : Option Job)
      → take_next f worker token lease now db ≡ Result.ok (o, db')
      → ((f ≡ none) × (o ≡ none) × (db ≡ db'))
        ⊎ ((next : Row) × (f ≡ some next) × Taken next worker token lease now db db' o)
  unfolding take_next
  take_next_ok none token db db' o e = inl (refl, ground arith, ground arith)
  take_next_ok (some next) token db db' o e =
      inr (next, refl, take_ok next worker token lease now db db' o e)

  pub claim_ok :
      (db db' : Db) (o : Option Job)
      → claim services locked worker lease now db ≡ Result.ok (o, db')
      → ((first_claimable services (candidates locked now db) ≡ none)
          × (o ≡ none)
          × (drawn_after db ≡ db'))
        ⊎ ((next : Row) × (first_claimable services (candidates locked now db) ≡ some next)
            × Taken next worker (services.new_uuid db.drawn) lease now (drawn_after db) db' o)
  unfolding claim new_job_id ◌>>=◌
  claim_ok db db' o e =
      take_next_ok (first_claimable services (candidates locked now db))
        (services.new_uuid db.drawn) (drawn_after db) db' o e
