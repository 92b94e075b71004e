-- ===== src/ServiceStore/Transaction.antt =====
-- Transactions: a chain of statements that changes the tables, or fails and leaves them as they
-- were (`defer tx.Rollback`). A failure of the connection itself is not modelled: it has the effect
-- of a rollback.
use dependecy_graph_auditor.Prelude.{
  ◌≡◌, refl, ap, ◌⊎◌, inl, inr, Bool, true, false, Option, none, some,
}
use dependecy_graph_auditor.Job.{Error}
use dependecy_graph_auditor.ServiceStore.Tables.{Db}

pub data Result {ℓ} (A : Type ℓ) : Type ℓ where
  ok : A → Result A
  err : Error → Result A

abbrev pub Tx : Type 0 → Type 0
Tx A = Db → Result (A × Db)

unfoldable pub done : {A : Type 0} → A → Tx A
done a db = Result.ok (a, db)

unfoldable pub fail_with : {A : Type 0} → Error → Tx A
fail_with e db = Result.err e

-- A query.
unfoldable pub query : {A : Type 0} → (Db → A) → Tx A
query f db = Result.ok (f db, db)

-- A statement that always succeeds.
unfoldable pub statement : (Db → Db) → Tx (Unit {0})
statement f db = Result.ok (tt, f db)

-- The rest of a transaction, after a statement with the given result.
unfoldable pub proceed : {A B : Type 0} → Result (A × Db) → (A → Tx B) → Result (B × Db)
proceed (Result.ok (a, db)) f = f a db
proceed (Result.err e) f = Result.err e

infixl 5 ◌>>=◌ ◌>>◌
unfoldable pub ◌>>=◌ : {A B : Type 0} → Tx A → (A → Tx B) → Tx B
unfolding proceed done fail_with query statement
◌>>=◌ m f db = proceed (m db) f

abbrev pub ◌>>◌ : {B : Type 0} → Tx (Unit {0}) → Tx B → Tx B
m >> k = m >>= λ _. k

-- No row is an error.
unfoldable pub or_fail : {A : Type 0} → Option A → Error → Tx A
unfolding done fail_with
or_fail none e = fail_with e
or_fail (some a) e = done a

unfoldable pub when : Bool → Tx (Unit {0}) → Tx (Unit {0})
unfolding done
when true m = m
when false m = done tt

-- The tables after a transaction: those that it commits, or those before it.
unfoldable pub after : {A : Type 0} → Tx A → Db → Db
after m db = elim (m db) [ Result.ok (a, db') ↦ db' | Result.err e ↦ db ]

pub Result-cases :
    {A : Type 0} (r : Result A) → ((a : A) × (r ≡ Result.ok a)) ⊎ ((x : Error) × (r ≡ Result.err x))
Result-cases (Result.ok a) = inl (a, refl)
Result-cases (Result.err x) = inr (x, refl)

pub ok-injective : {A : Type 0} (a b : A) → Result.ok a ≡ Result.ok b → a ≡ b
ok-injective a b e = ap (λ r. elim r [ Result.ok c ↦ c | Result.err x ↦ a ]) e
