-- ===== src/ServiceStore/Leasing.antt =====
-- A claim leases its row under a token that no row and no worker has, so the values that workers
-- hold stay those of the rows that are leased under their tokens.
use dependecy_graph_auditor.Prelude.{
  ℕ, suc, ◌≡◌, refl, sym, ◌∙◌, ap, subst₂, ◌⊎◌, inl, inr, String, str_eq, eq_iff, Bool, true, false,
  Option, none, some, List, ◌∷◌, find_where, update_where, All, All-imp, All-update_turn, All-Memᴰ,
  Memᴰ, Memᴰ-find_where, Memᴰ-select_where, Bool-cases, arith,
}
use dependecy_graph_auditor.Job.{Job}
use dependecy_graph_auditor.ServiceStore.Tables.{Row, Db, Services, column_is}
use dependecy_graph_auditor.ServiceStore.Transaction.{Result}
use dependecy_graph_auditor.ServiceStore.Statements.{scan_service_job, has_id}
use dependecy_graph_auditor.ServiceStore.Claim.{is_claimable, eligible, claimed, claim}
use dependecy_graph_auditor.ServiceStore.Rows.{
  agrees, IsIssued, HeldIssued, HeldIssued-suc, IsSound, IsSound-suc,
}
use dependecy_graph_auditor.ServiceStore.Identity.{
  DistinctIds, DistinctIds-only, DistinctIds-update_where,
}
use dependecy_graph_auditor.ServiceStore.Invariant.{SoundRows}
use dependecy_graph_auditor.ServiceStore.System.{held_with}
use dependecy_graph_auditor.ServiceStore.Selected.{Known-at}
use dependecy_graph_auditor.ServiceStore.Claiming.{
  Taken, Memᴰ-first_claimable, drawn_after, candidates, claim_ok,
}

-- In a table of distinct ids the row that a claim returns is the row that it chose, as changed.
pub claimed_only :
    (rows : List Row) (next row : Row) (f : Row → Row)
    → DistinctIds rows
    → Memᴰ next rows
    → find_where (has_id next.id) (update_where (has_id next.id) f rows) ≡ some row
    → ((r : Row) → (f r).id ≡ r.id)
    → row ≡ f next
claimed_only rows next row f d m found same =
    pick_case (All-Memᴰ (λ r. (has_id next.id r ≡ false) ⊎ (r ≡ f next)) updated only inside)
  where
    updated : List Row
    updated = update_where (has_id next.id) f rows

    inside : Memᴰ row updated
    inside = (Memᴰ-find_where (has_id next.id) updated row found).0

    only : All (λ r. (has_id next.id r ≡ false) ⊎ (r ≡ f next)) updated
    only =
        All-update_turn (λ r. (has_id next.id r ≡ false) ⊎ (r ≡ next))
          (λ r. (has_id next.id r ≡ false) ⊎ (r ≡ f next)) (has_id next.id) f rows
          (λ r k hit. elim k [ inl miss ↦ cc | inr e ↦ inr (ap f e) ]) (λ r k miss. inl miss)
          (DistinctIds-only rows next d m)

    pick_case : (has_id next.id row ≡ false) ⊎ (row ≡ f next) → row ≡ f next
    pick_case (inl miss) = cc (miss, (Memᴰ-find_where (has_id next.id) updated row found).1)
    pick_case (inr e) = e

module _ (services : Services) where
  pub not_issued_yet :
      (n : ℕ) (t : String) → IsIssued services n (some t) → str_eq t (services.new_uuid n) ≡ false
  not_issued_yet n t (k, below, e) = elim (Bool-cases (str_eq t (services.new_uuid n))) [
    | inl same ↦ absurd (
        omega
          (arith, services.uuid_injective k n (sym e ∙ (eq_iff t (services.new_uuid n)).0 same)))
    | inr differ ↦ differ
  ]

  pub column_not_issued_yet :
      (n : ℕ) (t : Option String)
      → IsIssued services n t
      → column_is t (services.new_uuid n) ≡ false
  column_not_issued_yet n none h = refl
  column_not_issued_yet n (some t) h = not_issued_yet n t h

  module _ (held : List Job) (n : ℕ) (next : Row) (worker : String) (lease now : ℕ) where
    abbrev new_value : Job
    new_value = scan_service_job (claimed worker (services.new_uuid n) lease now next)

    other-IsSound :
        (r : Row) → IsSound services held n r → IsSound services (new_value ∷ held) (suc n) r
    unfolding scan_service_job claimed
    other-IsSound r h =
        let later = IsSound-suc services held n r h in
        record {
          lease_token_set = h.lease_token_set;
          locked_by_set = h.locked_by_set;
          locked_until_set = h.locked_until_set;
          completed_at_set = h.completed_at_set;
          attempts_left = h.attempts_left;
          waits_as_root = h.waits_as_root;
          token_issued = later.token_issued;
          leases_agree =
              (rw (column_not_issued_yet n r.lease_token h.token_issued) refl, h.leases_agree);
        }

    agrees_self : agrees (claimed worker (services.new_uuid n) lease now next) new_value ≡ true
    unfolding scan_service_job claimed
    agrees_self = ground (arith, eq_iff next.id next.id, eq_iff next.root_job_id next.root_job_id)

    str_eq_flip : (s t : String) → str_eq s t ≡ false → str_eq t s ≡ false
    str_eq_flip s t e = ground (arith, eq_iff s t, eq_iff t s)

    agrees_held :
        (v : Job)
        → IsIssued services n (some v.lease_token)
        → agrees (claimed worker (services.new_uuid n) lease now next) v ≡ true
    unfolding claimed
    agrees_held v h =
        rw (str_eq_flip v.lease_token (services.new_uuid n) (not_issued_yet n v.lease_token h)) refl

    claimed-IsSound :
        is_claimable next.status ≡ true
        → HeldIssued services n held
        → IsSound services held n next
        → IsSound services
            (new_value ∷ held)
            (suc n)
            (claimed worker (services.new_uuid n) lease now next)
    unfolding claimed
    claimed-IsSound claimable issued h = record {
      lease_token_set = refl;
      locked_by_set = refl;
      locked_until_set = refl;
      completed_at_set = ground arith;
      attempts_left = ground arith;
      waits_as_root = refl;
      token_issued = (n, omega arith, refl);
      leases_agree = (agrees_self, All-imp _ _ held agrees_held issued);
    }

  -- The rows and the values held after a claim of `next`.
  module _ (held : List Job) (worker : String) (lease now : ℕ) (db db' : Db) (o : Option Job)
      (next : Row) (inside : Memᴰ next db.jobs) (claimable : is_claimable next.status ≡ true)
      (taken : Taken next worker (services.new_uuid db.drawn) lease now (drawn_after db) db' o)
      (d : DistinctIds db.jobs) (issued : HeldIssued services db.drawn held) where
    abbrev token : String
    token = services.new_uuid db.drawn

    taken_row : taken.row ≡ claimed worker token lease now next
    unfolding claimed
    taken_row =
        claimed_only db.jobs next taken.row (claimed worker token lease now) d inside taken.found
          λ r. refl

    held_taken : held_with o held ≡ new_value held db.drawn next worker lease now ∷ held
    held_taken = rw (taken.value, taken_row) refl

    drawn_taken : db'.drawn ≡ suc db.drawn
    drawn_taken = taken.drawn_same

    chosen-IsSound :
        (r : Row)
        → IsSound services held db.drawn r
        → (has_id next.id r ≡ false) ⊎ (r ≡ next)
        → has_id next.id r ≡ true
        → IsSound services
            (new_value held db.drawn next worker lease now ∷ held)
            (suc db.drawn)
            (claimed worker token lease now r)
    chosen-IsSound r h (inl miss) hit = cc
    chosen-IsSound r h (inr same) hit =
        rw same
          (claimed-IsSound held db.drawn next worker lease now claimable issued (rw same at h))

    rows_taken :
        SoundRows services held db.drawn db.jobs
        → SoundRows services
            (new_value held db.drawn next worker lease now ∷ held)
            (suc db.drawn)
            (update_where (has_id next.id) (claimed worker token lease now) db.jobs)
    rows_taken h =
        All-update_turn
          (λ r. IsSound services held db.drawn r × ((has_id next.id r ≡ false) ⊎ (r ≡ next)))
          (IsSound services (new_value held db.drawn next worker lease now ∷ held) (suc db.drawn))
          (has_id next.id) (claimed worker token lease now) db.jobs
          (λ r k hit. chosen-IsSound r k.0 k.1 hit)
          (λ r k miss. other-IsSound held db.drawn next worker lease now r k.0)
          (Known-at services held next db.drawn db.jobs inside d h)

    Sound-taken :
        SoundRows services held db.drawn db.jobs
        → SoundRows services (held_with o held) db'.drawn db'.jobs
    Sound-taken h = rw (held_taken, drawn_taken, taken.rows) (rows_taken h)

    issued_taken :
        HeldIssued services (suc db.drawn) (new_value held db.drawn next worker lease now ∷ held)
    unfolding claimed scan_service_job
    issued_taken = ((db.drawn, omega arith, refl), HeldIssued-suc services db.drawn held issued)

    Ids-taken : DistinctIds db'.jobs × HeldIssued services db'.drawn (held_with o held)
    unfolding claimed
    Ids-taken = (
      rw taken.rows (DistinctIds-update_where _ _ db.jobs (λ r. refl) d),
      subst₂ (λ n vs. HeldIssued services n vs) (sym drawn_taken) (sym held_taken) issued_taken,
    )

  -- What is true of the store and of the values that workers hold, between two transactions.
  abbrev pub Consistent : List Job → Db → Type 0
  Consistent held db =
      SoundRows services held db.drawn db.jobs
      × (DistinctIds db.jobs × HeldIssued services db.drawn held)

  Consistent-drawn :
      (held : List Job) (db : Db) → Consistent held db → Consistent held (drawn_after db)
  Consistent-drawn held db h = (
    All-imp _ _ db.jobs (IsSound-suc services held db.drawn) h.0,
    (h.1.0, HeldIssued-suc services db.drawn held h.1.1),
  )

  pub Consistent-claim :
      (held : List Job) (locked : String → Bool) (worker : String) (lease now : ℕ) (db db' : Db)
      (o : Option Job)
      → claim services locked worker lease now db ≡ Result.ok (o, db')
      → Consistent held db
      → Consistent (held_with o held) db'
  unfolding eligible
  Consistent-claim held locked worker lease now db db' o e h =
      elim (claim_ok services locked worker lease now db db' o e) [
        | inl (_, nothing, same) ↦ rw (nothing, ← same) (Consistent-drawn held db h)
        | inr (next, first, taken) ↦
            let (inside, fits) =
              Memᴰ-select_where (eligible locked now) db.jobs
                (Memᴰ-first_claimable services (candidates locked now db) next first) in
            let claimable : is_claimable next.status ≡ true = ground arith in
            (
              Sound-taken held worker lease now db db' o next inside claimable taken h.1.0 h.1.1
                  h.0,
              Ids-taken held worker lease now db db' o next inside claimable taken h.1.0 h.1.1,
            )
      ]
