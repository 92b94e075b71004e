-- ===== src/ServiceStore/Rows.antt =====
-- What is true of every row of `jobs` between two transactions, and of the changes that the
-- operations make to one row.
use dependecy_graph_auditor.Prelude.{
  ℕ, suc, ◌+◌, ◌≤◌, ◌<◌, ◌≡◌, refl, String, str_eq, Bool, true, false, ◌&&◌, ◌||◌, not, ◌==◌,
  Option, none, some, List, is_some, All, All-intro, All-imp, arith,
}
use dependecy_graph_auditor.Job.{Status, ErrorKind, Job, is_running, is_waiting, is_retry_scheduled}
use dependecy_graph_auditor.ServiceStore.Tables.{Row, Services, column_is}
use dependecy_graph_auditor.ServiceStore.Finalize.{settled}
use dependecy_graph_auditor.ServiceStore.Complete.{released}
use dependecy_graph_auditor.ServiceStore.Operate.{is_idle, cancelled_row, cancel_requested}
use dependecy_graph_auditor.ServiceStore.Claim.{extended}
use dependecy_graph_auditor.ServiceStore.Fail.{failed_row}
use dependecy_graph_auditor.ServiceStore.Reclaim.{reclaim_status, reclaimed}

abbrev pub is_terminal : Status → Bool
is_terminal Status.completed = true
is_terminal Status.failed = true
is_terminal Status.dead_lettered = true
is_terminal Status.cancelled = true
is_terminal _ = false

-- The attempts that a status still has to allow for.
abbrev pub reserved : Status → ℕ
reserved Status.pending = 1
reserved Status.retry_scheduled = 1
reserved _ = 0

-- A leased row shows the worker's value of it: the same job, attempt, limit and root.
abbrev pub agrees : Row → Job → Bool
agrees r value =
    not (column_is r.lease_token value.lease_token)
    || (str_eq r.id value.id
        && str_eq r.root_job_id value.root_job_id
        && r.attempts == value.attempts
        && r.max_attempts == value.max_attempts)

-- A row as an INSERT adds it.
pub record IsFresh (r : Row) : Type 0 where
  pub is_queued : r.status ≡ Status.pending
  pub unleased : r.lease_token ≡ none
  pub unlocked : r.locked_by ≡ none
  pub unlimited : r.locked_until ≡ none
  pub unended : r.completed_at ≡ none
  pub untried : r.attempts ≡ 0
  pub allowed : 0 < r.max_attempts

module _ (services : Services) where
  abbrev pub IsIssued : ℕ → Option String → Type 0
  IsIssued n none = Unit
  IsIssued n (some t) = (k : ℕ) × (k < n) × (t ≡ services.new_uuid k)

  -- What workers hold was issued: the tokens are among the UUIDs drawn.
  abbrev pub HeldIssued : ℕ → List Job → Type 0
  HeldIssued n held = All (λ v. IsIssued n (some v.lease_token)) held

  -- `held` are the values that claims have returned to workers, and `n` UUIDs have been drawn.
  pub record IsSound (held : List Job) (n : ℕ) (r : Row) : Type 0 where
    pub lease_token_set : is_some r.lease_token ≡ is_running r.status
    pub locked_by_set : is_some r.locked_by ≡ is_running r.status
    pub locked_until_set : is_some r.locked_until ≡ is_running r.status
    pub completed_at_set : is_some r.completed_at ≡ is_terminal r.status
    pub attempts_left : r.attempts + reserved r.status ≤ r.max_attempts
    pub waits_as_root : (is_waiting r.status && not (str_eq r.id r.root_job_id)) ≡ false
    pub token_issued : IsIssued n r.lease_token
    pub leases_agree : All (λ v. agrees r v ≡ true) held

  IsIssued-suc : (n : ℕ) (t : Option String) → IsIssued n t → IsIssued (suc n) t
  IsIssued-suc n none h = tt
  IsIssued-suc n (some t) (k, below, e) = (k, omega arith, e)

  pub HeldIssued-suc : (n : ℕ) (held : List Job) → HeldIssued n held → HeldIssued (suc n) held
  HeldIssued-suc n held h = All-imp _ _ held (λ v. IsIssued-suc n (some v.lease_token)) h

  module _ (held : List Job) (n : ℕ) where
    pub IsSound-suc : (r : Row) → IsSound held n r → IsSound held (suc n) r
    IsSound-suc r h = record {
      lease_token_set = h.lease_token_set;
      locked_by_set = h.locked_by_set;
      locked_until_set = h.locked_until_set;
      completed_at_set = h.completed_at_set;
      attempts_left = h.attempts_left;
      waits_as_root = h.waits_as_root;
      token_issued = IsIssued-suc n r.lease_token h.token_issued;
      leases_agree = h.leases_agree;
    }

    -- No value is shown by a row without a lease.
    unleased_agree : (r : Row) → r.lease_token ≡ none → All (λ v. agrees r v ≡ true) held
    unleased_agree r e = All-intro _ held λ v. rw e

    pub settled-IsSound :
        (r : Row) (status : Status) (message : String) (now : ℕ)
        → is_terminal status ≡ true
        → is_waiting r.status ≡ true
        → IsSound held n r
        → IsSound held n (settled status message now r)
    unfolding settled
    settled-IsSound r status message now t w h = record {
      lease_token_set = ground arith;
      locked_by_set = ground arith;
      locked_until_set = ground arith;
      completed_at_set = ground arith;
      attempts_left = ground arith;
      waits_as_root = ground arith;
      token_issued = h.token_issued;
      leases_agree = h.leases_agree;
    }

    -- A row whose lease is given up.
    pub released-IsSound :
        (r : Row) (status : Status) (completed_at : Option ℕ)
        → is_running status ≡ false
        → is_some completed_at ≡ is_terminal status
        → (is_waiting status && not (str_eq r.id r.root_job_id)) ≡ false
        → r.attempts + reserved status ≤ r.max_attempts
        → IsSound held n (released status completed_at r)
    unfolding released
    released-IsSound r status completed_at free ended root left = record {
      lease_token_set = ground arith;
      locked_by_set = ground arith;
      locked_until_set = ground arith;
      completed_at_set = ended;
      attempts_left = left;
      waits_as_root = root;
      token_issued = tt;
      leases_agree = unleased_agree (released status completed_at r) refl;
    }

    pub cancelled_row-IsSound :
        (r : Row) (now : ℕ)
        → is_idle r.status ≡ true
        → IsSound held n r
        → IsSound held n (cancelled_row now r)
    unfolding cancelled_row
    cancelled_row-IsSound r now idle h = record {
      lease_token_set = ground arith;
      locked_by_set = ground arith;
      locked_until_set = ground arith;
      completed_at_set = refl;
      attempts_left = ground arith;
      waits_as_root = refl;
      token_issued = h.token_issued;
      leases_agree = h.leases_agree;
    }

    -- Changes of columns that the invariant does not look at.
    pub cancel_requested-IsSound :
        (r : Row) (now : ℕ) → IsSound held n r → IsSound held n (cancel_requested now r)
    unfolding cancel_requested
    cancel_requested-IsSound r now h = record {
      lease_token_set = h.lease_token_set;
      locked_by_set = h.locked_by_set;
      locked_until_set = h.locked_until_set;
      completed_at_set = h.completed_at_set;
      attempts_left = h.attempts_left;
      waits_as_root = h.waits_as_root;
      token_issued = h.token_issued;
      leases_agree = h.leases_agree;
    }

    pub extended-IsSound :
        (r : Row) (lease now : ℕ)
        → is_running r.status ≡ true
        → IsSound held n r
        → IsSound held n (extended lease now r)
    unfolding extended
    extended-IsSound r lease now running h = record {
      lease_token_set = h.lease_token_set;
      locked_by_set = h.locked_by_set;
      locked_until_set = ground arith;
      completed_at_set = h.completed_at_set;
      attempts_left = h.attempts_left;
      waits_as_root = h.waits_as_root;
      token_issued = h.token_issued;
      leases_agree = h.leases_agree;
    }

    -- A row whose lease is given up, with the columns of an error and of the next run besides.
    pub failed_row-IsSound :
        (r : Row) (status : Status) (kind : ErrorKind) (message : String) (retry_at now : ℕ)
        → (is_terminal status || is_retry_scheduled status) ≡ true
        → r.attempts + reserved status ≤ r.max_attempts
        → IsSound held n (failed_row status kind message retry_at now r)
    unfolding failed_row
    failed_row-IsSound r status kind message retry_at now ended left = record {
      lease_token_set = ground arith;
      locked_by_set = ground arith;
      locked_until_set = ground arith;
      completed_at_set = ground arith;
      attempts_left = left;
      waits_as_root = ground arith;
      token_issued = tt;
      leases_agree = unleased_agree (failed_row status kind message retry_at now r) refl;
    }

    pub reclaimed-IsSound :
        (r : Row) (value : Job) (now : ℕ)
        → r.attempts ≡ value.attempts
        → r.max_attempts ≡ value.max_attempts
        → r.attempts ≤ r.max_attempts
        → IsSound held n (reclaimed (reclaim_status value) now r)
    unfolding reclaimed reclaim_status
    reclaimed-IsSound r value now attempt limit left = record {
      lease_token_set = ground arith;
      locked_by_set = ground arith;
      locked_until_set = ground arith;
      completed_at_set = ground arith;
      attempts_left = ground arith;
      waits_as_root = ground arith;
      token_issued = tt;
      leases_agree = unleased_agree (reclaimed (reclaim_status value) now r) refl;
    }

    -- A row that INSERT adds.
    pub fresh-IsSound : (r : Row) → IsFresh r → IsSound held n r
    fresh-IsSound r f = record {
      lease_token_set = ground arith;
      locked_by_set = ground arith;
      locked_until_set = ground arith;
      completed_at_set = ground arith;
      attempts_left = ground arith;
      waits_as_root = ground arith;
      token_issued = rw f.unleased tt;
      leases_agree = unleased_agree r f.unleased;
    }
