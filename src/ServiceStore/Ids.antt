-- ===== src/ServiceStore/Ids.antt =====
-- The ids of the table of jobs stay distinct, and the tokens that workers hold stay among the UUIDs
-- drawn.
use dependecy_graph_auditor.Prelude.{ℕ, List}
use dependecy_graph_auditor.Job.{Job}
use dependecy_graph_auditor.ServiceStore.Tables.{Row, Services}
use dependecy_graph_auditor.ServiceStore.Rows.{HeldIssued, HeldIssued-suc}
use dependecy_graph_auditor.ServiceStore.Identity.{
  DistinctIds, DistinctIds-append, DistinctIds-update_where,
}
use dependecy_graph_auditor.ServiceStore.Keeps.{
  Keeps-update_jobs, Keeps-insert_job, Keeps-new_job_id,
}
use dependecy_graph_auditor.ServiceStore.Robust.{IsRobust}

module _ (services : Services) (held : List Job) where
  abbrev pub IdTable : ℕ → List Row → Type 0
  IdTable n rows = DistinctIds rows × HeldIssued services n held

  pub IdTable-IsRobust : IsRobust services IdTable
  IdTable-IsRobust = record {
    stable = record {
      draws =
          Keeps-new_job_id IdTable services λ n rows h. (h.0, HeldIssued-suc services n held h.1);
      inserts = λ r fresh.
          Keeps-insert_job IdTable r λ n rows absent h. (DistinctIds-append rows r absent h.0, h.1);
    };
    updates = λ p f relents.
        Keeps-update_jobs IdTable p f
          λ n rows h. (DistinctIds-update_where p f rows (λ r. (relents r).0) h.0, h.1);
  }
