-- ===== src/Worker/Tests.antt =====
-- The theorems about the pool, at one job that is handled, or whose retry meets a closed queue.
use dependecy_graph_auditor.Prelude.{◌<◌, ◌≡◌, refl, false, true, none, [], ◌∷◌, length, arith}
use dependecy_graph_auditor.Job.{Job}
use dependecy_graph_auditor.ServiceStore.Runs.{given_job}
use dependecy_graph_auditor.ServiceStore.Statements.{scan_service_job, pending_row}
use dependecy_graph_auditor.Worker.Pool.{
  Pool, new_pool, check_done, close_done, release, begin_submit, count_submitted, succeed,
  failed_job, handle_error, strand, begin_shutdown, signal_closing, close_queue,
}
use dependecy_graph_auditor.Worker.Steps.{Step, Leads}
use dependecy_graph_auditor.Worker.Accounting.{held, in_flight-held}
use dependecy_graph_auditor.Worker.Finishing.{IsUnreported, stranded-never_done}

abbrev sample_job : Job
sample_job = record (given_job none) { id = "a"; max_attempts = 2 }

abbrev started : Pool
started = new_pool 4 true (sample_job ∷ [])

abbrev working : Pool
working = record started { queue = []; busy = sample_job ∷ [] }

working-Leads : Leads started working
unfolding new_pool
working-Leads = Leads.later Leads.stay (Step.dequeues sample_job [] refl)

-- The job is handled, and a second one is submitted and counted.
abbrev busier : Pool
busier = count_submitted working sample_job

busier-Leads : Leads started busier
unfolding new_pool begin_submit
busier-Leads =
    Leads.later (Leads.later working-Leads (Step.begins_submit sample_job))
      (Step.counts [] sample_job [] refl)

in_flight-held_example : busier.in_flight ≡ held busier
in_flight-held_example = in_flight-held 4 true (sample_job ∷ []) busier busier-Leads

-- The job ends, the worker reads the count and closes Done; between the two, a job is submitted.
abbrev checked : Pool
checked = check_done (succeed (record working { busy = [] }))

abbrev finished : Pool
finished = close_done (count_submitted checked sample_job)

-- Done is closed over a job that is still on its way into the queue.
finished-sends : finished.sending ≡ sample_job ∷ []
unfolding new_pool succeed release check_done count_submitted close_done
finished-sends = refl

-- The first attempt fails, the queue is closed during the delay, and the retry is dropped.
abbrev delayed : Pool
delayed = handle_error (record working { busy = [] }) sample_job "timeout"

abbrev closed : Pool
closed = close_queue (signal_closing (begin_shutdown delayed))

abbrev stuck : Pool
stuck = strand (record closed { sleeping = [] }) (failed_job sample_job)

stuck-Leads : Leads started stuck
unfolding new_pool handle_error begin_shutdown signal_closing close_queue scan_service_job
    pending_row
stuck-Leads =
    Leads.later
      (Leads.later
        (Leads.later
          (Leads.later (Leads.later working-Leads (Step.fails [] sample_job [] "timeout" refl))
            Step.begins_shutdown)
          (Step.signals_closing refl refl refl))
        (Step.closes_queue refl))
      (Step.strands [] (failed_job sample_job) [] refl refl)

stuck-strands : 0 < length stuck.stranded
unfolding strand
stuck-strands = omega arith

stuck-IsUnreported : IsUnreported stuck
unfolding strand new_pool handle_error begin_shutdown signal_closing close_queue scan_service_job
    pending_row
stuck-IsUnreported = (refl, refl)

stranded-never_done_example : (begin_shutdown stuck).done ≡ false
stranded-never_done_example =
    stranded-never_done 4 true (sample_job ∷ []) stuck (begin_shutdown stuck) stuck-Leads
      stuck-strands stuck-IsUnreported (Leads.later Leads.stay Step.begins_shutdown)
