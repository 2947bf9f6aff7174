-- ===== src/Examples/Ticks.antt =====
-- A tick of lead_engine/worker.py whose run raises after it has moved its job.
use lead_engine.Prelude.{true, [], ◌∷◌, text}
use lead_engine.Jobs.Transitions.{failed}
use lead_engine.Jobs.{Db, new_row}
use lead_engine.Tick.{raised, Drive, run_worker_tick}
use lead_engine.Tick.Freed.{IsLetGo, run_worker_tick-IsLetGo}

abbrev one_job : Db
one_job = record { jobs = new_row 1 (text "icp") (text "{}") 10 ∷ []; events = [] }

-- The run leaves its job FAILED, with its lease, and raises.
abbrev crash : Drive
crash r db = (raised (text "boom"), record db { jobs = record r { state = failed } ∷ [] })

run_worker_tick-IsLetGo_example :
    IsLetGo
      (run_worker_tick true (text "w") 600 48 crash 100 200 one_job).0
      (run_worker_tick true (text "w") 600 48 crash 100 200 one_job).2
run_worker_tick-IsLetGo_example =
    run_worker_tick-IsLetGo true (text "w") 600 48 crash 100 200 one_job
