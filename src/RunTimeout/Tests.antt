-- ===== src/RunTimeout/Tests.antt =====
-- Timeouts of concrete tasks (run-timeout-service.ts).
use shipyard_cp.Base.{◌≡◌, refl, none, some, [], ◌∷◌, All, nat_eqb, string_eqb}
use shipyard_cp.StateMachine.{publishing}
use shipyard_cp.RunTimeout.{
  RunTask, Run, running, check_task, check_timeouts, check_publish_timeout,
}
use shipyard_cp.RunTimeout.Blocking.{IsSettled, timeouts-IsSettled}

abbrev run : Run
run = record {
  run_id = "r";
  started_at = 0;
  status = running;
  progress = none;
  timeout_at = 10;
  completed_at = none;
  error = none;
}

abbrev task : RunTask
task = record {
  task_id = "t";
  state = publishing;
  integration_run = some run;
  publish_run = some run;
  blocked_context = none;
  updated_at = 0;
}

-- At its deadline a run is not late yet; the old task is returned.
deadline :
    ((check_timeouts 10 ((task, 10) ∷ [])).0 ≡ [])
    × ((check_timeouts 11 ((task, 11) ∷ [])).0 ≡ task ∷ [])
unfolding check_timeouts check_task check_publish_timeout
deadline = (refl, refl)

timeouts-IsSettled_example : All IsSettled (check_timeouts 11 ((task, 12) ∷ [])).1
timeouts-IsSettled_example = timeouts-IsSettled 11 ((task, 12) ∷ [])
