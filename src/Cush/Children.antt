-- ===== src/Cush/Children.antt =====
-- cush.c: what the shell does with the wait status of a child, in the SIGCHLD handler and while
-- it waits for a foreground job.
pub mod Owner
pub mod Effect
pub mod Handling
pub mod Waiting
pub mod Finish
pub mod Return
pub mod Completion
use computer_systems_project.Base.{
  ℕ, zero, suc, ◌≡◌, refl, Bool, true, false, ◌&&◌, ◌||◌, not, Option, none, some, List, [], ◌∷◌,
  arith, ◌==◌, if◌then◌else◌, length, ℤ, pos, negsuc, minus_one, int_eq, decrement, is_positive,
}
use computer_systems_project.LinkedList.{LinkedList}
use computer_systems_project.Run.{
  Outcome, done, crash, blocked, Command, and_then, ◌>>=◌, ◌>>◌, pure, require, need, get, modify,
}
use computer_systems_project.Cush.Sig
use computer_systems_project.Cush.Signals.{signal_is_blocked}
use computer_systems_project.Cush.Term.{termstate_save, termstate_sample}
use computer_systems_project.Cush.State.{
  Shell, Job, JobStatus, foreground, background, stopped, needs_terminal, terminated, finished,
  ChildStatus, exit_code, signaled, stopped_by, continued, Wait, child, wait_error, fatal_error,
  load_job, store_job,
}
use computer_systems_project.Cush.Jobs.{scan, unlink_job, delete_job}

-- The inner loop of handle_child_status over `n` entries of child_pid_array, `none` where it
-- reads past the end of the array.
unfoldable pub mentions : ℕ → List ℕ → ℕ → Option Bool
mentions zero pids pid = some false
mentions (suc n) [] pid = none
mentions (suc n) (q ∷ pids) pid = elim (mentions n pids pid) [
  | none ↦ none
  | some rest ↦ some ((q == pid) || rest)
]

unfoldable pub owns : ℕ → Job → Option Bool
unfolding mentions
owns pid j = mentions (length j.pipe.commands) j.child_pid_array pid

-- The job after a child has exited or been killed, by the status of a job with no child left.
unfoldable pub child_gone : JobStatus → Job → Job
child_gone status j =
    let alive = decrement j.num_processes_alive in
    record j {
      num_processes_alive = alive;
      status = if is_positive alive then j.status else status;
    }

unfoldable pub is_foreground : JobStatus → Bool
is_foreground foreground = true
is_foreground background = false
is_foreground stopped = false
is_foreground needs_terminal = false
is_foreground terminated = false
is_foreground finished = false

-- The test of the loop in wait_for_job.
unfoldable pub keeps_waiting : Job → Bool
keeps_waiting j = is_foreground j.status && is_positive j.num_processes_alive

module _ (L : LinkedList) where
  child_exited : ℕ → Command (Shell L.Handle) (Unit {0})
  unfolding store_job child_gone
  child_exited p = do j ← load_job p; store_job p (child_gone finished j)

  child_signaled : ℕ → ℕ → Command (Shell L.Handle) (Unit {0})
  unfolding store_job child_gone
  child_signaled sig p = do
    j ← load_job p
    if sig == 0
        then store_job p (child_gone terminated j)
        else (store_job p (child_gone terminated (record j { termination_code = pos sig }))
            >> modify λ s. record s { error_update_code = pos sig })

  unfoldable pub suspend : ℕ → Job → Command (Shell L.Handle) (Unit {0})
  unfolding store_job
  suspend p j = do
    modify λ s. record s { z_update_jid = j.jid }
    t ← termstate_save
    store_job p (record j { saved_tty_state = t; state_saved_previously = true; status = stopped })

  child_stopped : ℕ → ℕ → Command (Shell L.Handle) (Unit {0})
  unfolding store_job
  child_stopped sig p = do
    j ← load_job p
    if (sig == Sig.ttou) || (sig == Sig.ttin)
        then store_job p (record j { status = needs_terminal })
        else if is_foreground j.status
        then suspend p j
        else store_job p (record j { status = stopped })

  -- The three branches of handle_child_status read through `found`.
  unfoldable pub update_job : ChildStatus → Option ℕ → Command (Shell L.Handle) (Unit {0})
  unfolding child_exited child_signaled child_stopped
  update_job (exit_code n) found = need found >>= child_exited
  update_job (signaled sig) found = need found >>= child_signaled sig
  update_job (stopped_by sig) found = need found >>= child_stopped sig
  update_job continued found = pure tt

  unfoldable pub handle_child_status : ℕ → ChildStatus → Command (Shell L.Handle) (Unit {0})
  unfolding signal_is_blocked
  handle_child_status pid status = do
    b ← signal_is_blocked Sig.chld
    require b
    s ← get
    found ← need (scan s.jobs (owns pid) (L.items s.job_list))
    update_job status found

  -- sigchld_handler, with what waitpid() returns under WNOHANG until it has no child to report.
  -- The kernel blocks SIGCHLD while the handler runs.
  unfoldable pub sigchld_handler : ℕ → List (ℕ × ChildStatus) → Command (Shell L.Handle) (Unit {0})
  unfolding handle_child_status
  sigchld_handler sig [] = require (sig == Sig.chld)
  sigchld_handler sig ((pid, status) ∷ rest) =
      require (sig == Sig.chld) >> (handle_child_status pid status >> sigchld_handler sig rest)

  -- A return of waitpid() in the loop.
  unfoldable pub handle_wait : Wait → Command (Shell L.Handle) (Unit {0})
  unfolding fatal_error
  handle_wait (child pid status) = handle_child_status pid status
  handle_wait wait_error = fatal_error "waitpid failed, see code for explanation"

  -- The loop, over the returns of waitpid() to come; what is left of them is the result.
  unfoldable pub wait_loop : ℕ → List Wait → Command (Shell L.Handle) (List Wait)
  wait_loop p [] = do j ← load_job p; if keeps_waiting j then blocked else pure []
  wait_loop p (w ∷ ws) = do
    j ← load_job p
    if keeps_waiting j then handle_wait w >> wait_loop p ws else pure (w ∷ ws)

  unfoldable pub wait_for_job : ℕ → Command (Shell L.Handle) (Unit {0})
  unfolding signal_is_blocked
  wait_for_job p = do
    b ← signal_is_blocked Sig.chld
    require b
    s ← get
    rest ← wait_loop p s.waits
    modify λ t. record t { waits = rest }
    j ← load_job p
    if int_eq j.termination_code minus_one then termstate_sample else pure tt
    if is_positive j.num_processes_alive then pure tt else (unlink_job L p >> delete_job L p)
