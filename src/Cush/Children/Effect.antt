-- ===== src/Cush/Children/Effect.antt =====
-- The effect of one wait status on the job of the child: handle_child_status, branch by branch.
use computer_systems_project.Base.{
  ℕ, ◌≡◌, refl, inl, inr, ◌≢◌, Bool, true, false, ◌||◌, some, List, ◌==◌, Bool-cases, if◌then◌else◌,
  update, update_same, update_other, ℤ, pos, decrement, is_positive,
}
use computer_systems_project.LinkedList.{LinkedList}
use computer_systems_project.Run.{Outcome, done, Keeps, Keeps-and_then}
use computer_systems_project.Cush.Sig
use computer_systems_project.Cush.State.{
  Shell, Job, JobStatus, stopped, needs_terminal, terminated, finished, ChildStatus, exit_code,
  signaled, stopped_by, continued, Rc,
}
use computer_systems_project.Cush.State.Calls.{load_job-done}
use computer_systems_project.Cush.Term.{termstate_save}
use computer_systems_project.Cush.Term.Frame.{termstate_save-Keeps}
use computer_systems_project.Cush.Children.{child_gone, is_foreground, update_job, suspend}

-- The child has ended.
abbrev pub is_gone : ChildStatus → Bool
is_gone (exit_code n) = true
is_gone (signaled sig) = true
is_gone (stopped_by sig) = false
is_gone continued = false

abbrev pub wants_terminal : ℕ → Bool
wants_terminal sig = (sig == Sig.ttou) || (sig == Sig.ttin)

abbrev pub alive_after : ChildStatus → ℤ → ℤ
alive_after status n = if is_gone status then decrement n else n

-- The status of a job as the job control commands see it: the last child that ends decides how the
-- job ended, and a stop shows at once.
abbrev pub status_after : ChildStatus → ℤ → JobStatus → JobStatus
status_after (exit_code n) alive old = if is_positive (decrement alive) then old else finished
status_after (signaled sig) alive old = if is_positive (decrement alive) then old else terminated
status_after (stopped_by sig) alive old = if wants_terminal sig then needs_terminal else stopped
status_after continued alive old = old

abbrev pub code_after : ChildStatus → ℤ → ℤ
code_after (exit_code n) old = old
code_after (signaled sig) old = if sig == 0 then old else pos sig
code_after (stopped_by sig) old = old
code_after continued old = old

-- The shell is to report the stop of a job that ran in the foreground.
abbrev pub reports_stop : ChildStatus → JobStatus → Bool
reports_stop (exit_code n) old = false
reports_stop (signaled sig) old = false
reports_stop (stopped_by sig) old = if wants_terminal sig then false else is_foreground old
reports_stop continued old = false

-- `t` is `s` with another job at `p`, which has the number, the commands and the children of `j`.
pub record Changed {H : Type 0} (p : ℕ) (j : Job) (s t : Shell H) : Type 0 where
  pub now : Job
  pub stored : t.jobs p ≡ some now
  pub others : (q : ℕ) → q ≢ p → t.jobs q ≡ s.jobs q
  pub same_list : t.job_list ≡ s.job_list
  pub same_table : t.jid2job ≡ s.jid2job
  pub same_jid : now.jid ≡ j.jid
  pub same_pipe : now.pipe ≡ j.pipe
  pub same_pids : now.child_pid_array ≡ j.child_pid_array

-- `t` is `s` after the job `j` at `p` was told of a status.
pub record Handled {H : Type 0} (p : ℕ) (j : Job) (c : ChildStatus) (s t : Shell H) : Type 0 where
  pub change : Changed p j s t
  pub open change use *
  pub same_mask : t.blocked_signals ≡ s.blocked_signals
  pub same_waits : t.waits ≡ s.waits
  pub same_terminal : t.terminal ≡ s.terminal
  pub alive : now.num_processes_alive ≡ alive_after c j.num_processes_alive
  pub job_status : now.status ≡ status_after c j.num_processes_alive j.status
  pub code : now.termination_code ≡ code_after c j.termination_code
  pub notice : t.z_update_jid ≡ (if reports_stop c j.status then j.jid else s.z_update_jid)
  pub error_notice : t.error_update_code ≡ code_after c s.error_update_code
  pub saved :
      now.saved_tty_state
      ≡ (if reports_stop c j.status then s.terminal.settings else j.saved_tty_state)
  pub saved_previously :
      now.state_saved_previously
      ≡ (if reports_stop c j.status then true else j.state_saved_previously)
  pub job_frame : now ≡ record j {
    num_processes_alive = now.num_processes_alive;
    status = now.status;
    termination_code = now.termination_code;
    saved_tty_state = now.saved_tty_state;
    state_saved_previously = now.state_saved_previously;
  }
  pub shell_frame : t ≡ record s {
    jobs = t.jobs;
    z_update_jid = t.z_update_jid;
    error_update_code = t.error_update_code;
    answers = t.answers;
  }

module _ (L : LinkedList) (p : ℕ) (j : Job) (s : Shell L.Handle) where
  abbrev stored_job : Job → Shell L.Handle
  stored_job k = record s { jobs = update s.jobs p (some k) }

  abbrev Effect : ChildStatus → Outcome (Shell L.Handle) (Unit {0}) → Type 0
  Effect status = Keeps λ _ t. Handled p j status s t

  -- A write of the job, with nothing else changed.
  store_Handled :
      (c : ChildStatus) (k : Job)
      → k.jid ≡ j.jid
      → k.pipe ≡ j.pipe
      → k.child_pid_array ≡ j.child_pid_array
      → k.num_processes_alive ≡ alive_after c j.num_processes_alive
      → k.status ≡ status_after c j.num_processes_alive j.status
      → k.termination_code ≡ code_after c j.termination_code
      → (z e : ℤ) (left : List Rc) → z ≡ (if reports_stop c j.status then j.jid else s.z_update_jid)
      → e ≡ code_after c s.error_update_code
      → k.saved_tty_state
        ≡ (if reports_stop c j.status then s.terminal.settings else j.saved_tty_state)
      → k.state_saved_previously
        ≡ (if reports_stop c j.status then true else j.state_saved_previously)
      → k ≡ record j {
        num_processes_alive = k.num_processes_alive;
        status = k.status;
        termination_code = k.termination_code;
        saved_tty_state = k.saved_tty_state;
        state_saved_previously = k.state_saved_previously;
      }
      → Handled p j c s
          (record (stored_job k) { z_update_jid = z; error_update_code = e; answers = left })
  store_Handled c k jid pipe pids alive status code z e left notice error saved before frame =
      record {
        change = record {
          now = k;
          stored = update_same s.jobs p (some k);
          others = update_other s.jobs p (some k);
          same_list = refl;
          same_table = refl;
          same_jid = jid;
          same_pipe = pipe;
          same_pids = pids;
        };
        same_mask = refl;
        same_waits = refl;
        same_terminal = refl;
        alive = alive;
        job_status = status;
        code = code;
        notice = notice;
        error_notice = error;
        saved = saved;
        saved_previously = before;
        job_frame = frame;
        shell_frame = refl;
      }

  module _ (at : s.jobs p ≡ some j) where
    exit-Effect : (n : ℕ) → Effect (exit_code n) (update_job L (exit_code n) (some p) s)
    unfolding update_job
    exit-Effect n = rw (load_job-done p s j at) (
        store_Handled (exit_code n) (child_gone finished j) refl refl refl refl refl refl
          s.z_update_jid s.error_update_code s.answers refl refl refl refl refl)

    signal-Effect : (sig : ℕ) → Effect (signaled sig) (update_job L (signaled sig) (some p) s)
    unfolding update_job
    signal-Effect sig = elim (Bool-cases (sig == 0)) [
      | inl e ↦
          rw (load_job-done p s j at, e)
            (store_Handled (signaled sig) (child_gone terminated j) refl refl refl refl refl (rw e)
              s.z_update_jid s.error_update_code s.answers refl (rw e) refl refl refl)
      | inr e ↦
          rw (load_job-done p s j at, e)
            (store_Handled (signaled sig)
              (child_gone terminated (record j { termination_code = pos sig })) refl refl refl refl
              refl (rw e) s.z_update_jid (pos sig) s.answers refl (rw e) refl refl refl)
    ]

    suspend-Effect :
        (sig : ℕ)
        → wants_terminal sig ≡ false
        → is_foreground j.status ≡ true
        → Effect (stopped_by sig) (suspend L p j s)
    unfolding suspend
    suspend-Effect sig quiet front =
        let s' = record s { z_update_jid = j.jid } in
        Keeps-and_then (λ v t. (v ≡ s.terminal.settings) × (t ≡ record s' { answers = t.answers }))
          (λ _ t. Handled p j (stopped_by sig) s t) (termstate_save s') _ (termstate_save-Keeps s')
          λ v t (got, same). rw same (
            store_Handled (stopped_by sig)
              (record j { saved_tty_state = v; state_saved_previously = true; status = stopped })
              refl refl refl refl (rw quiet) refl j.jid s.error_update_code t.answers
              (rw (quiet, front)) refl (rw (quiet, front) got) (rw (quiet, front)) refl)

    stop-Effect : (sig : ℕ) → Effect (stopped_by sig) (update_job L (stopped_by sig) (some p) s)
    unfolding update_job
    stop-Effect sig = elim (Bool-cases (wants_terminal sig)) [
      | inl e ↦
          rw (load_job-done p s j at, e)
            (store_Handled (stopped_by sig) (record j { status = needs_terminal }) refl refl refl
              refl (rw e) refl s.z_update_jid s.error_update_code s.answers (rw e) refl (rw e)
              (rw e) refl)
      | inr e ↦ elim (Bool-cases (is_foreground j.status)) [
        | inl f ↦ rw (load_job-done p s j at, e, f) (suspend-Effect sig e f)
        | inr f ↦
            rw (load_job-done p s j at, e, f)
              (store_Handled (stopped_by sig) (record j { status = stopped }) refl refl refl refl
                (rw e) refl s.z_update_jid s.error_update_code s.answers (rw (e, f)) refl
                (rw (e, f)) (rw (e, f)) refl)
      ]
    ]

    -- A wait status changes the job as `status_after` and `code_after` say, counts the child where
    -- it has ended, saves the settings of the terminal for a foreground job that stops, and leaves
    -- the notices that the prompt prints. It touches nothing else of the job, and nothing else of
    -- the shell but the answers of system calls, unless the shell exits or a system call does not
    -- return.
    pub update_job-Handled : (c : ChildStatus) → Effect c (update_job L c (some p) s)
    unfolding update_job
    update_job-Handled (exit_code n) = exit-Effect n
    update_job-Handled (signaled sig) = signal-Effect sig
    update_job-Handled (stopped_by sig) = stop-Effect sig
    update_job-Handled continued = record {
      change = record {
        now = j;
        stored = at;
        others = λ q h. refl;
        same_list = refl;
        same_table = refl;
        same_jid = refl;
        same_pipe = refl;
        same_pids = refl;
      };
      same_mask = refl;
      same_waits = refl;
      same_terminal = refl;
      alive = refl;
      job_status = refl;
      code = refl;
      notice = refl;
      error_notice = refl;
      saved = refl;
      saved_previously = refl;
      job_frame = refl;
      shell_frame = refl;
    }

  -- No system call stands between a child's end and the update of its job.
  pub update_job-done :
      (c : ChildStatus)
      → is_gone c ≡ true
      → s.jobs p ≡ some j
      → (t : Shell L.Handle) × (update_job L c (some p) s ≡ done tt t) × (t.answers ≡ s.answers)
  unfolding update_job
  update_job-done (exit_code n) e at =
      (stored_job (child_gone finished j), rw (load_job-done p s j at), refl)
  update_job-done (signaled sig) e at = elim (Bool-cases (sig == 0)) [
    | inl z ↦ (stored_job (child_gone terminated j), rw (load_job-done p s j at, z), refl)
    | inr z ↦ (
      record (stored_job (child_gone terminated (record j { termination_code = pos sig }))) {
        error_update_code = pos sig;
      },
      rw (load_job-done p s j at, z),
      refl,
    )
  ]
  update_job-done (stopped_by sig) e at = cc
  update_job-done continued e at = cc
