-- ===== src/Cush/Children/Completion.antt =====
-- wait_for_job as a whole returns once the children of its job have ended.
use computer_systems_project.Base.{
  ℕ, ◌≤◌, ◌≡◌, refl, ◌∙◌, Bool, true, false, some, List, ◌∷◌, All, has, length, pos, minus_one,
  int_eq, is_positive, if◌then◌else◌,
}
use computer_systems_project.LinkedList.{LinkedList}
use computer_systems_project.Run.{done, and_then, Keeps-done}
use computer_systems_project.Cush.State.{Shell, Job, Rc, success}
use computer_systems_project.Cush.State.Calls.{load_job-done}
use computer_systems_project.Cush.Term.{termstate_sample, termstate_save}
use computer_systems_project.Cush.Jobs.{unlink_job, delete_job}
use computer_systems_project.Cush.Jobs.Consistent.{IsConsistent}
use computer_systems_project.Cush.Jobs.Deletion.{delete_job-IsConsistent}
use computer_systems_project.Cush.Children.{wait_for_job}
use computer_systems_project.Cush.Children.Waiting.{Ready}
use computer_systems_project.Cush.Children.Finish.{WaitDone, wait_for_job-WaitDone}
use computer_systems_project.Cush.Children.Return.{EndsChildOf, wait_loop-Returns}

module _ (L : LinkedList) (p : ℕ) where
  -- The answer of one system call is at hand.
  sampled :
      (b : Bool) (u : Shell L.Handle) (more : List Rc)
      → u.answers ≡ success ∷ more
      → (v : Shell L.Handle) × ((if b then termstate_sample else done tt) u ≡ done tt v)
        × (v.jobs ≡ u.jobs)
        × (v.job_list ≡ u.job_list)
        × (v.jid2job ≡ u.jid2job)
  unfolding termstate_sample termstate_save
  sampled false u more ans = (u, refl, refl, refl, refl)
  sampled true u more ans = (
    record u {
      answers = more;
      terminal = record (u.terminal) { saved_tty_state = u.terminal.settings };
    },
    rw (ans, termstate_sample) refl,
    refl,
    refl,
    refl,
  )

  finished :
      (b : Bool) (v : Shell L.Handle)
      → IsConsistent L v
      → has p (L.items v.job_list) ≡ true
      → (t : Shell L.Handle) × ((if b
              then done tt
              else (λ s. and_then (unlink_job L p s) (λ _. delete_job L p)))
            v
          ≡ done tt t)
  finished true v c m = (v, refl)
  finished false v c m =
      let (n, j, at, ran, _, _, _, _) = delete_job-IsConsistent L p v c m in (_, ran)

  -- From a state as wait_for_job-WaitDone asks for it: when waitpid() reports the ends of as many
  -- children of the job as are alive, which no other job has, and the next system call succeeds,
  -- wait_for_job returns, in a state as wait_for_job-WaitDone describes it.
  pub wait_for_job-done :
      (s : Shell L.Handle) (j : Job) (k : ℕ) (more : List Rc)
      → Ready L p s.waits s
      → All (EndsChildOf L p s) s.waits
      → s.jobs p ≡ some j
      → j.num_processes_alive ≡ pos k
      → k ≤ length s.waits
      → s.answers ≡ success ∷ more
      → (t : Shell L.Handle) × (wait_for_job L p s ≡ done tt t) × WaitDone L p t
  unfolding wait_for_job
  wait_for_job-done s j k more r ends at alive enough ans =
      let (rest, t, ran, w, unasked) = wait_loop-Returns L p s.waits s j k r ends at alive enough in
      let u = record t { waits = rest } in
      let b = int_eq w.job.termination_code minus_one in
      let (v, sample, jobs, list, table) = sampled b u more (unasked ∙ ans) in
      let c : IsConsistent L v = rw (jobs, list, table) w.ready.sound.consistent in
      let m : has p (L.items v.job_list) ≡ true = rw list w.ready.listed in
      let (x, end) = finished (is_positive w.job.num_processes_alive) v c m in
      let all : wait_for_job L p s ≡ done tt x =
        rw (r.masked, ran, load_job-done p u w.job w.stored, sample, end) refl in
      (
        x,
        all,
        Keeps-done (λ _ y. WaitDone L p y) (wait_for_job L p s) tt x
            (wait_for_job-WaitDone L p s r.sound r.masked r.listed r.known r.tty) all,
      )
