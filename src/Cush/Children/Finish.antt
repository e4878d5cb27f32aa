-- ===== src/Cush/Children/Finish.antt =====
-- The end of wait_for_job: the job is deleted where no child is left, and kept otherwise.
use computer_systems_project.Base.{
  ℕ, ◌≡◌, refl, inl, inr, ◌≢◌, ◌⊎◌, true, false, none, some, List, arith, All, has, erase, ◌==◌,
  Bool-cases, subst, sym, ◌∙◌, ne_of_==, eq_of_==, is_positive, has-erase_self, has-erase_other,
  if◌then◌else◌, int_eq, minus_one,
}
use computer_systems_project.LinkedList.{LinkedList}
use computer_systems_project.Run.{done, Keeps, Keeps-mono, Keeps-and_then, and_then}
use computer_systems_project.Cush.Sig
use computer_systems_project.Cush.State.{Shell, Job, Wait, load_job, TtyReady}
use computer_systems_project.Cush.State.Calls.{load_job-done}
use computer_systems_project.Cush.Term.{termstate_sample}
use computer_systems_project.Cush.Term.Frame.{termstate_sample-Keeps}
use computer_systems_project.Cush.Jobs.{unlink_job, delete_job}
use computer_systems_project.Cush.Jobs.Deletion.{delete_job-IsConsistent, without_job}
use computer_systems_project.Cush.Children.{is_foreground, keeps_waiting, wait_loop, wait_for_job}
use computer_systems_project.Cush.Children.Owner.{AllFilled}
use computer_systems_project.Cush.Children.Handling.{Sound}
use computer_systems_project.Cush.Children.Waiting.{IsKnown, Waited, wait_loop-Waited}

-- The job `j` is listed and stored at `p`.
record Parked (L : LinkedList) (p : ℕ) (j : Job) (s : Shell L.Handle) : Type 0 where
  sound : Sound L s
  masked : s.blocked_signals Sig.chld ≡ true
  listed : has p (L.items s.job_list) ≡ true
  stored : s.jobs p ≡ some j
  tty : TtyReady s

-- Either the job is gone from heap and list, or it lives on and does not run in the foreground.
abbrev pub GoneOrBackground : (L : LinkedList) → ℕ → Shell L.Handle → Type 0
GoneOrBackground L p t =
    ((t.jobs p ≡ none) × (has p (L.items t.job_list) ≡ false))
    ⊎ ((j : Job) × (t.jobs p ≡ some j)
        × (has p (L.items t.job_list) ≡ true)
        × (is_foreground j.status ≡ false)
        × (is_positive j.num_processes_alive ≡ true))

abbrev pub WaitDone : (L : LinkedList) → ℕ → Shell L.Handle → Type 0
WaitDone L p t =
    Sound L t × (t.blocked_signals Sig.chld ≡ true) × TtyReady t × (GoneOrBackground L p t)

module _ (L : LinkedList) (p : ℕ) where
  module _ (s : Shell L.Handle) (v : Sound L s) (m : has p (L.items s.job_list) ≡ true) where
    filled_without :
        (n : ℕ) (j : Job)
        → L.items (without_job L p s n j).job_list ≡ erase p (L.items s.job_list)
        → ((q : ℕ) → q ≢ p → (without_job L p s n j).jobs q ≡ s.jobs q)
        → AllFilled (without_job L p s n j).jobs (L.items (without_job L p s n j).job_list)
    filled_without n j gone kept q k m' at' = elim (Bool-cases (q == p)) [
      | inl e ↦
          let out = has-erase_self p (L.items s.job_list) v.consistent.distinct in
          let in_erased : has p (erase p (L.items s.job_list)) ≡ true =
            subst (λ x. has x (erase p (L.items s.job_list)) ≡ true) (eq_of_== q p e)
              (subst (λ l. has q l ≡ true) gone m') in
          absurd (ground arith)
      | inr e ↦
          let ne = ne_of_== q p e in
          v.filled q k
            (sym (has-erase_other p q (L.items s.job_list) ne)
              ∙ subst (λ l. has q l ≡ true) gone m')
            (sym (kept q ne) ∙ at')
    ]

    -- delete_job of a listed job, as a step between sound states
    pub delete_job-Sound :
        Keeps
          (λ _ t.
            Sound L t
            × (t.jobs p ≡ none)
            × (has p (L.items t.job_list) ≡ false)
            × (t.blocked_signals ≡ s.blocked_signals)
            × (t.terminal ≡ s.terminal))
          (and_then (unlink_job L p s) (λ _. delete_job L p))
    delete_job-Sound =
        let (n, j, at, ran, gone, none_left, kept, c) =
          delete_job-IsConsistent L p s v.consistent m in
        rw ran (
          record { consistent = c; filled = filled_without n j gone kept },
          none_left,
          rw gone (has-erase_self p (L.items s.job_list) v.consistent.distinct),
          refl,
          refl,
        )

  finish-WaitDone :
      (j : Job) (u : Shell L.Handle)
      → Parked L p j u
      → keeps_waiting j ≡ false
      → Keeps
          (λ _ t. WaitDone L p t)
          ((if is_positive j.num_processes_alive
              then done tt
              else (λ s. and_then (unlink_job L p s) (λ _. delete_job L p)))
            u)
  unfolding keeps_waiting
  finish-WaitDone j u k over = elim (Bool-cases (is_positive j.num_processes_alive)) [
    | inl e ↦ rw e (k.sound, k.masked, k.tty, inr (j, k.stored, k.listed, ground arith, e))
    | inr e ↦ rw e (
        Keeps-mono _ (λ _ t. WaitDone L p t) (and_then (unlink_job L p u) (λ _. delete_job L p))
          (delete_job-Sound u k.sound k.listed)
          λ _ t (sound, gone, out, mask, same).
            (sound, rw mask k.masked, rw same k.tty, inl (gone, out)))
  ]

  sample-Parked :
      (j : Job) (u : Shell L.Handle)
      → Parked L p j u
      → Keeps
          (λ _ t. Parked L p j t)
          ((if int_eq j.termination_code minus_one then termstate_sample else done tt) u)
  sample-Parked j u k = elim (Bool-cases (int_eq j.termination_code minus_one)) [
    | inl e ↦ rw e (
        Keeps-mono _ (λ _ t. Parked L p j t) (termstate_sample u) (termstate_sample-Keeps u)
          λ _ t same. rw same (record {
            sound = record { consistent = k.sound.consistent; filled = k.sound.filled };
            masked = k.masked;
            listed = k.listed;
            stored = k.stored;
            tty = k.tty;
          }))
    | inr e ↦ rw e k
  ]

  -- Where the job list is sound, SIGCHLD is blocked and the terminal is initialised, wait_for_job
  -- of a listed job, for which waitpid() reports children of listed jobs only, does not crash.
  -- When it returns, the job list is sound, SIGCHLD is still blocked, and the job is either
  -- deleted or has a child left and does not run in the foreground.
  pub wait_for_job-WaitDone :
      (s : Shell L.Handle)
      → Sound L s
      → s.blocked_signals Sig.chld ≡ true
      → has p (L.items s.job_list) ≡ true
      → All (IsKnown L s) s.waits
      → TtyReady s
      → Keeps (λ _ t. WaitDone L p t) (wait_for_job L p s)
  unfolding wait_for_job
  wait_for_job-WaitDone s v masked m known tty = rw masked (
      Keeps-and_then (λ rest t. Waited L p rest t) (λ _ t. WaitDone L p t) (wait_loop L p s.waits s)
        _
        (wait_loop-Waited L p s.waits s
          (record { sound = v; masked = masked; listed = m; known = known; tty = tty }))
        λ rest t w. after_loop rest t w)
    where
      after_loop :
          (rest : List Wait) (t : Shell L.Handle)
          → Waited L p rest t
          → Keeps
              (λ _ u. WaitDone L p u)
              (and_then (load_job p (record t { waits = rest })) (λ j. λ u.
                and_then
                  ((if int_eq j.termination_code minus_one then termstate_sample else done tt) u)
                  (λ _.
                    if is_positive j.num_processes_alive
                    then done tt
                    else (λ s. and_then (unlink_job L p s) (λ _. delete_job L p)))))
      after_loop rest t w =
          let u = record t { waits = rest } in
          rw (load_job-done p u w.job w.stored) (
            Keeps-and_then (λ _ x. Parked L p w.job x) (λ _ x. WaitDone L p x)
              ((if int_eq w.job.termination_code minus_one then termstate_sample else done tt) u) _
              (sample-Parked w.job u (record {
                sound = record {
                  consistent = w.ready.sound.consistent;
                  filled = w.ready.sound.filled;
                };
                masked = w.ready.masked;
                listed = w.ready.listed;
                stored = w.stored;
                tty = w.ready.tty;
              }))
              λ _ x k. finish-WaitDone w.job x k w.over)
