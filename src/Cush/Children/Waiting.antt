-- ===== src/Cush/Children/Waiting.antt =====
-- wait_for_job: what holds when it returns, and that it does return.
use computer_systems_project.Base.{
  ℕ, ◌≡◌, inl, inr, true, false, Option, some, List, [], ◌∷◌, arith, All, has, ◌==◌, Bool-cases,
  Option-cases, sym, ap, ◌∙◌, ne_of_==, eq_of_==,
}
use computer_systems_project.LinkedList.{LinkedList}
use computer_systems_project.Run.{Keeps, Keeps-mono, Keeps-and_then}
use computer_systems_project.Cush.Sig
use computer_systems_project.Cush.State.{Shell, Job, ChildStatus, Wait, child, wait_error, TtyReady}
use computer_systems_project.Cush.State.Calls.{load_job-done}
use computer_systems_project.Cush.Children.{
  keeps_waiting, handle_child_status, handle_wait, wait_loop,
}
use computer_systems_project.Cush.Children.Effect.{Changed}
use computer_systems_project.Cush.Children.Handling.{
  Sound, Owner, OwnerIn, Told, handle_child_status-Handled,
}

-- waitpid() reports a child of a listed job, or fails.
abbrev pub KnownIn : (ℕ → Option Job) → List ℕ → Wait → Type 0
KnownIn jobs list (child pid c) = OwnerIn jobs list pid
KnownIn jobs list wait_error = Unit

abbrev pub IsKnown : (L : LinkedList) → Shell L.Handle → Wait → Type 0
IsKnown L s = KnownIn s.jobs (L.items s.job_list)

module _ (L : LinkedList) {p : ℕ} {j : Job} {s t : Shell L.Handle} (h : Changed p j s t)
    (at : s.jobs p ≡ some j) where
  pub keep_owner : (pid : ℕ) → Owner L s pid → Owner L t pid
  keep_owner pid o = elim (Bool-cases (o.address == p)) [
    | inl e ↦
        let same : some o.job ≡ some j = sym o.stored ∙ (ap s.jobs (eq_of_== o.address p e) ∙ at) in
        record {
          address = o.address;
          job = h.now;
          listed = rw h.same_list o.listed;
          stored = rw (eq_of_== o.address p e) h.stored;
          member = rw h.same_pids (ground (arith, o.member));
        }
    | inr e ↦ record {
      address = o.address;
      job = o.job;
      listed = rw h.same_list o.listed;
      stored = h.others o.address (ne_of_== o.address p e) ∙ o.stored;
      member = o.member;
    }
  ]

  pub keep-IsKnown : (ws : List Wait) → All (IsKnown L s) ws → All (IsKnown L t) ws
  keep-IsKnown [] k = tt
  keep-IsKnown (child pid d ∷ ws) k = (keep_owner pid k.0, keep-IsKnown ws k.1)
  keep-IsKnown (wait_error ∷ ws) k = (tt, keep-IsKnown ws k.1)

-- What the loop relies on and keeps: the job `p` is listed, and the coming statuses are of children.
pub record Ready (L : LinkedList) (p : ℕ) (ws : List Wait) (s : Shell L.Handle) : Type 0 where
  pub sound : Sound L s
  pub masked : s.blocked_signals Sig.chld ≡ true
  pub listed : has p (L.items s.job_list) ≡ true
  pub known : All (IsKnown L s) ws
  pub tty : TtyReady s

-- The loop has ended: the job is still there, and is no longer a running foreground job. The waits
-- that are left are still known.
pub record Waited (L : LinkedList) (p : ℕ) (ws : List Wait) (t : Shell L.Handle) : Type 0 where
  pub ready : Ready L p ws t
  pub job : Job
  pub stored : t.jobs p ≡ some job
  pub over : keeps_waiting job ≡ false

module _ (L : LinkedList) (p : ℕ) where
  pub Ready-job :
      (ws : List Wait) (s : Shell L.Handle) → Ready L p ws s → (j : Job) × (s.jobs p ≡ some j)
  Ready-job ws s r = elim (Option-cases (s.jobs p)) [
    | inl e ↦ let (n, at, _, _, _) = r.sound.consistent.listed p r.listed in absurd (ground arith)
    | inr found ↦ found
  ]

  pub Told-Ready :
      (ws : List Wait) (s t : Shell L.Handle) (pid : ℕ) (c : ChildStatus)
      (r : Ready L p (child pid c ∷ ws) s)
      → Told L s r.sound r.masked pid c t
      → Ready L p ws t
  Told-Ready ws s t pid c r (sound, (o, h)) = record {
    sound = sound;
    masked = rw h.same_mask r.masked;
    listed = rw h.same_list r.listed;
    known = keep-IsKnown L h.change o.stored ws r.known.1;
    tty = rw h.same_terminal r.tty;
  }

  handle_wait-Ready :
      (w : Wait) (ws : List Wait) (s : Shell L.Handle)
      → Ready L p (w ∷ ws) s
      → Keeps (λ _ t. Ready L p ws t) (handle_wait L w s)
  unfolding handle_wait
  handle_wait-Ready (child pid c) ws s r =
      Keeps-mono (λ _ t. Told L s r.sound r.masked pid c t) (λ _ t. Ready L p ws t)
        (handle_child_status L pid c s)
        (handle_child_status-Handled L s r.sound r.masked pid c r.known.0)
        λ _ t told. Told-Ready ws s t pid c r told
  handle_wait-Ready wait_error ws s r = tt

  pub wait_loop-Waited :
      (ws : List Wait) (s : Shell L.Handle)
      → Ready L p ws s
      → Keeps (λ rest t. Waited L p rest t) (wait_loop L p ws s)
  unfolding wait_loop
  wait_loop-Waited [] s r =
      let (j, at) = Ready-job [] s r in
      rw (load_job-done p s j at) (elim (Bool-cases (keeps_waiting j)) [
        | inl e ↦ rw e tt
        | inr e ↦ rw e (record { ready = r; job = j; stored = at; over = e })
      ])
  wait_loop-Waited (w ∷ ws) s r =
      let (j, at) = Ready-job (w ∷ ws) s r in
      rw (load_job-done p s j at) (elim (Bool-cases (keeps_waiting j)) [
        | inl e ↦ rw e (
            Keeps-and_then (λ _ t. Ready L p ws t) (λ rest t. Waited L p rest t) (handle_wait L w s)
              (λ _. wait_loop L p ws) (handle_wait-Ready w ws s r)
              λ _ t r'. wait_loop-Waited ws t r')
        | inr e ↦ rw e (record { ready = r; job = j; stored = at; over = e })
      ])
