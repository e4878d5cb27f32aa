-- ===== src/Cush/Spawn/Launching.antt =====
-- What follows the start of the children: a new job, which runs in the background or is waited for.
use computer_systems_project.Base.{
  ℕ, ◌<◌, ◌≡◌, ◌≢◌, refl, ap, sym, subst, ◌∙◌, inl, inr, ◌⊎◌, Bool, true, false, none, some, List,
  [], ◌∷◌, ◌++◌, arith, All, has, has-append, length, get_elem?, ◌==◌, Bool-cases, eq_of_==,
  ne_of_==, update, update_same, update_other, pos, minus_one, if◌then◌else◌,
}
use computer_systems_project.LinkedList.{LinkedList}
use computer_systems_project.Run.{done, Command, ◌>>◌, and_then, pure, Keeps, Keeps-and_then}
use computer_systems_project.Cush.Sig
use computer_systems_project.Cush.Ast.{AstPipeline, str, int}
use computer_systems_project.Cush.State.{
  Shell, Job, background, foreground, max_jobs, Wait, child, wait_error, TtyReady,
}
use computer_systems_project.Cush.State.Calls.{load_job-done}
use computer_systems_project.Cush.Signals.{signal_unblock}
use computer_systems_project.Cush.Jobs.{add_job}
use computer_systems_project.Cush.Jobs.Slots.{IsFirstFree}
use computer_systems_project.Cush.Jobs.Consistent.{IsConsistent, jid_of}
use computer_systems_project.Cush.Jobs.Insertion.{add_job-IsFirstFree, with_job, new_job}
use computer_systems_project.Cush.Children.Owner.{AllFilled}
use computer_systems_project.Cush.Children.Handling.{Sound, Owner, Agree-jobs}
use computer_systems_project.Cush.Children.Waiting.{IsKnown}
use computer_systems_project.Cush.Builtins.Foreground.{CanWait, BackAtShell, wait_and_give_back}
use computer_systems_project.Cush.Spawn.{launch, settle}

module _ (L : LinkedList) (p : ℕ) (raw : Job) (pipe : AstPipeline) (pids : List ℕ)
    (s : Shell L.Handle) where
  -- The job of the children, under the jid `i`.
  abbrev pub started_job : ℕ → Job
  started_job i = record (new_job raw pipe i) {
    num_processes_alive = pos (length pids);
    child_pid_array = pids;
    termination_code = minus_one;
    state_saved_previously = false;
    status = if pipe.bg_job then background else foreground;
  }

  abbrev pub with_started : ℕ → Shell L.Handle
  with_started i = record (with_job L p raw pipe s i) {
    jobs = update (with_job L p raw pipe s i).jobs p (some (started_job i));
  }

  -- There is one pid for each command, a place in the table, and memory for the job.
  pub record CanLaunch : Type 0 where
    pub sound : Sound L s
    pub fresh : s.jobs p ≡ none
    pub count : length pids ≡ length pipe.commands
    pub slot : ℕ
    pub slot_low : 0 < slot
    pub slot_high : slot < max_jobs
    pub slot_free : s.jid2job slot ≡ none

  -- waitpid() reports one of the new children or a child of a listed job, or fails.
  abbrev pub Expected : Wait → Type 0
  Expected (child pid d) = (has pid pids ≡ true) ⊎ Owner L s pid
  Expected wait_error = Unit

  module _ (c : CanLaunch) (i : ℕ) (kept : IsConsistent L (with_job L p raw pipe s i))
      (items : L.items (with_job L p raw pipe s i).job_list ≡ L.items s.job_list ++ p ∷ []) where
    new : (with_started i).jobs p ≡ some (started_job i)
    new = update_same (with_job L p raw pipe s i).jobs p (some (started_job i))

    others : (q : ℕ) → q ≢ p → (with_started i).jobs q ≡ s.jobs q
    others q h =
        update_other (with_job L p raw pipe s i).jobs p (some (started_job i)) q h
        ∙ update_other s.jobs p (some (new_job raw pipe i)) q h

    new_listed : has p (L.items (with_started i).job_list) ≡ true
    new_listed = rw items (ground (arith, has-append p (L.items s.job_list) (p ∷ [])))

    same_jids :
        (q : ℕ) → jid_of ((with_started i).jobs q) ≡ jid_of ((with_job L p raw pipe s i).jobs q)
    same_jids q = elim (Bool-cases (q == p)) [
      | inl e ↦
          subst
            (λ x. jid_of ((with_started i).jobs x) ≡ jid_of ((with_job L p raw pipe s i).jobs x))
            (sym (eq_of_== q p e))
            (ap jid_of new ∙ sym (ap jid_of (update_same s.jobs p (some (new_job raw pipe i)))))
      | inr e ↦ ap jid_of (
          update_other (with_job L p raw pipe s i).jobs p (some (started_job i)) q (ne_of_== q p e))
    ]

    all_filled : AllFilled (with_started i).jobs (L.items (with_started i).job_list)
    all_filled q j m at = elim (Bool-cases (q == p)) [
      | inl e ↦
          let same : some j ≡ some (started_job i) =
            sym at ∙ (ap (with_started i).jobs (eq_of_== q p e) ∙ new) in
          ground (arith, c.count)
      | inr e ↦
          let m' : has q (L.items s.job_list ++ p ∷ []) ≡ true =
            subst (λ l. has q l ≡ true) items m in
          c.sound.filled q j (ground (arith, has-append q (L.items s.job_list) (p ∷ [])))
            (sym (others q (ne_of_== q p e)) ∙ at)
    ]

    started-Sound : Sound L (with_started i)
    started-Sound = record {
      consistent =
          Agree-jobs (with_job L p raw pipe s i).jobs (with_started i).jobs
            (L.items (with_started i).job_list) (with_started i).jid2job same_jids kept;
      filled = all_filled;
    }

    Expected-IsKnown : (ws : List Wait) → All Expected ws → All (IsKnown L (with_started i)) ws
    Expected-IsKnown [] h = tt
    Expected-IsKnown (wait_error ∷ ws) h = (tt, Expected-IsKnown ws h.1)
    Expected-IsKnown (child pid d ∷ ws) (inl own, h) = (
      record { address = p; job = started_job i; listed = new_listed; stored = new; member = own },
      Expected-IsKnown ws h,
    )
    Expected-IsKnown (child pid d ∷ ws) (inr o, h) = (
      record {
        address = o.address;
        job = o.job;
        listed =
            rw items (ground (arith, has-append o.address (L.items s.job_list) (p ∷ []), o.listed));
        stored = others o.address (not_new o.address o.job o.stored) ∙ o.stored;
        member = o.member;
      },
      Expected-IsKnown ws h,
    )
      where
        not_new : (q : ℕ) (j : Job) → s.jobs q ≡ some j → q ≢ p
        not_new q j at same = let both : some j ≡ none = sym at ∙ (ap s.jobs same ∙ c.fresh) in cc

  abbrev unblock : Command (Shell L.Handle) Bool
  unblock = signal_unblock Sig.chld >> pure false

  launch-settles :
      (i : ℕ)
      → add_job L p raw pipe s ≡ done p (with_job L p raw pipe s i)
      → launch L p raw pipe pids s
        ≡ and_then (settle L pipe.bg_job p (pos i) pids (with_started i)) (λ _. unblock)
  unfolding launch
  launch-settles i ran =
      rw
        (
          ran,
          load_job-done p (with_job L p raw pipe s i) (new_job raw pipe i)
              (update_same s.jobs p (some (new_job raw pipe i))),
        )
        refl

  -- The shell is as main asserts before the prompt: SIGCHLD can be delivered, and the shell owns the
  -- terminal.
  pub record AtPrompt (t : Shell L.Handle) : Type 0 where
    pub sound : Sound L t
    pub unmasked : t.blocked_signals Sig.chld ≡ false
    pub owns_terminal : t.terminal.owner ≡ t.terminal.shell_pgrp

  -- A foreground pipeline whose children have started, one for each command, with the job list
  -- sound, an index of the table free, SIGCHLD blocked and the terminal initialised: where
  -- waitpid() reports these children or children of earlier jobs, the launch does not crash, and
  -- when it returns, which is with false, the job list is sound, SIGCHLD is not blocked and the
  -- shell owns the terminal.
  pub launch-AtPrompt :
      CanLaunch
      → pipe.bg_job ≡ false
      → s.blocked_signals Sig.chld ≡ true
      → TtyReady s
      → All Expected s.waits
      → Keeps (λ r t. (r ≡ false) × AtPrompt t) (launch L p raw pipe pids s)
  unfolding settle signal_unblock
  launch-AtPrompt c front masked tty waits =
      let (i, ran, first, items, kept) =
        add_job-IsFirstFree L p raw pipe s c.slot c.slot_low c.slot_high c.slot_free
          c.sound.consistent c.fresh in
      let ready : CanWait L p (started_job i) (with_started i) = record {
        sound = started-Sound c i kept items;
        masked = masked;
        listed = new_listed c i kept items;
        stored = new c i kept items;
        known = Expected-IsKnown c i kept items s.waits waits;
        tty = tty;
      } in
      subst (Keeps (λ r t. (r ≡ false) × AtPrompt t)) (sym (launch-settles i ran)) (
        subst
          (λ b.
            Keeps (λ r t. (r ≡ false) × AtPrompt t)
              (and_then (settle L b p (pos i) pids (with_started i)) (λ _. unblock)))
          (sym front)
          (Keeps-and_then (λ _ t. BackAtShell L t) (λ r t. (r ≡ false) × AtPrompt t)
            (settle L false p (pos i) pids (with_started i)) (λ _. unblock)
            (wait_and_give_back L p (started_job i) (with_started i) ready)
            λ _ t k. (
              refl,
              record {
                sound = record { consistent = k.sound.consistent; filled = k.sound.filled };
                unmasked = refl;
                owns_terminal = k.owns_terminal;
              },
            )))

  -- A background pipeline whose children have started, one for each command, with the job list
  -- sound and an index of the table free, becomes a job under the least free jid, with all
  -- children counted as alive. It stands in the table and behind all listed jobs, the other jobs
  -- and entries are as they were, and the shell prints the jid and the first pid. The launch
  -- returns false at once, before a SIGCHLD that is pending is handled: the list of jobs is sound,
  -- SIGCHLD is not blocked, and the terminal is untouched.
  pub launch-background :
      (pid : ℕ)
      → CanLaunch
      → pipe.bg_job ≡ true
      → get_elem? pids 0 ≡ some pid
      → (i : ℕ) × (t : Shell L.Handle) × (launch L p raw pipe pids s ≡ done false t)
        × IsFirstFree s.jid2job 1 i
        × (t.jobs p ≡ some (record (started_job i) { status = background }))
        × ((q : ℕ) → q ≢ p → t.jobs q ≡ s.jobs q)
        × (L.items t.job_list ≡ L.items s.job_list ++ p ∷ [])
        × (t.jid2job ≡ update s.jid2job i (some p))
        × (t.out ≡ s.out ++ (str "[" ∷ int (pos i) ∷ str "] " ∷ int (pos pid) ∷ str "\n" ∷ []))
        × Sound L t
        × (t.blocked_signals Sig.chld ≡ false)
        × (t.terminal ≡ s.terminal)
  unfolding settle signal_unblock
  launch-background pid c back head =
      let (i, ran, first, items, kept) =
        add_job-IsFirstFree L p raw pipe s c.slot c.slot_low c.slot_high c.slot_free
          c.sound.consistent c.fresh in
      let sound = started-Sound c i kept items in
      let settled =
        ap (λ b. and_then (settle L b p (pos i) pids (with_started i)) (λ _. unblock)) back in
      (
        i,
        record (with_started i) {
          out = s.out ++ (str "[" ∷ int (pos i) ∷ str "] " ∷ int (pos pid) ∷ str "\n" ∷ []);
          blocked_signals = update s.blocked_signals Sig.chld false;
        },
        launch-settles i ran ∙ (settled ∙ rw head refl),
        first,
        new c i kept items
            ∙ ap
                (λ b.
                  some (record (started_job i) { status = if b then background else foreground }))
                back,
        others c i kept items,
        items,
        refl,
        refl,
        record { consistent = sound.consistent; filled = sound.filled },
        refl,
        refl,
      )
