-- ===== src/Cush/Builtins/Foreground.antt =====
-- fg: the job gets the terminal, and the shell gets it back.
use computer_systems_project.Base.{
  ℕ, ◌≡◌, refl, inl, inr, Bool, true, false, Option, none, some, List, [], ◌∷◌, ◌++◌, All, has,
  Bool-cases, subst, sym, ◌∙◌, if◌then◌else◌, update, update_same, update_other,
}
use computer_systems_project.LinkedList.{LinkedList}
use computer_systems_project.Run.{Keeps, Keeps-mono, Keeps-and_then, and_then}
use computer_systems_project.Cush.Sig
use computer_systems_project.Cush.Ast.{Token, str}
use computer_systems_project.Cush.State.{Shell, Job, foreground, killpg, TtyReady, Termios}
use computer_systems_project.Cush.State.Calls.{load_job-done, killpg-Keeps}
use computer_systems_project.Cush.Term.{
  termstate_give_terminal_to, termstate_give_terminal_back_to_shell,
}
use computer_systems_project.Cush.Term.Frame.{Handed, give_terminal-Handed, give_back-Handed}
use computer_systems_project.Cush.Jobs.{print_cmdline}
use computer_systems_project.Cush.Children.{wait_for_job}
use computer_systems_project.Cush.Children.Effect.{Changed}
use computer_systems_project.Cush.Children.Handling.{Sound, Changed-Sound}
use computer_systems_project.Cush.Children.Waiting.{IsKnown, keep-IsKnown}
use computer_systems_project.Cush.Children.Finish.{WaitDone, wait_for_job-WaitDone}
use computer_systems_project.Cush.Builtins.{leader, is_halted, continue_job, resume, fg_job}

-- A listed job, and a shell that can wait for it.
pub record CanWait (L : LinkedList) (p : ℕ) (j : Job) (s : Shell L.Handle) : Type 0 where
  pub sound : Sound L s
  pub masked : s.blocked_signals Sig.chld ≡ true
  pub listed : has p (L.items s.job_list) ≡ true
  pub stored : s.jobs p ≡ some j
  pub known : All (IsKnown L s) s.waits
  pub tty : TtyReady s

-- The builtin has ended: SIGCHLD is still blocked, and the shell owns the terminal.
pub record BackAtShell (L : LinkedList) (t : Shell L.Handle) : Type 0 where
  pub sound : Sound L t
  pub masked : t.blocked_signals Sig.chld ≡ true
  pub owns_terminal : t.terminal.owner ≡ t.terminal.shell_pgrp

module _ (L : LinkedList) where
  pub give_back-BackAtShell :
      (s : Shell L.Handle)
      → Sound L s
      → s.blocked_signals Sig.chld ≡ true
      → TtyReady s
      → Keeps (λ _ t. BackAtShell L t) (termstate_give_terminal_back_to_shell s)
  give_back-BackAtShell s v masked tty =
      Keeps-mono (λ _ t. Handed s t s.terminal.shell_pgrp) (λ _ t. BackAtShell L t) _
        (give_back-Handed s tty)
        λ _ t h. record {
          sound =
              subst (Sound L) (sym h.same)
                (record { consistent = v.consistent; filled = v.filled });
          masked =
              subst (λ (u : Shell L.Handle). u.blocked_signals Sig.chld ≡ true) (sym h.same) masked;
          owns_terminal = h.owner ∙ sym h.same_group;
        }

  module _ (p : ℕ) where
    -- The wait of fg and of a new foreground job, with what follows it.
    pub wait_and_give_back :
        (j : Job) (s : Shell L.Handle)
        → CanWait L p j s
        → Keeps
            (λ _ t. BackAtShell L t)
            (and_then (wait_for_job L p s) (λ _. termstate_give_terminal_back_to_shell))
    wait_and_give_back j s c =
        Keeps-and_then (λ _ t. WaitDone L p t) (λ _ t. BackAtShell L t) (wait_for_job L p s) _
          (wait_for_job-WaitDone L p s c.sound c.masked c.listed c.known c.tty)
          λ _ t (sound, masked, tty, _). give_back-BackAtShell t sound masked tty

    -- `found_job->status = FOREGROUND`
    to_front :
        (j : Job) (s : Shell L.Handle)
        → Changed p j s
            (record s { jobs = update s.jobs p (some (record j { status = foreground })) })
    to_front j s = record {
      now = record j { status = foreground };
      stored = update_same s.jobs p (some (record j { status = foreground }));
      others = update_other s.jobs p (some (record j { status = foreground }));
      same_list = refl;
      same_table = refl;
      same_jid = refl;
      same_pipe = refl;
      same_pids = refl;
    }

    resume-BackAtShell :
        (b : Bool) (j : Job) (s : Shell L.Handle)
        → CanWait L p j s
        → Keeps (λ _ t. BackAtShell L t) (resume L p b s)
    unfolding resume
    resume-BackAtShell false j s c = give_back-BackAtShell s c.sound c.masked c.tty
    resume-BackAtShell true j s c =
        let change = to_front j s in
        rw (load_job-done p s j c.stored) (
          wait_and_give_back change.now _ (record {
            sound = Changed-Sound L change c.stored c.sound;
            masked = c.masked;
            listed = c.listed;
            stored = change.stored;
            known = keep-IsKnown L change c.stored s.waits c.known;
            tty = c.tty;
          }))

    Handed-CanWait :
        {j : Job} (s t : Shell L.Handle) (group : ℕ)
        → Handed s t group
        → CanWait L p j s
        → CanWait L p j t
    Handed-CanWait {j} s t group h c = subst (CanWait L p j) (sym h.same) (record {
      sound = record { consistent = c.sound.consistent; filled = c.sound.filled };
      masked = c.masked;
      listed = c.listed;
      stored = c.stored;
      known = c.known;
      tty = rw (h.same_fd, h.same_group) c.tty;
    })

    continue-CanWait :
        {j : Job} (group : ℕ) (s : Shell L.Handle)
        → CanWait L p j s
        → Keeps (λ _ t. CanWait L p j t) (continue_job L group j s)
    unfolding continue_job
    continue-CanWait {j} group s c = elim (Bool-cases (is_halted j.status)) [
      | inl e ↦ rw e (
          Keeps-mono _ (λ _ t. CanWait L p j t) (killpg group Sig.cont s)
            (killpg-Keeps group s group Sig.cont)
            λ b t (same, _). subst (CanWait L p j) (sym same) (record {
              sound = record { consistent = c.sound.consistent; filled = c.sound.filled };
              masked = c.masked;
              listed = c.listed;
              stored = c.stored;
              known = c.known;
              tty = c.tty;
            }))
      | inr e ↦ rw e c
    ]

    -- fg of a listed job that has a command line and a leader, with the job list sound, SIGCHLD
    -- blocked and the terminal initialised: where waitpid() reports only children of listed jobs, fg
    -- does not crash, whatever the other system calls answer, and also where SIGCONT cannot be sent.
    -- Where it returns, the job list is sound, SIGCHLD is still blocked and the terminal is the
    -- shell's again.
    pub fg_job-BackAtShell :
        (j : Job) (ts : List Token) (group : ℕ) (s : Shell L.Handle)
        → CanWait L p j s
        → print_cmdline j.pipe ≡ some ts
        → leader j ≡ some group
        → Keeps (λ _ t. BackAtShell L t) (fg_job L p s)
    unfolding fg_job
    fg_job-BackAtShell j ts group s c printed led =
        rw (load_job-done p s j c.stored, printed, led)
          (Keeps-and_then (λ _ t. CanWait L p j t) (λ _ t. BackAtShell L t)
            (termstate_give_terminal_to settings group u) _
            (Keeps-mono (λ _ t. Handed u t group) (λ _ t. CanWait L p j t) _
              (give_terminal-Handed settings group u c.tty)
              λ _ t h. Handed-CanWait u t group h u_ready)
            λ _ t c'.
              Keeps-and_then (λ _ v. CanWait L p j v) (λ _ v. BackAtShell L v)
                (continue_job L group j t) _ (continue-CanWait group t c')
                λ b v c''. resume-BackAtShell b j v c'')
      where
        u : Shell L.Handle
        u = record s { out = s.out ++ (ts ++ str "\n" ∷ []) }

        settings : Option Termios
        settings = if j.state_saved_previously then some j.saved_tty_state else none

        u_ready : CanWait L p j u
        u_ready = record {
          sound = record { consistent = c.sound.consistent; filled = c.sound.filled };
          masked = c.masked;
          listed = c.listed;
          stored = c.stored;
          known = c.known;
          tty = c.tty;
        }
