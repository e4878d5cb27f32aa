-- ===== src/Cush/Term/Frame.antt =====
-- The functions on the terminal change nothing but the terminal, the signal mask and the answers
-- that are left.
use computer_systems_project.Base.{
  ℕ, ◌≡◌, refl, true, false, Option, none, some, List, [], ◌∷◌, update,
}
use computer_systems_project.Run.{Keeps, Keeps-and_then}
use computer_systems_project.Cush.Sig
use computer_systems_project.Cush.State.{Shell, Rc, success, interrupted, failure, TtyReady}
use computer_systems_project.Cush.Term.{
  termstate_save, termstate_sample, restore_attempts, restore_if, termstate_restore,
  termstate_give_terminal_to, termstate_give_terminal_back_to_shell,
}

module _ {H : Type 0} where
  -- termstate_save returns the settings of the terminal, or the shell exits.
  pub termstate_save-Keeps :
      (s : Shell H)
      → Keeps
          (λ v t. (v ≡ s.terminal.settings) × (t ≡ record s { answers = t.answers }))
          (termstate_save s)
  unfolding termstate_save
  termstate_save-Keeps s = go s.answers refl
    where
      go :
          (l : List Rc)
          → s.answers ≡ l
          → Keeps
              (λ v t. (v ≡ s.terminal.settings) × (t ≡ record s { answers = t.answers }))
              (termstate_save s)
      go [] e = rw (e, termstate_save) tt
      go (success ∷ rest) e = rw (e, termstate_save) (refl, refl)
      go (interrupted ∷ rest) e = rw (e, termstate_save) tt
      go (failure ∷ rest) e = rw (e, termstate_save) tt

  -- termstate_sample stores those settings as the shell's.
  pub termstate_sample-Keeps :
      (s : Shell H)
      → Keeps
          (λ _ t. t ≡ record s {
            answers = t.answers;
            terminal = record (s.terminal) { saved_tty_state = s.terminal.settings };
          })
          (termstate_sample s)
  unfolding termstate_sample termstate_save
  termstate_sample-Keeps s = go s.answers refl
    where
      go :
          (l : List Rc)
          → s.answers ≡ l
          → Keeps
              (λ _ t. t ≡ record s {
                answers = t.answers;
                terminal = record (s.terminal) { saved_tty_state = s.terminal.settings };
              })
              (termstate_sample s)
      go [] e = rw (e, termstate_sample) tt
      go (success ∷ rest) e = rw (e, termstate_sample) refl
      go (interrupted ∷ rest) e = rw (e, termstate_sample) tt
      go (failure ∷ rest) e = rw (e, termstate_sample) tt

  -- What changes in the shell when the terminal changes hands: SIGTTOU ends up unblocked.
  pub record Handed (s t : Shell H) (group : ℕ) : Type 0 where
    pub owner : t.terminal.owner ≡ group
    pub same_fd : t.terminal.terminal_fd ≡ s.terminal.terminal_fd
    pub same_group : t.terminal.shell_pgrp ≡ s.terminal.shell_pgrp
    pub same_saved : t.terminal.saved_tty_state ≡ s.terminal.saved_tty_state
    pub same : t ≡ record s {
      answers = t.answers;
      terminal = t.terminal;
      blocked_signals = update (update s.blocked_signals Sig.ttou true) Sig.ttou false;
    }

  abbrev restored : Shell H → ℕ → List Rc → Shell H
  restored s v left = record s { answers = left; terminal = record (s.terminal) { settings = v } }

  restore_attempts-Keeps :
      (l : List Rc) (v : ℕ) (s : Shell H)
      → Keeps (λ _ t. t ≡ restored s v t.answers) (restore_attempts l v s)
  unfolding restore_attempts
  restore_attempts-Keeps [] v s = tt
  restore_attempts-Keeps (success ∷ rest) v s = refl
  restore_attempts-Keeps (interrupted ∷ rest) v s = restore_attempts-Keeps rest v s
  restore_attempts-Keeps (failure ∷ rest) v s = tt

  -- Once the terminal is initialised, termstate_give_terminal_to does not crash. When it returns,
  -- the group owns the terminal, SIGTTOU is not blocked, and nothing else of the shell has changed
  -- but the settings of the terminal and the answers of system calls.
  pub give_terminal-Handed :
      (settings : Option ℕ) (group : ℕ) (s : Shell H)
      → TtyReady s
      → Keeps (λ _ t. Handed s t group) (termstate_give_terminal_to settings group s)
  unfolding termstate_give_terminal_to restore_if termstate_restore
  give_terminal-Handed settings group s ready = go settings s.answers refl
    where
      go :
          (o : Option ℕ) (l : List Rc)
          → s.answers ≡ l
          → Keeps (λ _ t. Handed s t group) (termstate_give_terminal_to o group s)
      go o [] e = rw (e, ready.0, termstate_give_terminal_to) tt
      go none (success ∷ rest) e =
          rw (e, ready.0, termstate_give_terminal_to)
            (record {
              owner = refl;
              same_fd = refl;
              same_group = refl;
              same_saved = refl;
              same = refl;
            })
      go (some v) (success ∷ rest) e =
          rw (e, ready.0, termstate_give_terminal_to)
            (let u = record s {
              blocked_signals = update s.blocked_signals Sig.ttou true;
              terminal = record (s.terminal) { owner = group };
              answers = rest;
            } in
              Keeps-and_then (λ _ t. t ≡ restored u v t.answers) _ (restore_attempts rest v u) _
                (restore_attempts-Keeps rest v u)
                λ _ t same. rw same (record {
                  owner = refl;
                  same_fd = refl;
                  same_group = refl;
                  same_saved = refl;
                  same = refl;
                }))
      go o (interrupted ∷ rest) e = rw (e, ready.0, termstate_give_terminal_to) tt
      go o (failure ∷ rest) e = rw (e, ready.0, termstate_give_terminal_to) tt

  -- The shell takes the terminal back.
  pub give_back-Handed :
      (s : Shell H)
      → TtyReady s
      → Keeps (λ _ t. Handed s t s.terminal.shell_pgrp) (termstate_give_terminal_back_to_shell s)
  unfolding termstate_give_terminal_back_to_shell
  give_back-Handed s ready =
      rw ready.1
        (give_terminal-Handed (some s.terminal.saved_tty_state) s.terminal.shell_pgrp s ready)
