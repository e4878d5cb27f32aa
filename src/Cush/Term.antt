-- ===== src/Cush/Term.antt =====
-- termstate_management.c: who owns the terminal, and its settings.
pub mod Frame
use computer_systems_project.Base.{
  ℕ, zero, suc, ◌≡◌, refl, Bool, true, false, Option, none, some, List, [], ◌∷◌, arith, ltb, int_eq,
  ℤ, pos, negsuc, minus_one, not,
}
use computer_systems_project.Run.{
  Outcome, done, crash, exited, blocked, Command, and_then, ◌>>=◌, ◌>>◌, pure, require, get, modify,
}
use computer_systems_project.Cush.Sig
use computer_systems_project.Cush.Signals.{signal_block, signal_unblock}
use computer_systems_project.Cush.State.{
  Shell, Termios, Terminal, Rc, success, interrupted, failure, system_call, fatal_error,
}

module _ {H : Type 0} where
  abbrev set_terminal : Terminal → Command (Shell H) (Unit {0})
  set_terminal t = modify λ s. record s { terminal = t }

  -- termstate_save, with the settings that it reads as its result
  unfoldable pub termstate_save : Command (Shell H) Termios
  unfolding system_call fatal_error
  termstate_save = do
    rc ← system_call
    s ← get
    elim rc [ success ↦ pure s.terminal.settings | _ ↦ fatal_error "tcgetattr failed: " ]

  unfoldable pub termstate_sample : Command (Shell H) (Unit {0})
  unfolding termstate_save
  termstate_sample = do
    t ← termstate_save
    modify λ s. record s { terminal = record (s.terminal) { saved_tty_state = t } }

  -- The attempts of `retry:`, one answer of tcsetattr() for each.
  restore_attempts : List Rc → Termios → Command (Shell H) (Unit {0})
  unfolding fatal_error
  restore_attempts [] t s = blocked (record s { answers = [] })
  restore_attempts (success ∷ rest) t s =
      done tt (record s { answers = rest; terminal = record (s.terminal) { settings = t } })
  restore_attempts (interrupted ∷ rest) t s = restore_attempts rest t s
  restore_attempts (failure ∷ rest) t s =
      fatal_error "could not restore tty attributes tcsetattr: " (record s { answers = rest })

  unfoldable pub termstate_restore : Termios → Command (Shell H) (Unit {0})
  unfolding restore_attempts
  termstate_restore t s = restore_attempts s.answers t s

  unfoldable pub termstate_get_tty_fd : Command (Shell H) ℤ
  termstate_get_tty_fd = do
    s ← get
    require (not (int_eq s.terminal.terminal_fd minus_one))
    pure s.terminal.terminal_fd

  restore_if : Option Termios → Command (Shell H) (Unit {0})
  unfolding termstate_restore
  restore_if none = pure tt
  restore_if (some t) = termstate_restore t

  unfoldable pub termstate_give_terminal_to : Option Termios → ℕ → Command (Shell H) (Unit {0})
  unfolding signal_block signal_unblock system_call fatal_error termstate_get_tty_fd restore_if
  termstate_give_terminal_to settings group = do
    signal_block Sig.ttou
    termstate_get_tty_fd
    rc ← system_call
    elim rc [
      | success ↦ modify λ s. record s { terminal = record (s.terminal) { owner = group } }
      | _ ↦ fatal_error "tcsetpgrp: "
    ]
    restore_if settings
    signal_unblock Sig.ttou
    pure tt

  unfoldable pub termstate_give_terminal_back_to_shell : Command (Shell H) (Unit {0})
  termstate_give_terminal_back_to_shell = do
    s ← get
    require (ltb 0 s.terminal.shell_pgrp)
    termstate_give_terminal_to (some s.terminal.saved_tty_state) s.terminal.shell_pgrp

  unfoldable pub termstate_get_current_terminal_owner : Command (Shell H) ℕ
  unfolding system_call fatal_error termstate_get_tty_fd
  termstate_get_current_terminal_owner = do
    termstate_get_tty_fd
    rc ← system_call
    s ← get
    elim rc [ success ↦ pure s.terminal.owner | _ ↦ fatal_error "tcgetpgrp: " ]

  -- `tty` is what open() of the controlling terminal returned, `group` the result of getpgrp().
  unfoldable pub termstate_init : ℤ → ℕ → Command (Shell H) (Unit {0})
  unfolding termstate_sample system_call fatal_error
  termstate_init tty group = do
    s ← get
    require (int_eq s.terminal.terminal_fd minus_one)
    set_terminal (record (s.terminal) { terminal_fd = tty })
    elim (int_eq tty minus_one) [
      | true ↦ fatal_error "opening controlling terminal failed: "
      | false ↦ pure tt
    ]
    rc ← system_call
    elim rc [ success ↦ pure tt | _ ↦ fatal_error "cannot mark terminal fd FD_CLOEXEC" ]
    t ← get
    set_terminal (record (t.terminal) { shell_pgrp = group })
    termstate_sample
