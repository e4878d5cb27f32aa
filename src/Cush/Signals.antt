-- ===== src/Cush/Signals.antt =====
-- signal_support.c: the mask of blocked signals. The calls of sigprocmask() get valid arguments and
-- succeed.
use computer_systems_project.Base.{ℕ, Bool, true, false, ◌==◌, if◌then◌else◌, update}
use computer_systems_project.Run.{done, Command}
use computer_systems_project.Cush.State.{Shell}
use computer_systems_project.Cush.Sig

module _ {H : Type 0} where
  unfoldable pub signal_is_blocked : ℕ → Command (Shell H) Bool
  signal_is_blocked sig s = done (s.blocked_signals sig) s

  -- `how` is SIG_BLOCK where `blocking` is true, and SIG_UNBLOCK otherwise.
  mask_signal : ℕ → Bool → Command (Shell H) Bool
  mask_signal sig blocking s =
      done (s.blocked_signals sig)
        (record s { blocked_signals = update s.blocked_signals sig blocking })

  unfoldable pub signal_block : ℕ → Command (Shell H) Bool
  unfolding mask_signal
  signal_block sig = mask_signal sig true

  -- The handler of a SIGCHLD that is pending runs before sigprocmask() returns; here that run is a
  -- step of its own.
  unfoldable pub signal_unblock : ℕ → Command (Shell H) Bool
  unfolding mask_signal
  signal_unblock sig = mask_signal sig false

-- signal_set_handler: abort() for any signal but SIGCHLD. The handler is the `handler` of the result.
unfoldable pub signal_set_handler {ℓ} : {F : Type ℓ} → ℕ → F → (ℕ → F) → Bool × (ℕ → F)
signal_set_handler sig handler table =
    if sig == Sig.chld then (true, update table sig handler) else (false, table)
