-- ===== src/Cush/Builtins.antt =====
-- cush.c: the builtin commands of check_for_builtin. Each returns 1, so a builtin has no result.
pub mod Foreground
pub mod Missing
pub mod Signals
use Prim.Native.String.{String}
use text.Mathlib.Text.{◌==◌ as str_eq}
use computer_systems_project.Base.{
  ℕ, zero, suc, ◌+◌, ◌<◌, ◌≡◌, refl, Bool, true, false, ◌||◌, Option, none, some, List, [], ◌∷◌,
  ◌++◌, arith, ◌==◌, ltb, if◌then◌else◌, length, get_elem?, ℤ, pos, negsuc,
}
use computer_systems_project.LinkedList.{LinkedList}
use computer_systems_project.Run.{
  Outcome, done, crash, Command, and_then, ◌>>=◌, ◌>>◌, pure, require, need, get, modify,
}
use computer_systems_project.Cush.Sig
use computer_systems_project.Cush.Atoi.{atoi, atoi_rest}
use computer_systems_project.Cush.Ast.{AstCommand, Token, str, int}
use computer_systems_project.Cush.State.{
  Shell, Job, JobStatus, foreground, background, stopped, needs_terminal, terminated, finished, put,
  load_job, store_job, killpg, Termios,
}
use computer_systems_project.Cush.Term.{
  termstate_give_terminal_to, termstate_give_terminal_back_to_shell,
}
use computer_systems_project.Cush.Jobs.{print_cmdline, print_all_jobs, job_with_jid}
use computer_systems_project.Cush.Children.{wait_for_job}

-- `child_pid_array[0]`
unfoldable pub leader : Job → Option ℕ
leader j = get_elem? j.child_pid_array 0

unfoldable pub is_halted : JobStatus → Bool
is_halted stopped = true
is_halted needs_terminal = true
is_halted foreground = false
is_halted background = false
is_halted terminated = false
is_halted finished = false

unfoldable pub is_background : JobStatus → Bool
is_background background = true
is_background foreground = false
is_background stopped = false
is_background needs_terminal = false
is_background terminated = false
is_background finished = false

abbrev no_such_job : String → String → List Token
no_such_job name arg = str name ∷ str " " ∷ str arg ∷ str ": No such job\n" ∷ []

-- The lines that `history` prints; the entries are those of the readline library.
unfoldable pub print_history : ℕ → List String → List Token
print_history i [] = []
print_history i (line ∷ rest) =
    int (pos (i + 1)) ∷ str "  " ∷ str line ∷ str "\n" ∷ print_history (i + 1) rest

-- The signal that `kill -n` sends, `none` for one that the code refuses.
unfoldable pub kill_signal : ℤ → Option ℕ
kill_signal (negsuc n) = none
kill_signal (pos n) =
    if n == 1
    then some Sig.hup
    else if n == 2
    then some Sig.int
    else if n == 3
    then some Sig.quit
    else if n == 6
    then some Sig.abrt
    else if n == 9
    then some Sig.kill
    else if n == 15
    then some Sig.term
    else if n == 17
    then some Sig.stop
    else if n == 19
    then some Sig.stop
    else if n == 23
    then some Sig.stop
    else none

unfoldable pub kill_message : ℤ → List Token
kill_message (negsuc n) = []
kill_message (pos n) =
    if n == 1
    then str "Sent kill signal SIGHUP\n" ∷ []
    else if n == 2
    then str "Sent kill signal SIGINT\n" ∷ []
    else if n == 3
    then str "Sent kill signal SIGQUIT\n" ∷ []
    else if n == 6
    then str "Sent kill signal SIGABRT\n" ∷ []
    else if n == 9
    then str "Sent kill signal SIGKILL\n" ∷ []
    else if n == 15
    then str "Sent kill signal SIGTERM\n" ∷ []
    else if n == 17
    then str "Sent kill signal SIGSTOP\n" ∷ []
    else if n == 19
    then str "Sent kill signal SIGSTOP\n" ∷ []
    else if n == 23
    then str "Sent kill signal SIGSTOP\n" ∷ []
    else []

module _ (L : LinkedList) where
  -- `continue_job` is the code of fg between the change of the terminal's owner and the wait:
  -- false where SIGCONT could not be sent.
  unfoldable pub continue_job : ℕ → Job → Command (Shell L.Handle) Bool
  continue_job group j = if is_halted j.status then killpg group Sig.cont else pure true

  unfoldable pub resume : ℕ → Bool → Command (Shell L.Handle) (Unit {0})
  unfolding store_job
  resume p false = termstate_give_terminal_back_to_shell
  resume p true = do
    j ← load_job p
    store_job p (record j { status = foreground })
    wait_for_job L p
    termstate_give_terminal_back_to_shell

  unfoldable pub fg_job : ℕ → Command (Shell L.Handle) (Unit {0})
  fg_job p = do
    j ← load_job p
    ts ← need (print_cmdline j.pipe)
    put (ts ++ str "\n" ∷ [])
    group ← need (leader j)
    termstate_give_terminal_to (if j.state_saved_previously then some j.saved_tty_state else none)
        group
    sent ← continue_job group j
    resume p sent

  unfoldable pub fg : List String → Command (Shell L.Handle) (Unit {0})
  fg argv = do
    arg ← need (get_elem? argv 1)
    found ← job_with_jid L (atoi arg)
    elim found [ none ↦ put (no_such_job "fg" arg) | some p ↦ fg_job p ]

  -- bg reads child_pid_array[0] before it tests found_job.
  unfoldable pub bg : List String → Command (Shell L.Handle) (Unit {0})
  unfolding store_job
  bg argv = do
    arg ← need (get_elem? argv 1)
    found ← job_with_jid L (atoi arg)
    p ← need found
    j ← load_job p
    group ← need (leader j)
    if is_background j.status
        then put (str "bg: " ∷ str arg ∷ str " already in background\n" ∷ [])
        else (do
          store_job p (record j { status = background })
          sent ← killpg group Sig.cont
          if sent then pure tt else put (str "bg:" ∷ []))

  unfoldable pub stop_job : ℕ → Command (Shell L.Handle) (Unit {0})
  stop_job p = do
    j ← load_job p
    group ← need (leader j)
    sent ← killpg group Sig.stop
    if sent then pure tt else put (str "stop:" ∷ [])

  unfoldable pub stop : List String → Command (Shell L.Handle) (Unit {0})
  stop argv = do
    arg ← need (get_elem? argv 1)
    found ← job_with_jid L (atoi arg)
    elim found [ none ↦ put (no_such_job "stop" arg) | some p ↦ stop_job p ]

  -- The process group of the job that an argument names; there is no test for a missing job.
  unfoldable pub group_of : String → Command (Shell L.Handle) ℕ
  group_of arg = do
    found ← job_with_jid L (atoi arg)
    p ← need found
    j ← load_job p
    need (leader j)

  -- kill jid
  unfoldable pub kill_job : String → Command (Shell L.Handle) (Unit {0})
  kill_job arg = do
    group ← group_of arg
    sent ← killpg group Sig.kill
    put (if sent then str "Sent kill signal\n" ∷ [] else str "kill" ∷ [])

  -- kill -signal jid
  unfoldable pub kill_with : String → String → Command (Shell L.Handle) (Unit {0})
  kill_with flag arg = do
    signal ← need (atoi_rest flag)
    group ← group_of arg
    elim (kill_signal signal) [
      | none ↦ put (str "kill: usage: kill [-SIGNAL] [jid]\n" ∷ str "kill" ∷ [])
      | some sig ↦ do
        sent ← killpg group sig
        put (if sent then kill_message signal else str "kill" ∷ [])
    ]

  unfoldable pub kill : List String → Command (Shell L.Handle) (Unit {0})
  kill [] = put (str "kill: usage: kill [jid]\n" ∷ [])
  kill (name ∷ []) = put (str "kill: usage: kill [jid]\n" ∷ [])
  kill (name ∷ arg ∷ []) = kill_job arg
  kill (name ∷ flag ∷ arg ∷ rest) = kill_with flag arg

  -- check_for_builtin: whether the command was a builtin. `history` is the list of past lines.
  unfoldable pub check_for_builtin : List String → AstCommand → Command (Shell L.Handle) Bool
  check_for_builtin history cmd = do
    name ← need (get_elem? cmd.argv 0)
    if str_eq name "jobs"
        then (print_all_jobs L >> pure true)
        else if str_eq name "history"
        then (put (print_history 0 history) >> pure true)
        else if str_eq name "fg"
        then (fg cmd.argv >> pure true)
        else if str_eq name "bg"
        then (bg cmd.argv >> pure true)
        else if str_eq name "stop"
        then (stop cmd.argv >> pure true)
        else if str_eq name "kill"
        then (kill cmd.argv >> pure true)
        else pure false
