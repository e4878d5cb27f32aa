-- ===== src/Cush/Spawn.antt =====
-- cush.c: iterate_over_pipeline, which starts the children of a pipeline and makes a job of them.
-- posix_spawn and its attributes are those of the C library: their answers are arguments. pipe2()
-- and close() succeed, as the code assumes of the one and only reports of the other.
pub mod Wiring
pub mod Groups
pub mod Launching
use Prim.Native.String.{String}
use text.Mathlib.Text.{◌==◌ as str_eq}
use computer_systems_project.Base.{
  ℕ, zero, suc, ◌+◌, ◌-◌, ◌<◌, ◌≡◌, refl, Bool, true, false, ◌&&◌, Option, none, some, List, [],
  ◌∷◌, ◌++◌, arith, ◌==◌, ltb, if◌then◌else◌, length, get_elem?, ℤ, pos, minus_one, not,
}
use computer_systems_project.LinkedList.{LinkedList}
use computer_systems_project.Run.{
  Outcome, done, crash, exited, blocked, Command, and_then, ◌>>=◌, ◌>>◌, pure, require, need, get,
  modify,
}
use computer_systems_project.Cush.Sig
use computer_systems_project.Cush.Ast.{AstCommand, AstPipeline, Token, str, int}
use computer_systems_project.Cush.Signals.{signal_block, signal_unblock}
use computer_systems_project.Cush.State.{
  Shell, Job, JobStatus, foreground, background, put, load_job, store_job, Fd, stdin, stdout,
  stderr, read_end, write_end, OpenMode, read_only, create_truncate, create_append, Action,
  add_open, add_dup2, Spawned,
}
use computer_systems_project.Cush.Term.{
  termstate_get_tty_fd, termstate_sample, termstate_give_terminal_back_to_shell,
}
use computer_systems_project.Cush.Jobs.{add_job, free_all_jobs}
use computer_systems_project.Cush.Children.{wait_for_job}
use computer_systems_project.Cush.Builtins.{leader, check_for_builtin}

-- The answers of the library calls for one child: whether each succeeded, and the pid.
pub record ChildAnswers : Type 0 where
  pub attr_init : Bool
  pub actions_init : Bool
  pub attributes : Bool
  pub open_input : Bool
  pub open_output : Bool
  pub dup_output_stderr : Bool
  pub dup_input : Bool
  pub dup_output : Bool
  pub dup_pipe_stderr : Bool
  pub pid : Option ℕ

-- The file actions added so far, and whether `file_actions_status` is 0.
abbrev pub Actions : Type 0
Actions = List Action × Bool

unfoldable pub output_mode : Bool → OpenMode
output_mode append = if append then create_append else create_truncate

-- adddup2 of standard error, behind a redirection of standard output that succeeded.
unfoldable pub join_stderr : Bool → Bool → List Action → Actions
join_stderr wanted answer acts =
    if wanted
    then (if answer then (acts ++ add_dup2 stdout stderr ∷ [], true) else (acts, false))
    else (acts, true)

unfoldable pub redirect_input : ℕ → AstPipeline → ChildAnswers → Actions
redirect_input i pipe a = elim pipe.iored_input [
  | none ↦ ([], true)
  | some f ↦
      if i == 0
      then (if a.open_input then (add_open stdin f read_only ∷ [], true) else ([], false))
      else ([], true)
]

unfoldable pub redirect_output : ℕ → ℕ → AstPipeline → AstCommand → ChildAnswers → Actions → Actions
unfolding output_mode join_stderr
redirect_output n i pipe cmd a (acts, ok) = elim pipe.iored_output [
  | none ↦ (acts, ok)
  | some f ↦
      if i + 1 == n
      then (if a.open_output
          then join_stderr cmd.dup_stderr_to_stdout a.dup_output_stderr
              (acts ++ add_open stdout f (output_mode pipe.append_to_output) ∷ [])
          else (acts, false))
      else (acts, ok)
]

unfoldable pub pipe_input : ℕ → ℕ → ChildAnswers → Actions → Actions
pipe_input n i a (acts, ok) =
    if ltb 1 n && ltb 0 i
    then (if a.dup_input
        then (acts ++ add_dup2 (read_end (i - 1)) stdin ∷ [], true)
        else (acts, false))
    else (acts, ok)

unfoldable pub pipe_output : ℕ → ℕ → AstCommand → ChildAnswers → Actions → Actions
unfolding join_stderr
pipe_output n i cmd a (acts, ok) =
    if ltb 1 n && ltb (i + 1) n
    then (if a.dup_output
        then join_stderr cmd.dup_stderr_to_stdout a.dup_pipe_stderr
            (acts ++ add_dup2 (write_end i) stdout ∷ [])
        else (acts, false))
    else (acts, ok)

-- The body of the loop up to posix_spawnp: the file actions, or what perror() is given.
pub data Plan : Type 0 where
  refused : String → Plan
  planned : List Action → Plan

after_pipes : Actions → Plan
after_pipes (acts, ok) = if ok then planned acts else refused "posix_spawn_file_actions_adddup2"

after_redirections : ℕ → ℕ → AstCommand → ChildAnswers → Actions → Plan
unfolding pipe_input pipe_output after_pipes
after_redirections n i cmd a (acts, ok) =
    if ok
    then after_pipes (pipe_output n i cmd a (pipe_input n i a (acts, true)))
    else refused "posix_spawn_file_actions_addopen"

-- Child `i` of `n`. The assertion of termstate_get_tty_fd is in check_tty below.
unfoldable pub plan_child : ℕ → ℕ → AstPipeline → AstCommand → ChildAnswers → Plan
unfolding redirect_input redirect_output after_redirections
plan_child n i pipe cmd a =
    if not a.attr_init
    then refused "posix_spawnattr_init"
    else if not a.actions_init
    then refused "posix_spawn_file_actions_init"
    else if not a.attributes
    then refused "spawn_attr_status"
    else after_redirections n i cmd a (redirect_output n i pipe cmd a (redirect_input i pipe a))

-- The pids of all children, or that iterate_over_pipeline returns 1.
pub data Spawning : Type 0 where
  started : List ℕ → Spawning
  gave_up : Spawning

module _ (L : LinkedList) where
  abbrev open_pipes : ℕ → Command (Shell L.Handle) (Unit {0})
  open_pipes k = modify λ s. record s { open_pipes = s.open_pipes + k }

  abbrev close_pipes : ℕ → Command (Shell L.Handle) (Unit {0})
  close_pipes k = modify λ s. record s { open_pipes = s.open_pipes - k }

  -- The branch for a posix_spawnp that failed, for a pipeline of `n` commands.
  unfoldable pub spawn_failed : ℕ → Command (Shell L.Handle) Spawning
  unfolding signal_unblock
  spawn_failed n = do
    termstate_sample
    termstate_give_terminal_back_to_shell
    put (str "posix_spawnp" ∷ [])
    signal_unblock Sig.chld
    close_pipes (n - 1)
    pure gave_up

  -- A child that leads its group, or joins `group`, and takes the terminal for a foreground job.
  record_child : ℕ → ℕ → Bool → List String → List Action → Command (Shell L.Handle) (Unit {0})
  record_child pid group takes argv acts = modify λ s. record s {
    spawned =
        s.spawned
        ++ record { pid = pid; group = group; takes_terminal = takes; argv = argv; actions = acts }
          ∷ [];
    terminal =
        if takes
        then record (s.terminal) { owner = if group == 0 then pid else group }
        else s.terminal;
  }

  -- The assertion of termstate_get_tty_fd, which is called for a foreground job.
  unfoldable pub check_tty : AstPipeline → ChildAnswers → Command (Shell L.Handle) (Unit {0})
  unfolding termstate_get_tty_fd
  check_tty pipe a =
      if not pipe.bg_job && (a.attr_init && a.actions_init)
      then (termstate_get_tty_fd >> pure tt)
      else pure tt

  unfoldable pub spawn_children :
      ℕ
      → AstPipeline
      → List AstCommand
      → ℕ
      → ℕ
      → List ℕ
      → List ChildAnswers
      → Command (Shell L.Handle) Spawning
  unfolding record_child check_tty
  spawn_children n pipe [] i group pids answers = pure (started pids)
  spawn_children n pipe (cmd ∷ cmds) i group pids [] = blocked
  spawn_children n pipe (cmd ∷ cmds) i group pids (a ∷ answers) = do
    check_tty pipe a
    elim (plan_child n i pipe cmd a) [
      | refused msg ↦ put (str msg ∷ []) >> pure gave_up
      | planned acts ↦ do
        name ← need (get_elem? cmd.argv 0)
        elim a.pid [
          | none ↦ spawn_failed n
          | some pid ↦
              record_child pid group (not pipe.bg_job) cmd.argv acts
              >> spawn_children n pipe cmds (i + 1) (if group == 0 then pid else group)
                  (pids ++ pid ∷ []) answers
        ]
    ]

  -- The branches for a background and for a foreground job.
  unfoldable pub settle : Bool → ℕ → ℤ → List ℕ → Command (Shell L.Handle) (Unit {0})
  settle true q jid pids = do
    pid ← need (get_elem? pids 0)
    put (str "[" ∷ int jid ∷ str "] " ∷ int (pos pid) ∷ str "\n" ∷ [])
  settle false q jid pids = wait_for_job L q >> termstate_give_terminal_back_to_shell

  -- The job of the children `pids`, waited for unless it runs in the background.
  unfoldable pub launch : ℕ → Job → AstPipeline → List ℕ → Command (Shell L.Handle) Bool
  unfolding store_job signal_unblock
  launch p raw pipe pids = do
    q ← add_job L p raw pipe
    j ← load_job q
    store_job q (record j {
      num_processes_alive = pos (length pids);
      child_pid_array = pids;
      termination_code = minus_one;
      state_saved_previously = false;
      status = if pipe.bg_job then background else foreground;
    })
    settle pipe.bg_job q j.jid pids
    signal_unblock Sig.chld
    pure false

  -- What follows the test for a builtin command.
  unfoldable pub run_pipeline :
      ℕ → Job → List ChildAnswers → AstPipeline → Command (Shell L.Handle) Bool
  run_pipeline p raw answers pipe = do
    let n = length pipe.commands
    open_pipes (n - 1)
    r ← spawn_children n pipe pipe.commands 0 0 [] answers
    elim r [ gave_up ↦ pure true | started pids ↦ close_pipes (n - 1) >> launch p raw pipe pids ]

  -- iterate_over_pipeline: true where the caller is to free the pipeline. `p` and `raw` are what
  -- malloc returns for the job.
  unfoldable pub iterate_over_pipeline :
      ℕ → Job → List ChildAnswers → List String → AstPipeline → Command (Shell L.Handle) Bool
  unfolding signal_block signal_unblock
  iterate_over_pipeline p raw answers history pipe = do
    signal_block Sig.chld
    first ← need (get_elem? pipe.commands 0)
    name ← need (get_elem? first.argv 0)
    if str_eq name "exit" then (free_all_jobs L >> exited 0) else pure tt
    b ← check_for_builtin L history first
    if b then (signal_unblock Sig.chld >> pure true) else run_pipeline p raw answers pipe
