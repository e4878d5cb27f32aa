-- ===== src/Cush/State.antt =====
-- The state of the shell: the global variables of cush.c, termstate_management.c and
-- signal_support.c, the heap objects of type `struct job`, what the shell has done to its
-- surroundings, and the answers that system calls will give.
pub mod Calls
use Prim.Native.String.{String}
use computer_systems_project.Base.{
  ℕ, ◌^◌, ◌≡◌, Bool, true, false, Option, none, some, List, [], ◌∷◌, ◌++◌, ℤ, ◌==◌, update, int_eq,
  minus_one, ltb,
}
use computer_systems_project.Run.{Outcome, done, crash, exited, blocked, Command}
use computer_systems_project.Cush.Ast.{AstPipeline, Token, str}

pub data JobStatus : Type 0 where
  foreground background stopped needs_terminal terminated finished : JobStatus

-- Terminal settings (`struct termios`) are opaque values.
abbrev pub Termios : Type 0
Termios = ℕ

pub record Job : Type 0 where
  pub pipe : AstPipeline
  pub jid : ℤ
  pub status : JobStatus
  pub num_processes_alive : ℤ
  pub saved_tty_state : Termios
  pub termination_code : ℤ
  pub child_pid_array : List ℕ
  pub state_saved_previously : Bool

-- What WIFEXITED, WIFSIGNALED and WIFSTOPPED tell apart in a wait status.
pub data ChildStatus : Type 0 where
  exit_code : ℕ → ChildStatus
  signaled : ℕ → ChildStatus
  stopped_by : ℕ → ChildStatus
  continued : ChildStatus

-- A return of a blocking waitpid(): a child, or -1.
pub data Wait : Type 0 where
  child : ℕ → ChildStatus → Wait
  wait_error : Wait

-- A return of another system call: 0, -1 with EINTR, -1 with another error.
pub data Rc : Type 0 where
  success interrupted failure : Rc

pub data Fd : Type 0 where
  stdin stdout stderr : Fd
  read_end write_end : ℕ → Fd

pub data OpenMode : Type 0 where
  read_only create_truncate create_append : OpenMode

-- The file actions of posix_spawn.
pub data Action : Type 0 where
  add_open : Fd → String → OpenMode → Action
  add_dup2 : Fd → Fd → Action

-- A child that posix_spawnp started. `group` is 0 where the child leads a new group.
pub record Spawned : Type 0 where
  pub pid : ℕ
  pub group : ℕ
  pub takes_terminal : Bool
  pub argv : List String
  pub actions : List Action

-- The variables of termstate_management.c, then the terminal's own settings and owner.
pub record Terminal : Type 0 where
  pub terminal_fd : ℤ
  pub saved_tty_state : Termios
  pub shell_pgrp : ℕ
  pub settings : Termios
  pub owner : ℕ

-- `H` is the type of a linked list.
pub record Shell (H : Type 0) : Type 0 where
  pub jobs : ℕ → Option Job
  pub job_list : H
  pub jid2job : ℕ → Option ℕ
  pub z_update_jid : ℤ
  pub error_update_code : ℤ
  pub blocked_signals : ℕ → Bool
  pub terminal : Terminal
  pub open_pipes : ℕ
  pub spawned : List Spawned
  pub sent : List (ℕ × ℕ)
  pub out : List Token
  pub waits : List Wait
  pub answers : List Rc

abbrev pub max_jobs : ℕ
max_jobs = 2 ^ 16

-- termstate_init has run: there is a terminal, and the shell's process group is known.
abbrev pub TtyReady : {H : Type 0} → Shell H → Type 0
TtyReady s =
    (int_eq s.terminal.terminal_fd minus_one ≡ false) × (ltb 0 s.terminal.shell_pgrp ≡ true)

module _ {H : Type 0} where
  abbrev pub put : List Token → Command (Shell H) (Unit {0})
  put ts s = done tt (record s { out = s.out ++ ts })

  -- The return of the next system call.
  unfoldable pub system_call : Command (Shell H) Rc
  system_call s = elim s.answers [
    | [] ↦ blocked s
    | rc ∷ rest ↦ done rc (record s { answers = rest })
  ]

  -- utils_fatal_error: a message, then exit(EXIT_FAILURE).
  unfoldable pub fatal_error : {A : Type 0} → String → Command (Shell H) A
  fatal_error msg s = exited 1 (record s { out = s.out ++ str msg ∷ [] })

  -- A read through a pointer to a job.
  unfoldable pub load_job : ℕ → Command (Shell H) Job
  load_job p s = elim (s.jobs p) [ none ↦ crash | some j ↦ done j s ]

  unfoldable pub store_job : ℕ → Job → Command (Shell H) (Unit {0})
  store_job p j s = done tt (record s { jobs = update s.jobs p (some j) })

  -- killpg(): whether it returned 0.
  unfoldable pub killpg : ℕ → ℕ → Command (Shell H) Bool
  killpg group sig s = elim s.answers [
    | [] ↦ blocked s
    | rc ∷ rest ↦ elim rc [
      | success ↦ done true (record s { answers = rest; sent = (group, sig) ∷ s.sent })
      | _ ↦ done false (record s { answers = rest })
    ]
  ]
