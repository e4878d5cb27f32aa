-- ===== src/Cush/Loop.antt =====
-- cush.c: iterate_over_command_line and the loop of main. readline, its history and the parser that
-- bison generates are outside the model: what they return for each round of the loop is an input.
pub mod Refused
use Prim.Native.String.{String}
use computer_systems_project.Base.{
  ℕ, Bool, true, false, not, Option, none, some, List, [], ◌∷◌, ◌==◌, if◌then◌else◌, ℤ, minus_one,
  int_eq, update,
}
use computer_systems_project.LinkedList.{LinkedList}
use computer_systems_project.Run.{blocked, Command, ◌>>=◌, ◌>>◌, pure, require, need, get, modify}
use computer_systems_project.Cush.Sig
use computer_systems_project.Cush.Ast.{AstCommandLine, str}
use computer_systems_project.Cush.Signals.{signal_is_blocked}
use computer_systems_project.Cush.State.{Shell, Job, ChildStatus, put, load_job}
use computer_systems_project.Cush.Term.{termstate_init, termstate_get_current_terminal_owner}
use computer_systems_project.Cush.Jobs.{job_with_jid, job_line, print_error_message}
use computer_systems_project.Cush.Children.{sigchld_handler}
use computer_systems_project.Cush.Spawn.{ChildAnswers, iterate_over_pipeline}

-- What malloc and posix_spawn return while a pipeline is run.
pub record Launch : Type 0 where
  pub address : ℕ
  pub raw : Job
  pub answers : List ChildAnswers

-- One round: the children whose SIGCHLD is delivered while the shell reads, what the reader and
-- history_expand() give, and the past lines.
pub data Reply : Type 0 where
  end_of_file : Reply
  expansion_error : String → Reply
  expanded : Option String → Option AstCommandLine → Reply

pub record Round : Type 0 where
  pub pending : List (ℕ × ChildStatus)
  pub reply : Reply
  pub history : List String
  pub launches : List Launch

module _ (L : LinkedList) where
  unfoldable pub iterate_over_command_line :
      List String → List Launch → AstCommandLine → Command (Shell L.Handle) (Unit {0})
  unfolding iterate_over_pipeline
  iterate_over_command_line history launches [] = pure tt
  iterate_over_command_line history [] (pipe ∷ pipes) = blocked
  iterate_over_command_line history (l ∷ launches) (pipe ∷ pipes) =
      iterate_over_pipeline L l.address l.raw l.answers history pipe
      >> iterate_over_command_line history launches pipes

  -- The notices before the prompt.
  report_stopped : Command (Shell L.Handle) (Unit {0})
  unfolding job_with_jid job_line
  report_stopped = do
    s ← get
    if int_eq s.z_update_jid minus_one then pure tt else (do
      found ← job_with_jid L s.z_update_jid
      p ← need found
      j ← load_job p
      ts ← need (job_line "]+\t" j)
      put ts
      modify λ t. record t { z_update_jid = minus_one })

  report_error : Command (Shell L.Handle) (Unit {0})
  unfolding print_error_message
  report_error = do
    s ← get
    if int_eq s.error_update_code minus_one then pure tt else (do
      put (print_error_message s.error_update_code)
      modify λ t. record t { error_update_code = minus_one })

  -- The kernel runs the handler with SIGCHLD blocked.
  deliver : List (ℕ × ChildStatus) → Command (Shell L.Handle) (Unit {0})
  unfolding sigchld_handler
  deliver [] = pure tt
  deliver (c ∷ cs) = do
    modify λ s. record s { blocked_signals = update s.blocked_signals Sig.chld true }
    sigchld_handler L Sig.chld (c ∷ cs)
    modify λ s. record s { blocked_signals = update s.blocked_signals Sig.chld false }

  -- The round up to readline(). `group` is the result of getpgrp().
  unfoldable pub before_prompt : ℕ → Command (Shell L.Handle) (Unit {0})
  unfolding signal_is_blocked report_stopped report_error termstate_get_current_terminal_owner
  before_prompt group = do
    b ← signal_is_blocked Sig.chld
    require (not b)
    report_stopped
    report_error
    owner ← termstate_get_current_terminal_owner
    require (owner == group)

  print_expansion : Option String → Command (Shell L.Handle) (Unit {0})
  print_expansion none = pure tt
  print_expansion (some line) = put (str line ∷ str "\n" ∷ [])

  -- The round behind readline(): whether the loop goes on.
  unfoldable pub respond : Round → Reply → Command (Shell L.Handle) Bool
  unfolding print_expansion iterate_over_command_line
  respond r end_of_file = pure false
  respond r (expansion_error msg) = put (str msg ∷ str "\n" ∷ []) >> pure true
  respond r (expanded shown none) = print_expansion shown >> pure true
  respond r (expanded shown (some pipes)) =
      print_expansion shown >> (iterate_over_command_line r.history r.launches pipes >> pure true)

  unfoldable pub read_eval : ℕ → List Round → Command (Shell L.Handle) (Unit {0})
  unfolding before_prompt deliver respond
  read_eval group [] = before_prompt group >> blocked
  read_eval group (r ∷ rounds) = do
    before_prompt group
    deliver r.pending
    more ← respond r r.reply
    if more then read_eval group rounds else pure tt

  -- main, from list_init on
  unfoldable pub main : ℤ → ℕ → List Round → Command (Shell L.Handle) (Unit {0})
  unfolding termstate_init read_eval
  main tty group rounds = do
    modify λ s. record s { job_list = L.empty }
    termstate_init tty group
    read_eval group rounds
