-- ===== src/Cush/Spawn/Wiring.antt =====
-- Where the standard streams of a child lead, by the file actions that the shell plans for it.
use Prim.Native.String.{String}
use computer_systems_project.Base.{
  ℕ, ◌+◌, ◌-◌, ◌<◌, ◌≡◌, true, none, some, List, [], ◌∷◌, arith, if◌then◌else◌, ltb,
}
use computer_systems_project.Cush.Ast.{AstCommand, AstPipeline}
use computer_systems_project.Cush.State.{
  Fd, stdin, stdout, stderr, read_end, write_end, OpenMode, read_only, create_truncate,
  create_append, Action, add_open, add_dup2,
}
use computer_systems_project.Cush.Spawn.{ChildAnswers, Plan, planned, refused, plan_child}

-- What a descriptor of the child refers to.
pub data Stream : Type 0 where
  inherited : Fd → Stream
  file : String → OpenMode → Stream
  pipe_read pipe_write : ℕ → Stream

-- The three standard streams of a child.
pub record Streams : Type 0 where
  pub input : Stream
  pub output : Stream
  pub error : Stream

abbrev pub stream : Streams → Fd → Stream
stream t stdin = t.input
stream t stdout = t.output
stream t stderr = t.error
stream t (read_end i) = pipe_read i
stream t (write_end i) = pipe_write i

abbrev pub assign : Streams → Fd → Stream → Streams
assign t stdin v = record t { input = v }
assign t stdout v = record t { output = v }
assign t stderr v = record t { error = v }
assign t (read_end i) v = t
assign t (write_end i) v = t

-- posix_spawn performs the actions in order.
abbrev pub perform : Streams → List Action → Streams
perform t [] = t
perform t (add_open fd path mode ∷ acts) = perform (assign t fd (file path mode)) acts
perform t (add_dup2 from to ∷ acts) = perform (assign t to (stream t from)) acts

abbrev pub at_start : Streams
at_start = record { input = inherited stdin; output = inherited stdout; error = inherited stderr }

-- Where a shell user expects the streams of command `i` of `n` to lead.
abbrev pub expected_input : ℕ → AstPipeline → Stream
expected_input i p =
    if ltb 0 i
    then pipe_read (i - 1)
    else elim p.iored_input [ none ↦ inherited stdin | some f ↦ file f read_only ]

abbrev pub expected_output : ℕ → ℕ → AstPipeline → Stream
expected_output n i p = if ltb (i + 1) n then pipe_write i else elim p.iored_output [
  | none ↦ inherited stdout
  | some f ↦ file f (if p.append_to_output then create_append else create_truncate)
]

-- Standard error follows a standard output that does not lead to the terminal.
abbrev pub expected_error : AstCommand → Stream → Stream
expected_error c (inherited fd) = inherited stderr
expected_error c (file f mode) = if c.dup_stderr_to_stdout then file f mode else inherited stderr
expected_error c (pipe_read k) = inherited stderr
expected_error c (pipe_write k) = if c.dup_stderr_to_stdout then pipe_write k else inherited stderr

abbrev pub expected : ℕ → ℕ → AstPipeline → AstCommand → Streams
expected n i p c = record {
  input = expected_input i p;
  output = expected_output n i p;
  error = expected_error c (expected_output n i p);
}

-- Every library call for the child succeeds.
pub record AllGood (a : ChildAnswers) : Type 0 where
  pub attr_init : a.attr_init ≡ true
  pub actions_init : a.actions_init ≡ true
  pub attributes : a.attributes ≡ true
  pub open_input : a.open_input ≡ true
  pub open_output : a.open_output ≡ true
  pub dup_output_stderr : a.dup_output_stderr ≡ true
  pub dup_input : a.dup_input ≡ true
  pub dup_output : a.dup_output ≡ true
  pub dup_pipe_stderr : a.dup_pipe_stderr ≡ true

-- The plan is not refused, and its actions have a property.
abbrev pub Succeeds : (List Action → Type 0) → Plan → Type 0
Succeeds P (planned acts) = P acts
Succeeds P (refused msg) = ⊥

-- Where the library calls succeed, child i of n reads from the pipe of its predecessor, or the first
-- from the input file if there is one, writes to the pipe of its successor, or the last to the
-- output file, truncated or appended to as asked, and its standard error follows its redirected
-- output where the command asks for it.
pub plan_child-expected :
    (n i : ℕ) (p : AstPipeline) (c : AstCommand) (a : ChildAnswers)
    → i < n
    → AllGood a
    → Succeeds (λ acts. perform at_start acts ≡ expected n i p c) (plan_child n i p c a)
unfolding plan_child
plan_child-expected n i p c a low good = ground arith
