-- ===== src/Cush/Loop/Refused.antt =====
-- A pipeline that iterate_over_pipeline gives up before it starts a child.
use Prim.Native.String.{String}
use computer_systems_project.Base.{
  ℕ, ◌+◌, ◌-◌, ◌≡◌, Bool, false, not, ◌||◌, ◌&&◌, none, some, List, ◌∷◌, length, ltb, ◌==◌,
  if◌then◌else◌,
}
use computer_systems_project.LinkedList.{LinkedList}
use computer_systems_project.Cush.Sig
use computer_systems_project.Cush.Ast.{AstCommand, AstPipeline}
use computer_systems_project.Cush.State.{Shell}
use computer_systems_project.Cush.Spawn.{ChildAnswers, Plan, planned, refused}

-- The calls for the redirections of the first of `n` children leave an error: the last of them fails.
abbrev pub redirection_fails : ℕ → AstPipeline → AstCommand → ChildAnswers → Bool
redirection_fails n pipe c a = elim pipe.iored_output [
  | none ↦ elim pipe.iored_input [ none ↦ false | some f ↦ not a.open_input ]
  | some g ↦
      if n == 1
      then not a.open_output || (c.dup_stderr_to_stdout && not a.dup_output_stderr)
      else elim pipe.iored_input [ none ↦ false | some f ↦ not a.open_input ]
]

-- The calls for the end of the pipe that it writes to leave an error.
abbrev pub pipe_fails : ℕ → AstCommand → ChildAnswers → Bool
pipe_fails n c a =
    ltb 1 n && (not a.dup_output || (c.dup_stderr_to_stdout && not a.dup_pipe_stderr))

-- A library call for the first child fails, and no later one hides it.
abbrev pub first_child_fails : ℕ → AstPipeline → AstCommand → ChildAnswers → Bool
first_child_fails n pipe c a =
    not a.attr_init
    || not a.actions_init
    || not a.attributes
    || redirection_fails n pipe c a
    || pipe_fails n c a

abbrev IsRefused : Plan → Type 0
IsRefused (planned acts) = ⊥
IsRefused (refused msg) = Unit

module _ (L : LinkedList) (pipe : AstPipeline) (c : AstCommand) (cs : List AstCommand)
    (a : ChildAnswers) (answers : List ChildAnswers) (s : Shell L.Handle)
    (commands : pipe.commands ≡ c ∷ cs) where
  abbrev opened : Shell L.Handle
  opened = record s { open_pipes = s.open_pipes + (length pipe.commands - 1) }
