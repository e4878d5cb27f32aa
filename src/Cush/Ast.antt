-- ===== src/Cush/Ast.antt =====
-- shell-ast.c and shell-ast.h: the syntax tree of a command line. The lists of the tree are built
-- once by the parser and only read afterwards, so they are sequences here; a pipeline that is
-- created or extended is returned.
use Prim.Native.String.{String}
use computer_systems_project.Base.{
  ℕ, ◌+◌, Bool, false, if◌then◌else◌, Option, none, some, List, [], ◌∷◌, ◌++◌, length, ℤ, pos,
}

pub record AstCommand : Type 0 where
  pub argv : List String
  pub dup_stderr_to_stdout : Bool

pub record AstPipeline : Type 0 where
  pub commands : List AstCommand
  pub iored_input : Option String
  pub iored_output : Option String
  pub append_to_output : Bool
  pub bg_job : Bool

abbrev pub AstCommandLine : Type 0
AstCommandLine = List AstPipeline

pub ast_command_create : List String → Bool → AstCommand
ast_command_create argv dup = record { argv = argv; dup_stderr_to_stdout = dup }

pub ast_pipeline_create : Option String → Option String → Bool → AstPipeline
ast_pipeline_create input output append = record {
  commands = [];
  iored_input = input;
  iored_output = output;
  append_to_output = append;
  bg_job = false;
}

pub ast_pipeline_add_command : AstPipeline → AstCommand → AstPipeline
ast_pipeline_add_command p c = record p { commands = p.commands ++ c ∷ [] }

pub ast_command_line_create_empty : AstCommandLine
ast_command_line_create_empty = []

pub ast_command_line_create : AstPipeline → AstCommandLine
unfolding ast_command_line_create_empty
ast_command_line_create p = ast_command_line_create_empty ++ p ∷ []

-- What printf is given: texts and numbers in order.
pub data Token : Type 0 where
  str : String → Token
  int : ℤ → Token

-- `while (*p) printf(" %s", *p++);`
unfoldable pub print_words : List String → List Token
print_words [] = []
print_words (w ∷ ws) = str " " ∷ str w ∷ print_words ws

unfoldable pub ast_command_print : AstCommand → List Token
unfolding print_words
ast_command_print c =
    (str "  Command:" ∷ print_words c.argv)
    ++ (str "\n"
        ∷ (if c.dup_stderr_to_stdout then str "  stderr shall also be redirected\n" ∷ [] else []))

print_numbered : ℕ → List AstCommand → List Token
unfolding ast_command_print
print_numbered i [] = []
print_numbered i (c ∷ cs) =
    (str " " ∷ int (pos i) ∷ str ". " ∷ ast_command_print c) ++ print_numbered (i + 1) cs

print_output : Bool → Option String → List Token
print_output append none = []
print_output append (some f) =
    str "  the stdout of the last command "
    ∷ str (if append then "append" else "write")
    ∷ str "s to "
    ∷ str f
    ∷ str "\n"
    ∷ []

print_input : Option String → List Token
print_input none = []
print_input (some f) = str "  stdin of the first command reads from " ∷ str f ∷ str "\n" ∷ []

unfoldable pub ast_pipeline_print : AstPipeline → List Token
unfolding print_numbered print_output print_input
ast_pipeline_print p =
    (str " Pipeline consists of " ∷ int (pos (length p.commands)) ∷ str " commands\n" ∷ [])
    ++ (print_numbered 1 p.commands
        ++ (print_output p.append_to_output p.iored_output
            ++ (print_input p.iored_input
                ++ (if p.bg_job
                    then str "  - is a background job\n" ∷ []
                    else str "  - should be started as a regular foreground job\n" ∷ []))))

print_pipelines : AstCommandLine → List Token
unfolding ast_pipeline_print
print_pipelines [] = []
print_pipelines (p ∷ ps) = (str " ------------- \n" ∷ ast_pipeline_print p) ++ print_pipelines ps

unfoldable pub ast_command_line_print : AstCommandLine → List Token
unfolding print_pipelines
ast_command_line_print cmdline =
    (str "Command line\n" ∷ print_pipelines cmdline)
    ++ (str "==========================================\n" ∷ [])
