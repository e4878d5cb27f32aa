-- ===== src/Cush/Jobs.antt =====
-- cush.c: the job table and the job list, with the functions that print them. A job is found by
-- its jid in the table `jid2job`, and by a walk along the list.
pub mod Slots
pub mod Consistent
pub mod Insertion
pub mod Lookup
pub mod Deletion
pub mod Reaping
use Prim.Native.String.{String}
use computer_systems_project.Base.{
  ℕ, zero, suc, ◌+◌, ◌-◌, ◌<◌, ◌≡◌, refl, Bool, true, false, ◌||◌, Option, none, some, List, [],
  ◌∷◌, ◌++◌, arith, ltb, ◌==◌, if◌then◌else◌, update, ℤ, pos, negsuc, minus_one, int_eq,
}
use computer_systems_project.LinkedList.{LinkedList}
use computer_systems_project.Run.{
  Outcome, done, crash, Command, and_then, ◌>>=◌, ◌>>◌, pure, require, need, get, modify,
}
use computer_systems_project.Cush.Sig
use computer_systems_project.Cush.Ast.{AstCommand, AstPipeline, Token, str, int, print_words}
use computer_systems_project.Cush.State.{
  Shell, Job, JobStatus, foreground, background, stopped, needs_terminal, terminated, finished,
  max_jobs, put, load_job, store_job,
}

-- get_status
unfoldable pub get_status : JobStatus → String
get_status foreground = "Foreground"
get_status background = "Running"
get_status stopped = "Stopped"
get_status needs_terminal = "Stopped (tty)"
get_status terminated = "Unknown"
get_status finished = "Unknown"

-- `printf("%s", *p++); while (*p) printf(" %s", *p++);`, a crash where argv is empty
print_argv : List String → Option (List Token)
unfolding print_words
print_argv [] = none
print_argv (w ∷ ws) = some (str w ∷ print_words ws)

-- The commands behind the first are preceded by a bar.
print_commands : Bool → List AstCommand → Option (List Token)
unfolding print_argv
print_commands later [] = some []
print_commands later (c ∷ cs) = elim (print_argv c.argv) [
  | none ↦ none
  | some ts ↦ elim (print_commands true cs) [
    | none ↦ none
    | some us ↦ some ((if later then str "| " ∷ [] else []) ++ (ts ++ us))
  ]
]

unfoldable pub print_cmdline : AstPipeline → Option (List Token)
unfolding print_commands
print_cmdline p = print_commands false p.commands

-- print_error_message, for an `int` termination code
unfoldable pub print_error_message : ℤ → List Token
print_error_message (negsuc n) = str "Terminated\n" ∷ []
print_error_message (pos code) =
    (if code == Sig.fpe
      then str "Floating point exception\n"
      else if code == Sig.segv
      then str "Segmentation fault\n"
      else if code == Sig.abrt
      then str "Aborted\n"
      else if code == Sig.kill
      then str "Killed\n"
      else str "Terminated\n")
    ∷ []

-- The line of a job that is neither done nor terminated, with the mark behind its number.
unfoldable pub job_line : String → Job → Option (List Token)
unfolding print_cmdline get_status
job_line mark j = elim (print_cmdline j.pipe) [
  | none ↦ none
  | some ts ↦ some (
      (str "[" ∷ int j.jid ∷ str mark ∷ str (get_status j.status) ∷ str "\t\t(" ∷ [])
      ++ (ts ++ str ")\n" ∷ []))
]

unfoldable pub print_job : Job → Option (List Token)
unfolding job_line print_error_message
print_job j = elim j.status [
  | terminated ↦ some (print_error_message j.termination_code)
  | finished ↦ some (str "[" ∷ int j.jid ∷ str "]\tDone\n" ∷ [])
  | _ ↦ job_line "]\t" j
]

unfoldable pub is_over : JobStatus → Bool
is_over terminated = true
is_over finished = true
is_over foreground = false
is_over background = false
is_over stopped = false
is_over needs_terminal = false

-- The first index from `i` on, of `rounds` indices, with no job in the table.
unfoldable pub find_slot : ℕ → ℕ → (ℕ → Option ℕ) → Option ℕ
find_slot zero i table = none
find_slot (suc rounds) i table = elim (table i) [
  | none ↦ some i
  | some _ ↦ find_slot rounds (i + 1) table
]

-- The entry of `jid2job` at an `int` index; an index out of range is a crash in delete_job.
unfoldable pub table_entry : (ℕ → Option ℕ) → ℤ → Option ℕ
table_entry table (negsuc n) = none
table_entry table (pos n) = if ltb n max_jobs then table n else none

unfoldable pub jid_index : ℤ → ℕ
jid_index (pos n) = n
jid_index (negsuc n) = 0

-- The search of a loop over the list, `none` where it reads through a dangling pointer. The test
-- itself may read out of bounds.
unfoldable pub scan : (ℕ → Option Job) → (Job → Option Bool) → List ℕ → Option (Option ℕ)
scan jobs test [] = some none
scan jobs test (p ∷ ps) = elim (jobs p) [
  | none ↦ none
  | some j ↦ elim (test j) [
    | none ↦ none
    | some true ↦ some (some p)
    | some false ↦ scan jobs test ps
  ]
]

module _ (L : LinkedList) where
  -- get_job_from_jid
  unfoldable pub get_job_from_jid : ℤ → Shell L.Handle → Option ℕ
  unfolding table_entry
  get_job_from_jid (negsuc n) s = none
  get_job_from_jid (pos n) s = if ltb 0 n then table_entry s.jid2job (pos n) else none

  -- add_job: `p` and `raw` are the address and the contents that malloc returned.
  unfoldable pub add_job : ℕ → Job → AstPipeline → Command (Shell L.Handle) ℕ
  add_job p raw pipe s = elim (find_slot (max_jobs - 1) 1 s.jid2job) [
    | none ↦ crash
    | some i ↦ done p (record s {
      jobs =
          update s.jobs p
            (some (record raw { pipe = pipe; jid = pos i; num_processes_alive = pos 0 }));
      job_list = L.push_back s.job_list p;
      jid2job = update s.jid2job i (some p);
    })
  ]

  -- delete_job
  unfoldable pub delete_job : ℕ → Command (Shell L.Handle) (Unit {0})
  unfolding load_job store_job jid_index
  delete_job p = do
    j ← load_job p
    require (if int_eq j.jid minus_one then false else true)
    s ← get
    q ← need (table_entry s.jid2job j.jid)
    k ← load_job q
    store_job q (record k { jid = minus_one })
    modify λ t. record t {
      jid2job = update t.jid2job (jid_index j.jid) none;
      jobs = update t.jobs p none;
    }

  -- list_remove(&job->elem)
  unfoldable pub unlink_job : ℕ → Command (Shell L.Handle) (Unit {0})
  unlink_job p s = done tt (record s { job_list = L.remove s.job_list p })

  -- The body of the loop in print_all_jobs.
  unfoldable pub print_and_reap : ℕ → Command (Shell L.Handle) (Unit {0})
  unfolding load_job print_job is_over unlink_job delete_job
  print_and_reap p = do
    j ← load_job p
    ts ← need (print_job j)
    put ts
    if is_over j.status then (unlink_job p >> delete_job p) else pure tt

  unfoldable pub print_each : List ℕ → Command (Shell L.Handle) (Unit {0})
  unfolding print_and_reap
  print_each [] = pure tt
  print_each (p ∷ ps) = print_and_reap p >> print_each ps

  unfoldable pub print_all_jobs : Command (Shell L.Handle) (Unit {0})
  unfolding print_each
  print_all_jobs s = print_each (L.items s.job_list) s

  unfoldable pub free_each : List ℕ → Command (Shell L.Handle) (Unit {0})
  unfolding unlink_job delete_job
  free_each [] = pure tt
  free_each (p ∷ ps) = (unlink_job p >> delete_job p) >> free_each ps

  unfoldable pub free_all_jobs : Command (Shell L.Handle) (Unit {0})
  unfolding free_each
  free_all_jobs s = free_each (L.items s.job_list) s

  -- job_with_jid
  unfoldable pub job_with_jid : ℤ → Command (Shell L.Handle) (Option ℕ)
  job_with_jid jid = do
    s ← get
    need (scan s.jobs (λ j. some (int_eq j.jid jid)) (L.items s.job_list))
