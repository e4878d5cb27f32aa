-- ===== src/Cush/Witnesses.antt =====
-- Concrete runs of the shell: one pipeline of two commands in the foreground, with its children
-- 500 and 501, as job 1 at the address 100.
mod Children
mod Spawn
use computer_systems_project.Base.{
  ℕ, ◌≡◌, refl, inl, inr, Bool, true, false, Option, none, some, List, [], ◌∷◌, ◌++◌, arith, has, ℤ,
  pos, minus_one, update, Bool-cases, ◌==◌, eq_of_==, length, ◌≢◌,
}
use mathlib.Core.List.{map}
use computer_systems_project.LinkedList.{sequence}
use computer_systems_project.Run.{done, crash, Keeps, and_then}
use computer_systems_project.Cush.Ast.{AstPipeline, str}
use computer_systems_project.Cush.State.{
  Shell, Job, foreground, ChildStatus, exit_code, signaled, child, success, wait_error, max_jobs,
}
use computer_systems_project.Cush.Atoi.{atoi, atoi_rest, atoi_codes}
use computer_systems_project.Cush.Jobs.{
  get_job_from_jid, job_with_jid, table_entry, add_job, unlink_job, delete_job, print_cmdline,
}
use computer_systems_project.Cush.Jobs.Consistent.{IsConsistent, IsListed}
use computer_systems_project.Cush.Jobs.Slots.{IsFirstFree}
use computer_systems_project.Cush.Jobs.Insertion.{add_job-IsFirstFree, with_job}
use computer_systems_project.Cush.Jobs.Lookup.{job_with_jid-get_job_from_jid}
use computer_systems_project.Cush.Jobs.{print_job, print_all_jobs}
use computer_systems_project.Cush.State.{finished}
use computer_systems_project.Base.{ap, ◌∙◌, is_some, false}
use computer_systems_project.Cush.Jobs.Reaping.{Printable, running, over_at, print_all_jobs-running}
use computer_systems_project.Cush.Jobs.Deletion.{delete_job-IsConsistent, without_job}

abbrev pub pipeline : AstPipeline
pipeline = record {
  commands =
      record { argv = "sleep" ∷ "9" ∷ []; dup_stderr_to_stdout = false }
      ∷ record { argv = "cat" ∷ []; dup_stderr_to_stdout = true }
      ∷ [];
  iored_input = none;
  iored_output = some "log";
  append_to_output = true;
  bg_job = false;
}

abbrev pub job_1 : Job
job_1 = record {
  pipe = pipeline;
  jid = pos 1;
  status = foreground;
  num_processes_alive = pos 2;
  saved_tty_state = 0;
  termination_code = minus_one;
  child_pid_array = 500 ∷ 501 ∷ [];
  state_saved_previously = false;
}

abbrev pub demo : Shell (List ℕ)
demo = record {
  jobs = update (λ _. none) 100 (some job_1);
  job_list = 100 ∷ [];
  jid2job = update (λ _. none) 1 (some 100);
  z_update_jid = minus_one;
  error_update_code = minus_one;
  blocked_signals = λ sig. sig == 17;
  terminal = record {
    terminal_fd = pos 3;
    saved_tty_state = 7;
    shell_pgrp = 400;
    settings = 7;
    owner = 500;
  };
  open_pipes = 0;
  spawned = [];
  sent = [];
  out = [];
  waits = child 500 (exit_code 0) ∷ child 501 (signaled 9) ∷ [];
  answers = success ∷ [];
}

demo-IsListed : (p : ℕ) → has p (100 ∷ []) ≡ true → IsListed demo.jobs demo.jid2job p
demo-IsListed p m = elim (Bool-cases (100 == p)) [
  | inl e ↦ (1, ground arith, omega arith, omega arith, ground arith)
  | inr e ↦ absurd (ground arith)
]

pub demo-IsConsistent : IsConsistent sequence demo
demo-IsConsistent = record {
  distinct = (refl, tt);
  listed = demo-IsListed;
  tabled = λ n p t. (ground arith, ground arith);
}

job_with_jid-get_job_from_jid_example :
    job_with_jid sequence (pos 1) demo ≡ done (get_job_from_jid sequence (pos 1) demo) demo
job_with_jid-get_job_from_jid_example =
    job_with_jid-get_job_from_jid sequence demo demo-IsConsistent (pos 1)

add_job-IsFirstFree_example :
    (i : ℕ) × (add_job sequence 200 job_1 pipeline demo
      ≡ done 200 (with_job sequence 200 job_1 pipeline demo i))
    × IsFirstFree demo.jid2job 1 i
    × ((with_job sequence 200 job_1 pipeline demo i).job_list ≡ 100 ∷ 200 ∷ [])
    × IsConsistent sequence (with_job sequence 200 job_1 pipeline demo i)
add_job-IsFirstFree_example =
    add_job-IsFirstFree sequence 200 job_1 pipeline demo 2 (omega arith) (omega arith) refl
      demo-IsConsistent refl

delete_job-IsConsistent_example :
    (n : ℕ) × (j : Job) × (demo.jobs 100 ≡ some j)
    × (and_then (unlink_job sequence 100 demo) (λ _. delete_job sequence 100)
        ≡ done tt (without_job sequence 100 demo n j))
    × ((without_job sequence 100 demo n j).job_list ≡ [])
    × ((without_job sequence 100 demo n j).jobs 100 ≡ none)
    × ((q : ℕ) → q ≢ 100 → (without_job sequence 100 demo n j).jobs q ≡ demo.jobs q)
    × IsConsistent sequence (without_job sequence 100 demo n j)
delete_job-IsConsistent_example = delete_job-IsConsistent sequence 100 demo demo-IsConsistent refl

-- The job of the example, after both of its children have ended.
abbrev ended : Shell (List ℕ)
ended = record demo { jobs = update (λ _. none) 100 (some (record job_1 { status = finished })) }

ended-IsListed : (p : ℕ) → has p (100 ∷ []) ≡ true → IsListed ended.jobs ended.jid2job p
ended-IsListed p m = elim (Bool-cases (100 == p)) [
  | inl e ↦ (1, ground arith, omega arith, omega arith, ground arith)
  | inr e ↦ absurd (ground arith)
]

ended-IsConsistent : IsConsistent sequence ended
ended-IsConsistent = record {
  distinct = (refl, tt);
  listed = ended-IsListed;
  tabled = λ n p t. (ground arith, ground arith);
}

ended_line : is_some (print_job (record job_1 { status = finished })) ≡ true
unfolding print_job
ended_line = refl

ended-Printable : Printable ended.jobs (100 ∷ [])
ended-Printable q j m at =
    let same : some j ≡ some (record job_1 { status = finished }) = ground arith in
    ap (λ (o : Option Job). elim o [ none ↦ true | some k ↦ is_some (print_job k) ]) same
    ∙ ended_line

print_all_jobs-running_example :
    (t : Shell (List ℕ)) × (print_all_jobs sequence ended ≡ done tt t)
    × IsConsistent sequence t
    × (t.job_list ≡ running ended.jobs (100 ∷ []))
    × ((q : ℕ) → over_at ended.jobs q ≡ false → t.jobs q ≡ ended.jobs q)
print_all_jobs-running_example =
    print_all_jobs-running sequence ended ended-IsConsistent ended-Printable
