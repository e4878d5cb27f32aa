-- ===== src/Cush/Witnesses/Children.antt =====
-- Wait statuses of the two children, and the builtins on their job.
use computer_systems_project.Base.{
  ℕ, ◌≡◌, refl, true, Option, none, some, List, [], ◌∷◌, arith, has, pos, eq_of_==, All, ◌≢◌,
}
use computer_systems_project.LinkedList.{sequence}
use computer_systems_project.Run.{done, crash, Keeps}
use computer_systems_project.Cush.Ast.{str}
use computer_systems_project.Cush.State.{Shell, Job, exit_code, signaled, continued}
use computer_systems_project.Cush.Atoi.{atoi, atoi_rest}
use computer_systems_project.Cush.Jobs.{get_job_from_jid, print_cmdline}
use computer_systems_project.Cush.Children.{handle_child_status, update_job, wait_for_job}
use computer_systems_project.Cush.Children.Owner.{AllFilled}
use computer_systems_project.Cush.Children.Effect.{Handled, update_job-Handled}
use computer_systems_project.Cush.Children.Handling.{
  Sound, Owner, NoOwner, Told, handle_child_status-Handled, handle_child_status-NoOwner,
}
use computer_systems_project.Cush.Children.Waiting.{IsKnown, Ready}
use computer_systems_project.Cush.Children.Finish.{WaitDone, wait_for_job-WaitDone}
use computer_systems_project.Cush.Children.Completion.{wait_for_job-done}
use computer_systems_project.Cush.Term.{termstate_give_terminal_to}
use computer_systems_project.Cush.Term.Frame.{Handed, give_terminal-Handed}
use computer_systems_project.Cush.Children.Return.{EndsChildOf}
use computer_systems_project.Cush.Builtins.{fg, bg, stop, kill, fg_job, kill_with, leader}
use computer_systems_project.Cush.Builtins.Foreground.{CanWait, BackAtShell, fg_job-BackAtShell}
use computer_systems_project.Cush.Builtins.Missing.{missing_job}
use computer_systems_project.Cush.Builtins.Signals.{kill_with-delivery}
use computer_systems_project.Cush.Witnesses.{demo, job_1, demo-IsConsistent}

demo_only : (q : ℕ) (j : Job) → demo.jobs q ≡ some j → ◌≡◌ {A = Option Job} (some j) (some job_1)
demo_only q j at = ground arith

demo_filled : AllFilled demo.jobs demo.job_list
demo_filled q j m at = let e = demo_only q j at in ground arith

pub demo-Sound : Sound sequence demo
demo-Sound = record { consistent = demo-IsConsistent; filled = demo_filled }

abbrev pub owner_500 : Owner sequence demo 500
owner_500 = record { address = 100; job = job_1; listed = refl; stored = refl; member = refl }

abbrev pub owner_501 : Owner sequence demo 501
owner_501 = record { address = 100; job = job_1; listed = refl; stored = refl; member = refl }

demo-IsKnown : All (IsKnown sequence demo) demo.waits
demo-IsKnown = (owner_500, (owner_501, tt))

demo-Ready : Ready sequence 100 demo.waits demo
demo-Ready = record {
  sound = demo-Sound;
  masked = refl;
  listed = refl;
  known = demo-IsKnown;
  tty = (refl, refl);
}

demo_orphan : NoOwner sequence demo 502
demo_orphan q j m at = let e = demo_only q j at in ground arith

exit_code≢continued : exit_code 0 ≢ continued
exit_code≢continued h = cc

only_100 : (q : ℕ) → has q (100 ∷ []) ≡ true → q ≡ 100
only_100 q m = ground (arith, eq_of_== 100 q)

demo_ends : All (EndsChildOf sequence 100 demo) demo.waits
demo_ends = (
  (owner_500, refl, λ o. only_100 o.address o.listed),
  ((owner_501, refl, λ o. only_100 o.address o.listed), tt),
)

demo-CanWait : CanWait sequence 100 job_1 demo
demo-CanWait = record {
  sound = demo-Sound;
  masked = refl;
  listed = refl;
  stored = refl;
  known = demo-IsKnown;
  tty = (refl, refl);
}

job_1_line :
    print_cmdline job_1.pipe ≡ some (str "sleep" ∷ str " " ∷ str "9" ∷ str "| " ∷ str "cat" ∷ [])
unfolding print_cmdline
job_1_line = refl

job_1-leader : leader job_1 ≡ some 500
unfolding leader
job_1-leader = refl

one : atoi "1" ≡ pos 1
unfolding atoi
one = refl

found_1 : get_job_from_jid sequence (atoi "1") demo ≡ some 100
unfolding get_job_from_jid atoi
found_1 = refl

missing_7 : get_job_from_jid sequence (atoi "7") demo ≡ none
unfolding get_job_from_jid atoi
missing_7 = refl

flag_17 : atoi_rest "-17" ≡ some (pos 17)
unfolding atoi_rest
flag_17 = refl

update_job-Handled_example :
    Keeps
      (λ _ t. Handled 100 job_1 (signaled 9) demo t)
      (update_job sequence (signaled 9) (some 100) demo)
update_job-Handled_example = update_job-Handled sequence 100 job_1 demo refl (signaled 9)

handle_child_status-Handled_example :
    Keeps
      (λ _ t. Told sequence demo demo-Sound refl 501 (signaled 9) t)
      (handle_child_status sequence 501 (signaled 9) demo)
handle_child_status-Handled_example =
    handle_child_status-Handled sequence demo demo-Sound refl 501 (signaled 9) owner_501

handle_child_status-NoOwner_example : handle_child_status sequence 502 (exit_code 0) demo ≡ crash
handle_child_status-NoOwner_example =
    handle_child_status-NoOwner sequence demo demo-Sound refl 502 (exit_code 0) demo_orphan
      exit_code≢continued

wait_for_job-WaitDone_example :
    Keeps (λ _ t. WaitDone sequence 100 t) (wait_for_job sequence 100 demo)
wait_for_job-WaitDone_example =
    wait_for_job-WaitDone sequence 100 demo demo-Sound refl refl demo-IsKnown (refl, refl)

fg_job-BackAtShell_example : Keeps (λ _ t. BackAtShell sequence t) (fg_job sequence 100 demo)
fg_job-BackAtShell_example =
    fg_job-BackAtShell sequence 100 job_1
      (str "sleep" ∷ str " " ∷ str "9" ∷ str "| " ∷ str "cat" ∷ []) 500 demo demo-CanWait job_1_line
      job_1-leader

kill_with-delivery_example :
    (t : Shell (List ℕ)) × (kill_with sequence "-17" "1" demo ≡ done tt t)
    × (t.sent ≡ (500, 19) ∷ [])
    × (t.jobs ≡ demo.jobs)
kill_with-delivery_example =
    kill_with-delivery sequence demo demo-IsConsistent "-17" "1" 17 100 job_1 500 [] flag_17 found_1
      refl job_1-leader refl

missing_job_example :
    (fg sequence ("fg" ∷ "7" ∷ []) demo
      ≡ done tt (record demo { out = str "fg" ∷ str " " ∷ str "7" ∷ str ": No such job\n" ∷ [] }))
    × (stop sequence ("fg" ∷ "7" ∷ []) demo
        ≡ done tt
            (record demo { out = str "stop" ∷ str " " ∷ str "7" ∷ str ": No such job\n" ∷ [] }))
    × (bg sequence ("fg" ∷ "7" ∷ []) demo ≡ crash)
    × (kill sequence ("fg" ∷ "7" ∷ []) demo ≡ crash)
    × (kill sequence ("fg" ∷ "-9" ∷ "7" ∷ []) demo ≡ crash)
missing_job_example = missing_job sequence demo demo-IsConsistent "7" missing_7 "fg" "-9" []

wait_for_job-done_example :
    (t : Shell (List ℕ)) × (wait_for_job sequence 100 demo ≡ done tt t) × WaitDone sequence 100 t
wait_for_job-done_example =
    wait_for_job-done sequence 100 demo job_1 2 [] demo-Ready demo_ends refl refl (omega arith) refl

give_terminal-Handed_example :
    Keeps (λ _ t. Handed demo t 600) (termstate_give_terminal_to (some 9) 600 demo)
give_terminal-Handed_example = give_terminal-Handed (some 9) 600 demo (refl, refl)
