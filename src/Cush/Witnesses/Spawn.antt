-- ===== src/Cush/Witnesses/Spawn.antt =====
-- The children of `sleep 9 |& cat >> log`.
use computer_systems_project.Base.{
  ℕ, ◌≡◌, ◌≢◌, ◌++◌, update, pos, refl, inr, true, false, some, List, [], ◌∷◌, arith,
}
use computer_systems_project.LinkedList.{sequence}
use computer_systems_project.Run.{done, Keeps}
use computer_systems_project.Cush.Ast.{AstCommand, AstPipeline, str, int}
use computer_systems_project.Cush.State.{Shell, Spawned, background}
use computer_systems_project.Cush.Spawn.{ChildAnswers, plan_child, spawn_children, started, launch}
use computer_systems_project.Cush.Spawn.Wiring.{
  AllGood, Succeeds, perform, at_start, expected, plan_child-expected,
}
use computer_systems_project.Cush.Spawn.Groups.{OnlySpawned, LedByFirst, spawn_children-family}
use computer_systems_project.Cush.Jobs.Slots.{IsFirstFree}
use computer_systems_project.Cush.Children.Handling.{Sound}
use computer_systems_project.Cush.Spawn.Launching.{
  CanLaunch, AtPrompt, started_job, launch-AtPrompt, launch-background,
}
use computer_systems_project.Cush.Witnesses.{demo, pipeline, job_1}
use computer_systems_project.Cush.Witnesses.Children.{demo-Sound, owner_500, owner_501}

abbrev good : ℕ → ChildAnswers
good pid = record {
  attr_init = true;
  actions_init = true;
  attributes = true;
  open_input = true;
  open_output = true;
  dup_output_stderr = true;
  dup_input = true;
  dup_output = true;
  dup_pipe_stderr = true;
  pid = some pid;
}

good-AllGood : (pid : ℕ) → AllGood (good pid)
good-AllGood pid = record {
  attr_init = refl;
  actions_init = refl;
  attributes = refl;
  open_input = refl;
  open_output = refl;
  dup_output_stderr = refl;
  dup_input = refl;
  dup_output = refl;
  dup_pipe_stderr = refl;
}

abbrev sleep : AstCommand
sleep = record { argv = "sleep" ∷ "9" ∷ []; dup_stderr_to_stdout = false }

abbrev cat : AstCommand
cat = record { argv = "cat" ∷ []; dup_stderr_to_stdout = true }

plan_child-expected_example :
    Succeeds
      (λ acts. perform at_start acts ≡ expected 2 1 pipeline cat)
      (plan_child 2 1 pipeline cat (good 701))
plan_child-expected_example =
    plan_child-expected 2 1 pipeline cat (good 701) (omega arith) (good-AllGood 701)

spawn_children-family_example :
    (t : Shell (List ℕ)) × (xs : List Spawned) × (spawn_children sequence 2 pipeline
        pipeline.commands 0 0 []
        (good 700 ∷ good 701 ∷ [])
        demo
      ≡ done (started (700 ∷ 701 ∷ [])) t)
    × (OnlySpawned demo t)
    × (t.spawned ≡ demo.spawned ++ xs)
    × (t.terminal.owner ≡ 700)
    × LedByFirst 2 pipeline (sleep ∷ cat ∷ []) (700 ∷ 701 ∷ []) xs
spawn_children-family_example =
    spawn_children-family sequence 2 pipeline (good 700 ∷ good 701 ∷ []) (700 ∷ 701 ∷ []) demo
      (refl, omega arith, good-AllGood 700, refl, (refl, omega arith, good-AllGood 701, refl, tt))
      refl refl

can_launch : CanLaunch sequence 200 job_1 pipeline (700 ∷ 701 ∷ []) demo
can_launch = record {
  sound = demo-Sound;
  fresh = refl;
  count = refl;
  slot = 2;
  slot_low = omega arith;
  slot_high = omega arith;
  slot_free = refl;
}

launch-AtPrompt_example :
    Keeps
      (λ r t. (r ≡ false) × AtPrompt sequence 200 job_1 pipeline (700 ∷ 701 ∷ []) demo t)
      (launch sequence 200 job_1 pipeline (700 ∷ 701 ∷ []) demo)
launch-AtPrompt_example =
    launch-AtPrompt sequence 200 job_1 pipeline (700 ∷ 701 ∷ []) demo can_launch refl refl
      (refl, refl) (inr owner_500, (inr owner_501, tt))

abbrev in_background : AstPipeline
in_background = record pipeline { bg_job = true }

can_launch_too : CanLaunch sequence 200 job_1 in_background (700 ∷ 701 ∷ []) demo
can_launch_too = record {
  sound = demo-Sound;
  fresh = refl;
  count = refl;
  slot = 2;
  slot_low = omega arith;
  slot_high = omega arith;
  slot_free = refl;
}

launch-background_example :
    (i : ℕ) × (t : Shell (List ℕ)) × (launch sequence 200 job_1 in_background (700 ∷ 701 ∷ []) demo
      ≡ done false t)
    × IsFirstFree demo.jid2job 1 i
    × (t.jobs 200
        ≡ some (record (started_job sequence 200 job_1 in_background (700 ∷ 701 ∷ []) demo i) {
          status = background;
        }))
    × ((q : ℕ) → q ≢ 200 → t.jobs q ≡ demo.jobs q)
    × (t.job_list ≡ 100 ∷ 200 ∷ [])
    × (t.jid2job ≡ update demo.jid2job i (some 200))
    × (t.out ≡ demo.out ++ (str "[" ∷ int (pos i) ∷ str "] " ∷ int (pos 700) ∷ str "\n" ∷ []))
    × Sound sequence t
    × (t.blocked_signals 17 ≡ false)
    × (t.terminal ≡ demo.terminal)
launch-background_example =
    launch-background sequence 200 job_1 in_background (700 ∷ 701 ∷ []) demo 700 can_launch_too refl
      refl

abbrev no_open : ChildAnswers
no_open = record (good 700) { attributes = false }
