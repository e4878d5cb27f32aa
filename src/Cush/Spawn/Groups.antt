-- ===== src/Cush/Spawn/Groups.antt =====
-- The children of a pipeline whose library calls all succeed: one child for each command, all in the
-- process group that the first child leads.
use mathlib.Core.List.{append_assoc, append-nil}
use computer_systems_project.Base.{
  ℕ, ◌+◌, ◌<◌, ◌≡◌, refl, inl, inr, true, false, not, some, List, [], ◌∷◌, ◌++◌, arith, ◌==◌,
  if◌then◌else◌, Bool-cases, Option-cases, is_some, get_elem?, length, int_eq, minus_one, ◌&&◌, sym,
  ap, ◌∙◌, ==_false_of_ne,
}
use computer_systems_project.LinkedList.{LinkedList}
use computer_systems_project.Run.{done, ◌>>◌, and_then, pure, require}
use computer_systems_project.Cush.Ast.{AstCommand, AstPipeline}
use computer_systems_project.Cush.State.{Shell, Spawned, Action}
use computer_systems_project.Cush.Term.{termstate_get_tty_fd}
use computer_systems_project.Cush.Spawn.{
  ChildAnswers, Plan, planned, refused, plan_child, started, spawn_children, check_tty,
}
use computer_systems_project.Cush.Spawn.Wiring.{
  AllGood, Succeeds, plan_child-expected, perform, at_start, expected,
}

-- Every command has a name, every library call succeeds, and posix_spawnp gives these pids.
abbrev pub Spawnable : List AstCommand → List ChildAnswers → List ℕ → Type 0
Spawnable [] answers [] = Unit {0}
Spawnable [] answers (pid ∷ pids) = ⊥
Spawnable (c ∷ cs) [] pids = ⊥
Spawnable (c ∷ cs) (a ∷ answers) [] = ⊥
Spawnable (c ∷ cs) (a ∷ answers) (pid ∷ pids) =
    (a.pid ≡ some pid)
    × (0 < pid)
    × AllGood a
    × (is_some (get_elem? c.argv 0) ≡ true)
    × Spawnable cs answers pids

plan_cases :
    (n i : ℕ) (p : AstPipeline) (c : AstCommand) (a : ChildAnswers)
    → i < n
    → AllGood a
    → (acts : List Action) × (plan_child n i p c a ≡ planned acts)
      × (perform at_start acts ≡ expected n i p c)
plan_cases n i p c a low good =
    go (plan_child n i p c a) refl (plan_child-expected n i p c a low good)
  where
    go :
        (r : Plan)
        → plan_child n i p c a ≡ r
        → Succeeds (λ acts. perform at_start acts ≡ expected n i p c) r
        → (acts : List Action) × (plan_child n i p c a ≡ planned acts)
          × (perform at_start acts ≡ expected n i p c)
    go (planned acts) e h = (acts, e, h)
    go (refused msg) e h = absurd h

-- `t` is `s` with more children, and perhaps another owner of the terminal.
abbrev pub OnlySpawned : {H : Type 0} → Shell H → Shell H → Type 0
OnlySpawned s t =
    t
    ≡ record s { spawned = t.spawned; terminal = record (s.terminal) { owner = t.terminal.owner } }

-- The shell has opened its terminal.
abbrev pub HasTty : {H : Type 0} → Shell H → Type 0
HasTty s = int_eq s.terminal.terminal_fd minus_one ≡ false

-- `x` runs the command `c` at place `i` of `n`, with the streams that a user expects, in `group`; 0
-- makes a group that it leads. In the foreground it takes the terminal.
pub record IsChild (n : ℕ) (pipe : AstPipeline) (i group : ℕ) (c : AstCommand) (pid : ℕ)
    (x : Spawned) : Type 0 where
  pub has_pid : x.pid ≡ pid
  pub in_group : x.group ≡ group
  pub foreground : x.takes_terminal ≡ not pipe.bg_job
  pub arguments : x.argv ≡ c.argv
  pub streams : perform at_start x.actions ≡ expected n i pipe c

module _ (n : ℕ) (pipe : AstPipeline) where
  -- One child for each command, in order, from place `i` on.
  abbrev pub InGroup : ℕ → ℕ → List AstCommand → List ℕ → List Spawned → Type 0
  InGroup i group [] [] [] = Unit {0}
  InGroup i group [] [] (x ∷ xs) = ⊥
  InGroup i group [] (pid ∷ pids) xs = ⊥
  InGroup i group (c ∷ cs) [] xs = ⊥
  InGroup i group (c ∷ cs) (pid ∷ pids) [] = ⊥
  InGroup i group (c ∷ cs) (pid ∷ pids) (x ∷ xs) =
      IsChild n pipe i group c pid x × InGroup (i + 1) group cs pids xs

  -- The first child leads a group, and the others are in it.
  abbrev pub LedByFirst : List AstCommand → List ℕ → List Spawned → Type 0
  LedByFirst [] pids xs = (pids ≡ []) × (xs ≡ [])
  LedByFirst (c ∷ cs) [] xs = ⊥
  LedByFirst (c ∷ cs) (pid ∷ pids) [] = ⊥
  LedByFirst (c ∷ cs) (pid ∷ pids) (x ∷ xs) = IsChild n pipe 0 0 c pid x × InGroup 1 pid cs pids xs

  -- The leader of a foreground job owns the terminal.
  abbrev pub owner_after : List ℕ → ℕ → ℕ
  owner_after [] old = old
  owner_after (pid ∷ pids) old = if not pipe.bg_job then pid else old

module _ (L : LinkedList) (n : ℕ) (pipe : AstPipeline) where
  get_tty_fd-done :
      (s : Shell L.Handle) → HasTty s → (termstate_get_tty_fd >> pure tt) s ≡ done tt s
  unfolding termstate_get_tty_fd
  get_tty_fd-done s ready =
      ap
        (λ b.
          and_then {S = Shell L.Handle}
            (and_then {S = Shell L.Handle} (require (not b) s) (λ _. pure s.terminal.terminal_fd))
            (λ _. pure tt))
        ready

  pub check_tty-done :
      (a : ChildAnswers) (s : Shell L.Handle) → HasTty s → check_tty L pipe a s ≡ done tt s
  unfolding check_tty
  check_tty-done a s ready =
      elim (Bool-cases (not pipe.bg_job && (a.attr_init && a.actions_init))) [
        | inl e ↦ rw e (get_tty_fd-done s ready)
        | inr e ↦ rw e refl
      ]

  abbrev child_of : ℕ → ℕ → AstCommand → List Action → Spawned
  child_of pid group c acts = record {
    pid = pid;
    group = group;
    takes_terminal = not pipe.bg_job;
    argv = c.argv;
    actions = acts;
  }

  abbrev with_child : Shell L.Handle → ℕ → ℕ → AstCommand → List Action → Shell L.Handle
  with_child s pid group c acts = record s {
    spawned = s.spawned ++ child_of pid group c acts ∷ [];
    terminal =
        if not pipe.bg_job
        then record (s.terminal) { owner = if group == 0 then pid else group }
        else s.terminal;
  }

  spawn_one :
      (c : AstCommand) (cs : List AstCommand) (i group : ℕ) (pids : List ℕ) (a : ChildAnswers)
      (answers : List ChildAnswers) (pid : ℕ) (acts : List Action) (s : Shell L.Handle)
      → HasTty s
      → plan_child n i pipe c a ≡ planned acts
      → is_some (get_elem? c.argv 0) ≡ true
      → a.pid ≡ some pid
      → spawn_children L n pipe (c ∷ cs) i group pids (a ∷ answers) s
        ≡ spawn_children L n pipe cs
            (i + 1)
            (if group == 0 then pid else group)
            (pids ++ pid ∷ [])
            answers
            (with_child s pid group c acts)
  unfolding spawn_children
  spawn_one c cs i group pids a answers pid acts s ready plan named got =
      elim (Option-cases (get_elem? c.argv 0)) [
        | inl e ↦ absurd (ground arith)
        | inr (w, e) ↦ rw (spawn_children, check_tty-done a s ready, plan) (rw (e, got) refl)
      ]

  OnlySpawned-with_child :
      (s : Shell L.Handle) (pid group : ℕ) (c : AstCommand) (acts : List Action)
      → OnlySpawned s (with_child s pid group c acts)
  OnlySpawned-with_child s pid group c acts = elim (Bool-cases pipe.bg_job) [
    | inl e ↦ rw e refl
    | inr e ↦ rw e refl
  ]

  OnlySpawned-trans : (s t u : Shell L.Handle) → OnlySpawned s t → OnlySpawned t u → OnlySpawned s u
  OnlySpawned-trans s t u h k =
      k
      ∙ ap
          (λ (x : Shell L.Handle). record x {
            spawned = u.spawned;
            terminal = record (x.terminal) { owner = u.terminal.owner };
          })
          h

  stay_in :
      (cs : List AstCommand) (i group pid : ℕ) (pids : List ℕ) (answers : List ChildAnswers)
      (s : Shell L.Handle)
      → 0 < group
      → spawn_children L n pipe cs i (if group == 0 then pid else group) pids answers s
        ≡ spawn_children L n pipe cs i group pids answers s
  stay_in cs i group pid pids answers s low =
      ap (λ g. spawn_children L n pipe cs i g pids answers s)
        (rw (==_false_of_ne group 0 (omega arith)))

  IsChild-child_of :
      (i group pid : ℕ) (c : AstCommand) (acts : List Action)
      → perform at_start acts ≡ expected n i pipe c
      → IsChild n pipe i group c pid (child_of pid group c acts)
  IsChild-child_of i group pid c acts e = record {
    has_pid = refl;
    in_group = refl;
    foreground = refl;
    arguments = refl;
    streams = e;
  }

  owner-with_child :
      (s : Shell L.Handle) (pid group : ℕ) (c : AstCommand) (acts : List Action)
      → (with_child s pid group c acts).terminal.owner
        ≡ (if not pipe.bg_job then (if group == 0 then pid else group) else s.terminal.owner)
  owner-with_child s pid group c acts = elim (Bool-cases pipe.bg_job) [
    | inl e ↦ rw e refl
    | inr e ↦ rw e refl
  ]

  HasTty-with_child :
      (s : Shell L.Handle) (pid group : ℕ) (c : AstCommand) (acts : List Action)
      → HasTty s
      → HasTty (with_child s pid group c acts)
  HasTty-with_child s pid group c acts ready = elim (Bool-cases pipe.bg_job) [
    | inl e ↦ rw e ready
    | inr e ↦ rw e ready
  ]

  -- The children behind the first join its group, which owns the terminal already.
  join_group :
      (cs : List AstCommand) (answers : List ChildAnswers) (new : List ℕ) (i group : ℕ)
      (pids : List ℕ) (s : Shell L.Handle)
      → Spawnable cs answers new
      → i + length cs ≡ n
      → 0 < group
      → HasTty s
      → (if not pipe.bg_job then group else s.terminal.owner) ≡ s.terminal.owner
      → (t : Shell L.Handle) × (xs : List Spawned) × (spawn_children L n pipe cs i group pids
            answers s
          ≡ done (started (pids ++ new)) t)
        × (OnlySpawned s t)
        × (t.spawned ≡ s.spawned ++ xs)
        × (t.terminal.owner ≡ s.terminal.owner)
        × InGroup n pipe i group cs new xs
  unfolding spawn_children
  join_group [] answers [] i group pids s h e low ready own =
      (s, [], rw append-nil, refl, sym (append-nil s.spawned), refl, tt)
  join_group [] answers (pid ∷ new) i group pids s h e low ready own = absurd h
  join_group (c ∷ cs) [] new i group pids s h e low ready own = absurd h
  join_group (c ∷ cs) (a ∷ answers) [] i group pids s h e low ready own = absurd h
  join_group (c ∷ cs) (a ∷ answers) (pid ∷ new) i group pids s (got, pos, good, named, rest) e low
        ready own =
      let (acts, plan, streams) = plan_cases n i pipe c a (omega arith) good in
      let u = with_child s pid group c acts in
      let step = spawn_one c cs i group pids a answers pid acts s ready plan named got in
      let kept : u.terminal.owner ≡ s.terminal.owner =
        owner-with_child s pid group c acts
        ∙ (rw (==_false_of_ne group 0 (omega (arith, low))) own) in
      let (t, xs, ran, only, list, owner, children) =
        join_group cs answers new (i + 1) group (pids ++ pid ∷ []) u rest (omega arith) low
          (HasTty-with_child s pid group c acts ready)
          (ap (λ o. if not pipe.bg_job then group else o) kept ∙ own ∙ sym kept) in
      (
        t,
        child_of pid group c acts ∷ xs,
        step
            ∙ (stay_in cs (i + 1) group pid (pids ++ pid ∷ []) answers u low
                ∙ (ran ∙ ap (λ l. done (started l) t) (append_assoc pids (pid ∷ []) new))),
        OnlySpawned-trans s u t (OnlySpawned-with_child s pid group c acts) only,
        list ∙ append_assoc s.spawned (child_of pid group c acts ∷ []) xs,
        owner ∙ kept,
        (IsChild-child_of i group pid c acts streams, children),
      )

  -- When every command has a name, every library call succeeds, with positive pids, and the shell
  -- has a terminal, it starts one child for each command, in order, with the arguments of the
  -- command and the streams that a user expects: the first child leads a new process group, and all
  -- others join it. In the foreground each child takes the terminal for the group, which owns it
  -- afterwards; nothing else of the shell changes.
  pub spawn_children-family :
      (answers : List ChildAnswers) (new : List ℕ) (s : Shell L.Handle)
      → Spawnable pipe.commands answers new
      → length pipe.commands ≡ n
      → HasTty s
      → (t : Shell L.Handle) × (xs : List Spawned) × (spawn_children L n pipe pipe.commands 0 0 []
            answers s
          ≡ done (started new) t)
        × (OnlySpawned s t)
        × (t.spawned ≡ s.spawned ++ xs)
        × (t.terminal.owner ≡ owner_after n pipe new s.terminal.owner)
        × LedByFirst n pipe pipe.commands new xs
  unfolding spawn_children
  spawn_children-family answers new s h e ready = go pipe.commands answers new h e
    where
      go :
          (cs : List AstCommand) (answers : List ChildAnswers) (new : List ℕ)
          → Spawnable cs answers new
          → length cs ≡ n
          → (t : Shell L.Handle) × (xs : List Spawned) × (spawn_children L n pipe cs 0 0 [] answers
                s
              ≡ done (started new) t)
            × (OnlySpawned s t)
            × (t.spawned ≡ s.spawned ++ xs)
            × (t.terminal.owner ≡ owner_after n pipe new s.terminal.owner)
            × LedByFirst n pipe cs new xs
      go [] answers [] h e = (s, [], refl, refl, sym (append-nil s.spawned), refl, (refl, refl))
      go [] answers (pid ∷ new) h e = absurd h
      go (c ∷ cs) [] new h e = absurd h
      go (c ∷ cs) (a ∷ answers) [] h e = absurd h
      go (c ∷ cs) (a ∷ answers) (pid ∷ new) (got, pos, good, named, rest) e =
          let (acts, plan, streams) = plan_cases n 0 pipe c a (omega arith) good in
          let u = with_child s pid 0 c acts in
          let step = spawn_one c cs 0 0 [] a answers pid acts s ready plan named got in
          let own = owner-with_child s pid 0 c acts in
          let (t, xs, ran, only, list, owner, children) =
            join_group cs answers new 1 pid (pid ∷ []) u rest (omega arith) pos
              (HasTty-with_child s pid 0 c acts ready) (settled u.terminal.owner pid own) in
          (
            t,
            child_of pid 0 c acts ∷ xs,
            step ∙ ran,
            OnlySpawned-trans s u t (OnlySpawned-with_child s pid 0 c acts) only,
            list ∙ append_assoc s.spawned (child_of pid 0 c acts ∷ []) xs,
            owner ∙ own,
            (IsChild-child_of 0 0 pid c acts streams, children),
          )
        where
          settled :
              (o pid : ℕ)
              → o ≡ (if not pipe.bg_job then pid else s.terminal.owner)
              → (if not pipe.bg_job then pid else o) ≡ o
          settled o pid h = ground arith
