-- ===== src/Cush/Builtins/Signals.antt =====
-- kill: which signal reaches which process group.
use Prim.Native.String.{String}
use computer_systems_project.Base.{
  ℕ, ◌≡◌, refl, Option, none, some, List, [], ◌∷◌, ◌++◌, arith, has, pos, if◌then◌else◌,
}
use computer_systems_project.LinkedList.{LinkedList}
use computer_systems_project.Run.{done}
use computer_systems_project.Cush.Ast.{str}
use computer_systems_project.Cush.State.{Shell, Job, Rc, success}
use computer_systems_project.Cush.State.Calls.{load_job-done, killpg-success}
use computer_systems_project.Cush.Atoi.{atoi, atoi_rest}
use computer_systems_project.Cush.Jobs.{get_job_from_jid}
use computer_systems_project.Cush.Jobs.Consistent.{IsConsistent}
use computer_systems_project.Cush.Jobs.Lookup.{job_with_jid-get_job_from_jid}
use computer_systems_project.Cush.Builtins.{group_of, kill_with, kill_signal, kill_message, leader}

-- The numbers that kill sends as they are, and those that it takes for SIGSTOP.
abbrev pub as_is : List ℕ
as_is = 1 ∷ 2 ∷ 3 ∷ 6 ∷ 9 ∷ 15 ∷ 19 ∷ []

abbrev pub taken_for_stop : List ℕ
taken_for_stop = 17 ∷ 23 ∷ []

-- What kill adds to the signals sent, for the number `n`.
abbrev pub delivery : ℕ → ℕ → List (ℕ × ℕ) → List (ℕ × ℕ)
delivery group n sent =
    if has n as_is
    then (group, n) ∷ sent
    else if has n taken_for_stop
    then (group, 19) ∷ sent
    else sent

delivery_lem :
    (group n : ℕ) (sent : List (ℕ × ℕ)) (r : Option ℕ)
    → kill_signal (pos n) ≡ r
    → (elim r [ none ↦ sent | some sig ↦ (group, sig) ∷ sent ]) ≡ delivery group n sent
unfolding kill_signal
delivery_lem group n sent none e = ground arith
delivery_lem group n sent (some sig) e = ground arith

module _ (L : LinkedList) (s : Shell L.Handle) (c : IsConsistent L s) where
  pub group_of-leader :
      (arg : String) (p : ℕ) (j : Job) (group : ℕ)
      → get_job_from_jid L (atoi arg) s ≡ some p
      → s.jobs p ≡ some j
      → leader j ≡ some group
      → group_of L arg s ≡ done group s
  unfolding group_of
  group_of-leader arg p j group found at led =
      rw (job_with_jid-get_job_from_jid L s c (atoi arg), found, load_job-done p s j at, led)

  -- Where list and table agree, `kill -n jid` for a jid that a job has, where killpg() succeeds,
  -- sends one signal to the process group of that job: the signal n if n is 1, 2, 3, 6, 9, 15 or
  -- 19, and SIGSTOP if it is 17 or 23, which are SIGCHLD and SIGURG. For any other number it sends
  -- nothing.
  pub kill_with-delivery :
      (flag arg : String) (n p : ℕ) (j : Job) (group : ℕ) (rest : List Rc)
      → atoi_rest flag ≡ some (pos n)
      → get_job_from_jid L (atoi arg) s ≡ some p
      → s.jobs p ≡ some j
      → leader j ≡ some group
      → s.answers ≡ success ∷ rest
      → (t : Shell L.Handle) × (kill_with L flag arg s ≡ done tt t)
        × (t.sent ≡ delivery group n s.sent)
        × (t.jobs ≡ s.jobs)
  unfolding kill_with
  kill_with-delivery flag arg n p j group rest num found at led ans =
      let grp = group_of-leader arg p j group found at led in go (kill_signal (pos n)) refl grp
    where
      go :
          (r : Option ℕ)
          → kill_signal (pos n) ≡ r
          → group_of L arg s ≡ done group s
          → (t : Shell L.Handle) × (kill_with L flag arg s ≡ done tt t)
            × (t.sent ≡ delivery group n s.sent)
            × (t.jobs ≡ s.jobs)
      go none e grp = (
        record s { out = s.out ++ str "kill: usage: kill [-SIGNAL] [jid]\n" ∷ str "kill" ∷ [] },
        rw (num, grp, e),
        delivery_lem group n s.sent none e,
        refl,
      )
      go (some sig) e grp = (
        record s {
          answers = rest;
          sent = (group, sig) ∷ s.sent;
          out = s.out ++ kill_message (pos n);
        },
        rw (num, grp, e, killpg-success 0 s group sig rest ans),
        delivery_lem group n s.sent (some sig) e,
        refl,
      )
