-- ===== src/Cush/Children/Return.antt =====
-- wait_for_job does not wait for ever: once each child of the job has ended, its loop returns.
use computer_systems_project.Base.{
  ℕ, zero, suc, ◌≤◌, ◌≡◌, refl, inl, inr, true, false, some, List, [], ◌∷◌, arith, All, has, length,
  ◌==◌, Bool-cases, pos, subst, sym, ap, ◌∙◌, ne_of_==, eq_of_==,
}
use computer_systems_project.LinkedList.{LinkedList}
use computer_systems_project.Run.{done, Keeps-done}
use computer_systems_project.Cush.State.{Shell, Job, ChildStatus, Wait, child, wait_error}
use computer_systems_project.Cush.State.Calls.{load_job-done}
use computer_systems_project.Cush.Children.{
  keeps_waiting, handle_child_status, handle_wait, wait_loop,
}
use computer_systems_project.Cush.Children.Effect.{Changed, is_gone}
use computer_systems_project.Cush.Children.Handling.{Owner, handle_child_status-done}
use computer_systems_project.Cush.Children.Waiting.{
  Ready, Waited, wait_loop-Waited, keep_owner, Told-Ready,
}

-- waitpid() reports the end of a child that the job at `p`, and no other job, has.
abbrev pub EndsChildOf : (L : LinkedList) → ℕ → Shell L.Handle → Wait → Type 0
EndsChildOf L p s (child pid c) =
    Owner L s pid × (is_gone c ≡ true) × ((o : Owner L s pid) → o.address ≡ p)
EndsChildOf L p s wait_error = ⊥

module _ (L : LinkedList) {p : ℕ} {j : Job} {s t : Shell L.Handle} (h : Changed p j s t)
    (at : s.jobs p ≡ some j) where
  earlier_owner : (pid : ℕ) (o : Owner L t pid) → (o' : Owner L s pid) × (o'.address ≡ o.address)
  earlier_owner pid o = elim (Bool-cases (o.address == p)) [
    | inl e ↦
        let here = eq_of_== o.address p e in
        let same : some o.job ≡ some h.now = sym o.stored ∙ (ap t.jobs here ∙ h.stored) in
        (
          record {
            address = o.address;
            job = j;
            listed = subst (λ l. has o.address (L.items l) ≡ true) h.same_list o.listed;
            stored = ap s.jobs here ∙ at;
            member = rw (← h.same_pids) (ground (arith, o.member));
          },
          refl,
        )
    | inr e ↦ (
      record {
        address = o.address;
        job = o.job;
        listed = subst (λ l. has o.address (L.items l) ≡ true) h.same_list o.listed;
        stored = sym (h.others o.address (ne_of_== o.address p e)) ∙ o.stored;
        member = o.member;
      },
      refl,
    )
  ]

  keep_ends : (q : ℕ) (ws : List Wait) → All (EndsChildOf L q s) ws → All (EndsChildOf L q t) ws
  keep_ends q [] k = tt
  keep_ends q (child pid d ∷ ws) k = (
    (
      keep_owner L h at pid k.0.0,
      k.0.1,
      λ o. let (o', same) = earlier_owner pid o in sym same ∙ k.0.2 o',
    ),
    keep_ends q ws k.1,
  )
  keep_ends q (wait_error ∷ ws) k = absurd k.0

module _ (L : LinkedList) (p : ℕ) where
  abbrev pub Returns : List Wait → Shell L.Handle → Type 0
  Returns ws s =
      (rest : List Wait) × (t : Shell L.Handle) × (wait_loop L p ws s ≡ done rest t)
      × Waited L p rest t
      × (t.answers ≡ s.answers)

  returned :
      (ws : List Wait) (s : Shell L.Handle) (rest : List Wait) (t : Shell L.Handle)
      → t.answers ≡ s.answers
      → Ready L p ws s
      → wait_loop L p ws s ≡ done rest t
      → Returns ws s
  returned ws s rest t same r e = (
    rest,
    t,
    e,
    Keeps-done (λ l u. Waited L p l u) (wait_loop L p ws s) rest t (wait_loop-Waited L p ws s r) e,
    same,
  )

  stops :
      (ws : List Wait) (s : Shell L.Handle) (j : Job)
      → s.jobs p ≡ some j
      → keeps_waiting j ≡ false
      → wait_loop L p ws s ≡ done ws s
  unfolding wait_loop
  stops [] s j at e = rw (load_job-done p s j at, e)
  stops (w ∷ ws) s j at e = rw (load_job-done p s j at, e)

  goes_on :
      (pid : ℕ) (c : ChildStatus) (ws : List Wait) (s t : Shell L.Handle) (j : Job)
      → s.jobs p ≡ some j
      → keeps_waiting j ≡ true
      → handle_child_status L pid c s ≡ done tt t
      → wait_loop L p (child pid c ∷ ws) s ≡ wait_loop L p ws t
  unfolding wait_loop handle_wait
  goes_on pid c ws s t j at e ran = rw (load_job-done p s j at, e, ran)

  not_waiting : (j : Job) → j.num_processes_alive ≡ pos 0 → keeps_waiting j ≡ false
  unfolding keeps_waiting
  not_waiting j e = ground arith

  -- From a state as wait_for_job-WaitDone asks for it: when waitpid() reports the ends of as many
  -- children of the job as are alive, which no other job has, the loop of wait_for_job returns,
  -- with no answer of another system call taken.
  pub wait_loop-Returns :
      (ws : List Wait) (s : Shell L.Handle) (j : Job) (k : ℕ)
      → Ready L p ws s
      → All (EndsChildOf L p s) ws
      → s.jobs p ≡ some j
      → j.num_processes_alive ≡ pos k
      → k ≤ length ws
      → Returns ws s
  wait_loop-Returns [] s j k r ends at alive enough =
      let none_alive : j.num_processes_alive ≡ pos 0 = alive ∙ ap pos (omega arith) in
      returned [] s [] s refl r (stops [] s j at (not_waiting j none_alive))
  wait_loop-Returns (wait_error ∷ ws) s j k r ends at alive enough = absurd ends.0
  wait_loop-Returns (child pid c ∷ ws) s j zero r ends at alive enough =
      returned (child pid c ∷ ws) s (child pid c ∷ ws) s refl r
        (stops (child pid c ∷ ws) s j at (not_waiting j alive))
  wait_loop-Returns (child pid c ∷ ws) s j (suc k) r ((o, ended, mine), ends) at alive enough =
      elim (Bool-cases (keeps_waiting j)) [
        | inr e ↦
            returned (child pid c ∷ ws) s (child pid c ∷ ws) s refl r
              (stops (child pid c ∷ ws) s j at e)
        | inl e ↦
            let (t, ran, told, unasked) =
              handle_child_status-done L s r.sound r.masked pid c o ended in
            let (o', h) = told.1 in
            let here = mine o' in
            let same : some o'.job ≡ some j = sym o'.stored ∙ (ap s.jobs here ∙ at) in
            let at' : t.jobs p ≡ some h.now = subst (λ q. t.jobs q ≡ some h.now) here h.stored in
            let left : h.now.num_processes_alive ≡ pos k = ground (arith, h.alive) in
            let (rest, u, ran', w, unasked') =
              wait_loop-Returns ws t h.now k (Told-Ready L p ws s t pid c r told)
                (keep_ends L h.change o'.stored p ws ends) at' left (omega arith) in
            (rest, u, goes_on pid c ws s t j at e ran ∙ ran', w, unasked' ∙ unasked)
      ]
