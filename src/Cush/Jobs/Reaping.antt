-- ===== src/Cush/Jobs/Reaping.antt =====
-- print_all_jobs: it prints every job, and removes those that are over.
use mathlib.Core.List.{append_assoc}
use computer_systems_project.Base.{
  ℕ, ◌≡◌, ◌≢◌, refl, ap, sym, subst, ◌∙◌, inl, inr, Bool, true, false, Option, none, some, List, [],
  ◌∷◌, ◌++◌, arith, has, has-append, erase, Distinct, is_some, Option-cases, Bool-cases,
  if◌then◌else◌,
}
use computer_systems_project.LinkedList.{LinkedList}
use computer_systems_project.Run.{done, and_then}
use computer_systems_project.Cush.Ast.{Token}
use computer_systems_project.Cush.State.{Shell, Job}
use computer_systems_project.Cush.State.Calls.{load_job-done}
use computer_systems_project.Cush.Jobs.{
  is_over, print_job, print_and_reap, print_each, print_all_jobs, unlink_job, delete_job,
}
use computer_systems_project.Cush.Jobs.Consistent.{IsConsistent}
use computer_systems_project.Cush.Jobs.Deletion.{delete_job-IsConsistent, without_job}

-- Whether the job at an address has finished or was terminated.
abbrev pub over_at : (ℕ → Option Job) → ℕ → Bool
over_at jobs q = elim (jobs q) [ none ↦ false | some j ↦ is_over j.status ]

-- The listed jobs that are not over.
abbrev pub running : (ℕ → Option Job) → List ℕ → List ℕ
running jobs [] = []
running jobs (q ∷ qs) = if over_at jobs q then running jobs qs else q ∷ running jobs qs

-- Every listed job can be printed: each of its commands has a word.
abbrev pub Printable : (ℕ → Option Job) → List ℕ → Type 0
Printable jobs items =
    (q : ℕ) (j : Job) → has q items ≡ true → jobs q ≡ some j → is_some (print_job j) ≡ true

running-same :
    (jobs jobs' : ℕ → Option Job) (qs : List ℕ)
    → ((q : ℕ) → has q qs ≡ true → jobs' q ≡ jobs q)
    → running jobs' qs ≡ running jobs qs
running-same jobs jobs' [] same = refl
running-same jobs jobs' (q ∷ qs) same =
    ap
      (λ (o : Option Job).
        if elim o [ none ↦ false | some j ↦ is_over j.status ]
        then running jobs' qs
        else q ∷ running jobs' qs)
      (same q (ground arith))
    ∙ ap (λ l. if over_at jobs q then l else q ∷ l)
        (running-same jobs jobs' qs (λ r m. same r (ground arith)))

erase-middle : (p : ℕ) (pre ps : List ℕ) → has p pre ≡ false → erase p (pre ++ p ∷ ps) ≡ pre ++ ps
erase-middle p [] ps h = ground arith
erase-middle p (x ∷ pre) ps h = ground (arith, erase-middle p pre ps)

middle :
    (p : ℕ) (pre ps : List ℕ) → Distinct (pre ++ p ∷ ps) → (has p pre ≡ false) × (has p ps ≡ false)
middle p [] ps d = (refl, d.0)
middle p (x ∷ pre) ps d =
    let (a, b) = middle p pre ps d.1 in (ground (arith, d.0, has-append x pre (p ∷ ps)), b)

over_stored :
    (jobs : ℕ → Option Job) (p : ℕ) (j : Job) → jobs p ≡ some j → over_at jobs p ≡ is_over j.status
over_stored jobs p j at =
    ap (λ (o : Option Job). elim o [ none ↦ false | some k ↦ is_over k.status ]) at

elsewhere : (p q : ℕ) (ps : List ℕ) → has p ps ≡ false → has q ps ≡ true → q ≢ p
elsewhere p q ps fresh m same = absurd (ground (arith, subst (λ x. has x ps ≡ true) same m))

module _ (L : LinkedList) where
  abbrev Reaps : List ℕ → List ℕ → Shell L.Handle → Type 0
  Reaps pre ps u =
      (t : Shell L.Handle) × (print_each L ps u ≡ done tt t)
      × IsConsistent L t
      × (L.items t.job_list ≡ pre ++ running u.jobs ps)
      × ((q : ℕ) → over_at u.jobs q ≡ false → t.jobs q ≡ u.jobs q)

  abbrev printed : List Token → Shell L.Handle → Shell L.Handle
  printed ts u = record u { out = u.out ++ ts }

  step_over :
      (p : ℕ) (ps : List ℕ) (u v : Shell L.Handle) (j : Job) (ts : List Token)
      → u.jobs p ≡ some j
      → print_job j ≡ some ts
      → is_over j.status ≡ true
      → and_then (unlink_job L p (printed ts u)) (λ _. delete_job L p) ≡ done tt v
      → print_each L (p ∷ ps) u ≡ print_each L ps v
  unfolding print_each print_and_reap
  step_over p ps u v j ts at line over ran = rw (load_job-done p u j at, line, over, ran) refl

  step_on :
      (p : ℕ) (ps : List ℕ) (u : Shell L.Handle) (j : Job) (ts : List Token)
      → u.jobs p ≡ some j
      → print_job j ≡ some ts
      → is_over j.status ≡ false
      → print_each L (p ∷ ps) u ≡ print_each L ps (printed ts u)
  unfolding print_each print_and_reap
  step_on p ps u j ts at line over = rw (load_job-done p u j at, line, over) refl

  module _ (p : ℕ) (ps : List ℕ) (u : Shell L.Handle) where
    reap_over :
        (pre : List ℕ)
        → over_at u.jobs p ≡ true
        → (v : Shell L.Handle) → ((q : ℕ) → q ≢ p → v.jobs q ≡ u.jobs q)
        → has p ps ≡ false
        → print_each L (p ∷ ps) u ≡ print_each L ps v
        → Reaps pre ps v
        → Reaps pre (p ∷ ps) u
    reap_over pre over v kept fresh ran (t, ran', ct, it, keep) = (
      t,
      ran ∙ ran',
      ct,
      it
          ∙ ap (λ l. pre ++ l)
              (running-same u.jobs v.jobs ps (λ q m. kept q (elsewhere p q ps fresh m))
                ∙ sym (ap (λ b. if b then running u.jobs ps else p ∷ running u.jobs ps) over)),
      λ q h.
          let here = kept q (not_over q h) in
          keep q
            (ap (λ (o : Option Job). elim o [ none ↦ false | some j ↦ is_over j.status ]) here ∙ h)
          ∙ here,
    )
      where
        not_over : (q : ℕ) → over_at u.jobs q ≡ false → q ≢ p
        not_over q h same = let h' = subst (λ x. over_at u.jobs x ≡ false) same h in cc

    reap_on :
        (pre : List ℕ) (ts : List Token)
        → over_at u.jobs p ≡ false
        → print_each L (p ∷ ps) u ≡ print_each L ps (printed ts u)
        → Reaps (pre ++ p ∷ []) ps (printed ts u)
        → Reaps pre (p ∷ ps) u
    reap_on pre ts over ran (t, ran', ct, it, keep) = (
      t,
      ran ∙ ran',
      ct,
      it
          ∙ (append_assoc pre (p ∷ []) (running u.jobs ps)
              ∙ ap (λ l. pre ++ l)
                  (sym (ap (λ b. if b then running u.jobs ps else p ∷ running u.jobs ps) over))),
      keep,
    )

  reap :
      (ps pre : List ℕ) (u : Shell L.Handle)
      → IsConsistent L u
      → L.items u.job_list ≡ pre ++ ps
      → Printable u.jobs ps
      → Reaps pre ps u
  unfolding print_each
  reap [] pre u c e line = (u, refl, c, e, λ q h. refl)
  reap (p ∷ ps) pre u c e line =
      let m : has p (L.items u.job_list) ≡ true =
        rw e (ground (arith, has-append p pre (p ∷ ps))) in
      let d : Distinct (pre ++ p ∷ ps) = subst Distinct e c.distinct in
      let (out, fresh) = middle p pre ps d in
      elim (Option-cases (u.jobs p)) [
        | inl none_at ↦ let (n, at, _, _, _) = c.listed p m in absurd (ground arith)
        | inr (j, at) ↦ elim (Option-cases (print_job j)) [
          | inl none_at ↦ absurd (ground (arith, line p j (ground arith) at))
          | inr (ts, text) ↦ elim (Bool-cases (is_over j.status)) [
            | inr on ↦
                reap_on p ps u pre ts (over_stored u.jobs p j at ∙ on)
                  (step_on p ps u j ts at text on)
                  (reap ps (pre ++ p ∷ []) (printed ts u)
                    (record { distinct = c.distinct; listed = c.listed; tabled = c.tabled })
                    (e ∙ sym (append_assoc pre (p ∷ []) ps)) λ q k h. line q k (ground arith))
            | inl over ↦
                let (n, j', at', ran, items, gone, kept, c') =
                  delete_job-IsConsistent L p (printed ts u)
                    (record { distinct = c.distinct; listed = c.listed; tabled = c.tabled }) m in
                let v = without_job L p (printed ts u) n j' in
                reap_over p ps u pre (over_stored u.jobs p j at ∙ over) v kept fresh
                  (step_over p ps u v j ts at text over ran)
                  (reap ps pre v c' (items ∙ (ap (erase p) e ∙ erase-middle p pre ps out))
                    λ q i k h.
                      line q i (ground arith) (sym (kept q (elsewhere p q ps fresh k)) ∙ h))
          ]
        ]
      ]

  -- Where the list and the table of jobs agree and every listed job can be printed, `jobs` returns,
  -- and leaves in the list, in order, exactly the jobs that are neither finished nor terminated;
  -- these are untouched, and list and table still agree.
  pub print_all_jobs-running :
      (s : Shell L.Handle)
      → IsConsistent L s
      → Printable s.jobs (L.items s.job_list)
      → (t : Shell L.Handle) × (print_all_jobs L s ≡ done tt t)
        × IsConsistent L t
        × (L.items t.job_list ≡ running s.jobs (L.items s.job_list))
        × ((q : ℕ) → over_at s.jobs q ≡ false → t.jobs q ≡ s.jobs q)
  unfolding print_all_jobs
  print_all_jobs-running s c line = reap (L.items s.job_list) [] s c refl line
