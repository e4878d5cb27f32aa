-- ===== src/Cush/Jobs/Lookup.antt =====
-- The two ways to find a job by its jid: the table, and the walk along the list.
use computer_systems_project.Base.{
  ℕ, ◌≡◌, refl, inl, inr, Bool, true, false, Option, none, some, List, [], ◌∷◌, arith, has, ℤ, pos,
  negsuc, Option-cases, is_some, sym, subst, int_eq, eq_of_int_eq, int_eq_refl, Bool-cases, ◌==◌,
}
use computer_systems_project.LinkedList.{LinkedList}
use computer_systems_project.Run.{done}
use computer_systems_project.Cush.State.{Shell, Job}
use computer_systems_project.Cush.Jobs.{scan, get_job_from_jid, job_with_jid}
use computer_systems_project.Cush.Jobs.Consistent.{Agree, IsConsistent}

-- What a scan for the first job with a property gives.
abbrev pub Scanned : (ℕ → Option Job) → (Job → Bool) → List ℕ → Option (Option ℕ) → Type 0
Scanned jobs test items none = ⊥
Scanned jobs test items (some none) =
    (q : ℕ) → has q items ≡ true → (j : Job) × (jobs q ≡ some j) × (test j ≡ false)
Scanned jobs test items (some (some p)) =
    (has p items ≡ true) × ((j : Job) × (jobs p ≡ some j) × (test j ≡ true))

-- Every listed pointer leads to a job.
abbrev pub Allocated : (ℕ → Option Job) → List ℕ → Type 0
Allocated jobs items = (q : ℕ) → has q items ≡ true → is_some (jobs q) ≡ true

skip :
    (jobs : ℕ → Option Job) (test : Job → Bool) (p : ℕ) (ps : List ℕ) (j : Job)
    → jobs p ≡ some j
    → test j ≡ false
    → (r : Option (Option ℕ)) → Scanned jobs test ps r
    → Scanned jobs test (p ∷ ps) r
skip jobs test p ps j at miss none h = h
skip jobs test p ps j at miss (some none) h = λ q m. elim (Bool-cases (p == q)) [
  | inl e ↦ (j, ground arith, miss)
  | inr e ↦ h q (ground arith)
]
skip jobs test p ps j at miss (some (some q)) h = (ground arith, h.1)

pub scan-Scanned :
    (jobs : ℕ → Option Job) (test : Job → Bool) (items : List ℕ)
    → Allocated jobs items
    → Scanned jobs test items (scan jobs (λ j. some (test j)) items)
unfolding scan
scan-Scanned jobs test [] all = λ q m. cc
scan-Scanned jobs test (p ∷ ps) all = elim (Option-cases (jobs p)) [
  | inl e ↦ absurd (ground (arith, all p))
  | inr (j, e) ↦ elim (Bool-cases (test j)) [
    | inl hit ↦ rw (e, scan) (rw hit (ground arith, (j, e, hit)))
    | inr miss ↦
        rw (e, scan)
          (rw miss (
            skip jobs test p ps j e miss _
              (scan-Scanned jobs test ps (λ q m. all q (ground arith)))))
  ]
]

module _ (jobs : ℕ → Option Job) (items : List ℕ) (table : ℕ → Option ℕ)
    (a : Agree jobs items table) where
  pub Agree-Allocated : Allocated jobs items
  Agree-Allocated q m = let (n, at, _, _, _) = a.listed q m in ground arith

abbrev by_jid : ℤ → Job → Bool
by_jid z j = int_eq j.jid z

module _ (L : LinkedList) (s : Shell L.Handle) (c : IsConsistent L s) where
  found_in_table :
      (z : ℤ) (r : Option (Option ℕ))
      → Scanned s.jobs (by_jid z) (L.items s.job_list) r
      → r ≡ some (get_job_from_jid L z s)
  unfolding get_job_from_jid
  found_in_table z none h = absurd h
  found_in_table (negsuc n) (some none) h = refl
  found_in_table (pos n) (some none) h = elim (Option-cases (s.jid2job n)) [
    | inl e ↦ ground arith
    | inr (p, e) ↦
        let (m, at) = c.tabled n p e in
        let (j, here, miss) = h p m in
        let same : j.jid ≡ pos n = ground arith in absurd (ground (arith, int_eq_refl (pos n)))
  ]
  found_in_table z (some (some p)) (m, (j, at, hit)) =
      let (n, named, low, high, t) = c.listed p m in
      let e : z ≡ pos n = ground (arith, eq_of_int_eq j.jid z hit) in
      subst (λ y. some (some p) ≡ some (get_job_from_jid L y s)) (sym e) (ground arith)

  -- While list and table agree, the walk along the job list finds for any jid, negative ones
  -- included, what the table gives, and changes nothing.
  pub job_with_jid-get_job_from_jid : (z : ℤ) → job_with_jid L z s ≡ done (get_job_from_jid L z s) s
  unfolding job_with_jid
  job_with_jid-get_job_from_jid z = rw (
      found_in_table z _ (
        scan-Scanned s.jobs (by_jid z) (L.items s.job_list)
          (Agree-Allocated s.jobs (L.items s.job_list) s.jid2job c)))
