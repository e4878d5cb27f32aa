-- ===== src/Cush/Jobs/Deletion.antt =====
-- list_remove followed by delete_job, as print_all_jobs, free_all_jobs and wait_for_job call them.
use computer_systems_project.Base.{
  ℕ, ◌<◌, ◌≡◌, refl, inl, inr, ◌≢◌, true, Option, none, some, List, arith, has, erase, pos,
  minus_one, ◌∙◌, Bool-cases, ◌==◌, ne_of_==, has-erase_self, has-erase_other, Distinct-erase,
  update, update_same, update_other, eq_of_==,
}
use computer_systems_project.LinkedList.{LinkedList}
use computer_systems_project.Run.{done, and_then}
use computer_systems_project.Cush.State.{Shell, Job, max_jobs}
use computer_systems_project.Cush.Jobs.{table_entry, unlink_job, delete_job}
use computer_systems_project.Cush.Jobs.Consistent.{Agree, IsConsistent, IsListed, jid_of}

module _ (jobs jobs' : ℕ → Option Job) (items : List ℕ) (table : ℕ → Option ℕ) (p n : ℕ)
    (a : Agree jobs items table) (entry : table n ≡ some p)
    (same : (q : ℕ) → q ≢ p → jobs' q ≡ jobs q) where
  still : (q : ℕ) → has q (erase p items) ≡ true → (q ≢ p) × (has q items ≡ true)
  still q m = elim (Bool-cases (q == p)) [
    | inl e ↦
        let gone = has-erase_self p items a.distinct in absurd (ground (arith, eq_of_== q p e))
    | inr e ↦ (ne_of_== q p e, ground (arith, has-erase_other p q items (ne_of_== q p e)))
  ]

  erase-IsListed : (q : ℕ) → has q (erase p items) ≡ true → IsListed jobs' (update table n none) q
  erase-IsListed q m =
      let (other, m') = still q m in
      let (k, at, low, high, t) = a.listed q m' in
      (k, rw (same q other) at, low, high, ground arith)

  erase_tabled :
      (k q : ℕ)
      → update table n none k ≡ some q
      → (has q (erase p items) ≡ true) × (jid_of (jobs' q) ≡ some (pos k))
  erase_tabled k q t =
      let t' : table k ≡ some q = ground arith in
      let (m, at) = a.tabled k q t' in
      let (mp, atp) = a.tabled n p entry in
      elim (Bool-cases (q == p)) [
        | inl e ↦ absurd (ground (arith, eq_of_== q p e))
        | inr e ↦
            let other = ne_of_== q p e in
            (rw (has-erase_other p q items other) m, rw (same q other) at)
      ]

  pub Agree-erase : Agree jobs' (erase p items) (update table n none)
  Agree-erase = record {
    distinct = Distinct-erase p items a.distinct;
    listed = erase-IsListed;
    tabled = erase_tabled;
  }

pub job_of :
    (o : Option Job) (n : ℕ) → jid_of o ≡ some (pos n) → (j : Job) × (o ≡ some j) × (j.jid ≡ pos n)
job_of none n h = cc
job_of (some j) n h = (j, refl, ground arith)

table_entry-lt :
    (table : ℕ → Option ℕ) (n p : ℕ)
    → n < max_jobs
    → table n ≡ some p
    → table_entry table (pos n) ≡ some p
unfolding table_entry
table_entry-lt table n p high t = ground arith

module _ (L : LinkedList) (p : ℕ) (s : Shell L.Handle) where
  -- The state without the job `j` at `p`, of jid `n`.
  abbrev pub without_job : ℕ → Job → Shell L.Handle
  without_job n j = record s {
    jobs = update (update s.jobs p (some (record j { jid = minus_one }))) p none;
    job_list = L.remove s.job_list p;
    jid2job = update s.jid2job n none;
  }

  delete-done :
      (n : ℕ) (j : Job)
      → s.jobs p ≡ some j
      → j.jid ≡ pos n
      → table_entry s.jid2job (pos n) ≡ some p
      → and_then (unlink_job L p s) (λ _. delete_job L p) ≡ done tt (without_job n j)
  unfolding unlink_job delete_job
  delete-done n j at named entry = ground arith

  without-other : (n : ℕ) (j : Job) (q : ℕ) → q ≢ p → (without_job n j).jobs q ≡ s.jobs q
  without-other n j q h =
      update_other (update s.jobs p (some (record j { jid = minus_one }))) p none q h
      ∙ update_other s.jobs p (some (record j { jid = minus_one })) q h

  -- Where list and table agree, removing a listed job takes it out of the list, the table and the
  -- heap, touches no other job, and leaves list and table in agreement.
  pub delete_job-IsConsistent :
      IsConsistent L s
      → has p (L.items s.job_list) ≡ true
      → (n : ℕ) × (j : Job) × (s.jobs p ≡ some j)
        × (and_then (unlink_job L p s) (λ _. delete_job L p) ≡ done tt (without_job n j))
        × (L.items (without_job n j).job_list ≡ erase p (L.items s.job_list))
        × ((without_job n j).jobs p ≡ none)
        × ((q : ℕ) → q ≢ p → (without_job n j).jobs q ≡ s.jobs q)
        × IsConsistent L (without_job n j)
  delete_job-IsConsistent c m =
      let (n, named, low, high, t) = c.listed p m in
      let (j, at, jid) = job_of (s.jobs p) n named in
      let kept = λ (q : ℕ) (h : q ≢ p). without-other n j q h in
      let gone = L.items-remove s.job_list p m in
      (
        n,
        j,
        at,
        delete-done n j at jid (table_entry-lt s.jid2job n p high t),
        gone,
        update_same (update s.jobs p (some (record j { jid = minus_one }))) p none,
        kept,
        rw gone
            (Agree-erase s.jobs (without_job n j).jobs (L.items s.job_list) s.jid2job p n c t kept),
      )
