-- ===== src/Cush/Jobs/Consistent.antt =====
-- When the list and the table of jobs agree, and that add_job keeps them so.
use computer_systems_project.Base.{
  ℕ, ◌<◌, ◌≡◌, inl, inr, true, false, Option, none, some, List, [], ◌∷◌, ◌++◌, arith, has, Distinct,
  has-append, Distinct-append_last, update, ℤ, pos, ◌==◌, Bool-cases,
}
use computer_systems_project.LinkedList.{LinkedList}
use computer_systems_project.Cush.State.{Shell, Job, max_jobs}

-- The jid of a job, where there is one.
abbrev pub jid_of : Option Job → Option ℤ
jid_of none = none
jid_of (some j) = some j.jid

-- A listed job is in the table under its jid.
abbrev pub IsListed : (ℕ → Option Job) → (ℕ → Option ℕ) → ℕ → Type 0
IsListed jobs table p =
    (n : ℕ) × (jid_of (jobs p) ≡ some (pos n)) × (0 < n) × (n < max_jobs) × (table n ≡ some p)

-- List and table as plain data.
pub record Agree (jobs : ℕ → Option Job) (items : List ℕ) (table : ℕ → Option ℕ) : Type 0 where
  pub distinct : Distinct items
  pub listed : (p : ℕ) → has p items ≡ true → IsListed jobs table p
  pub tabled :
      (n p : ℕ) → table n ≡ some p → (has p items ≡ true) × (jid_of (jobs p) ≡ some (pos n))

abbrev pub IsConsistent : (L : LinkedList) → Shell L.Handle → Type 0
IsConsistent L s = Agree s.jobs (L.items s.job_list) s.jid2job

-- An address that malloc returns holds no job, so it is in neither.
pub unlisted :
    (jobs : ℕ → Option Job) (items : List ℕ) (table : ℕ → Option ℕ) (p : ℕ)
    → Agree jobs items table
    → jobs p ≡ none
    → has p items ≡ false
unlisted jobs items table p a fresh = elim (Bool-cases (has p items)) [
  | inl e ↦ let (n, at, _, _, _) = a.listed p e in ground arith
  | inr e ↦ e
]

module _ (jobs : ℕ → Option Job) (items : List ℕ) (table : ℕ → Option ℕ) (p k : ℕ) (j : Job)
    (a : Agree jobs items table) (fresh : jobs p ≡ none) (free : table k ≡ none)
    (named : j.jid ≡ pos k) where
  insert-IsListed :
      (q : ℕ)
      → 0 < k
      → k < max_jobs
      → has q (items ++ p ∷ []) ≡ true
      → IsListed (update jobs p (some j)) (update table k (some p)) q
  insert-IsListed q low high h = elim (Bool-cases (q == p)) [
    | inl e ↦ (k, ground arith, low, high, ground arith)
    | inr e ↦
        let (n, at, l, u, t) = a.listed q (ground (arith, has-append q items (p ∷ []))) in
        (n, ground arith, l, u, ground arith)
  ]

  insert_tabled :
      (n q : ℕ)
      → update table k (some p) n ≡ some q
      → (has q (items ++ p ∷ []) ≡ true) × (jid_of (update jobs p (some j) q) ≡ some (pos n))
  insert_tabled n q h = elim (Bool-cases (n == k)) [
    | inl e ↦ (ground (arith, has-append q items (p ∷ [])), ground arith)
    | inr e ↦
        let t : table n ≡ some q = ground arith in
        let (m, at) = a.tabled n q t in
        (
          ground (arith, has-append q items (p ∷ [])),
          ground (arith, at, unlisted jobs items table p a fresh),
        )
  ]

  pub Agree-insert :
      0 < k
      → k < max_jobs
      → Agree (update jobs p (some j)) (items ++ p ∷ []) (update table k (some p))
  Agree-insert low high = record {
    distinct = Distinct-append_last items p a.distinct (unlisted jobs items table p a fresh);
    listed = λ q h. insert-IsListed q low high h;
    tabled = insert_tabled;
  }
