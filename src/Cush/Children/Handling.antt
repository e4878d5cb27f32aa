-- ===== src/Cush/Children/Handling.antt =====
-- handle_child_status as a whole: it finds the job of the child, or the shell crashes.
use computer_systems_project.Base.{
  ℕ, ◌≡◌, refl, inl, inr, ◌≢◌, Bool, true, false, Option, none, some, List, arith, has, ◌==◌,
  Bool-cases, subst, sym, ap, ◌∙◌, ne_of_==, eq_of_==,
}
use computer_systems_project.LinkedList.{LinkedList}
use computer_systems_project.Run.{done, crash, Keeps, Keeps-mono, Keeps-done}
use computer_systems_project.Cush.Sig
use computer_systems_project.Cush.State.{
  Shell, Job, ChildStatus, exit_code, signaled, stopped_by, continued,
}
use computer_systems_project.Cush.Jobs.{scan}
use computer_systems_project.Cush.Jobs.Consistent.{Agree, IsConsistent, jid_of}
use computer_systems_project.Cush.Jobs.Lookup.{Agree-Allocated, Scanned, scan-Scanned}
use computer_systems_project.Cush.Children.{owns, update_job, handle_child_status}
use computer_systems_project.Cush.Children.Owner.{AllFilled, IsFilled, scan-owns}
use computer_systems_project.Cush.Children.Effect.{
  Changed, Handled, is_gone, update_job-Handled, update_job-done,
}

-- List and table agree, and each listed job has an array of one pid for each of its commands.
pub record Sound (L : LinkedList) (s : Shell L.Handle) : Type 0 where
  pub consistent : IsConsistent L s
  pub filled : AllFilled s.jobs (L.items s.job_list)

-- A listed job has the child `pid`.
pub record OwnerIn (jobs : ℕ → Option Job) (list : List ℕ) (pid : ℕ) : Type 0 where
  pub address : ℕ
  pub job : Job
  pub listed : has address list ≡ true
  pub stored : jobs address ≡ some job
  pub member : has pid job.child_pid_array ≡ true

abbrev pub Owner : (L : LinkedList) → Shell L.Handle → ℕ → Type 0
Owner L s pid = OwnerIn s.jobs (L.items s.job_list) pid

abbrev pub NoOwner : (L : LinkedList) → Shell L.Handle → ℕ → Type 0
NoOwner L s pid =
    (q : ℕ) (j : Job)
    → has q (L.items s.job_list) ≡ true
    → s.jobs q ≡ some j
    → has pid j.child_pid_array ≡ false

pub Agree-jobs :
    (jobs jobs' : ℕ → Option Job) (items : List ℕ) (table : ℕ → Option ℕ)
    → ((q : ℕ) → jid_of (jobs' q) ≡ jid_of (jobs q))
    → Agree jobs items table
    → Agree jobs' items table
Agree-jobs jobs jobs' items table same a = record {
  distinct = a.distinct;
  listed = λ q m. let (n, at, low, high, t) = a.listed q m in (n, same q ∙ at, low, high, t);
  tabled = λ n q t. let (m, at) = a.tabled n q t in (m, same q ∙ at);
}

module _ (L : LinkedList) {p : ℕ} {j : Job} {s t : Shell L.Handle} (h : Changed p j s t)
    (at : s.jobs p ≡ some j) where
  same_jids : (q : ℕ) → jid_of (t.jobs q) ≡ jid_of (s.jobs q)
  same_jids q = elim (Bool-cases (q == p)) [
    | inl e ↦ rw (eq_of_== q p e, h.stored, at) (ap some h.same_jid)
    | inr e ↦ ap jid_of (h.others q (ne_of_== q p e))
  ]

  same-IsFilled :
      (q : ℕ) (k : Job)
      → t.jobs q ≡ some k
      → AllFilled s.jobs (L.items s.job_list)
      → has q (L.items s.job_list) ≡ true
      → IsFilled k
  same-IsFilled q k at' full m = elim (Bool-cases (q == p)) [
    | inl e ↦
        let q≡p = eq_of_== q p e in
        let k≡now : some k ≡ some h.now = sym at' ∙ (ap t.jobs q≡p ∙ h.stored) in
        let old : IsFilled j = full p j (subst (λ x. has x (L.items s.job_list) ≡ true) q≡p m) at in
        ground (arith, h.same_pipe, h.same_pids)
    | inr e ↦ full q k m (sym (h.others q (ne_of_== q p e)) ∙ at')
  ]

  pub Changed-Sound : Sound L s → Sound L t
  Changed-Sound v = record {
    consistent =
        rw (h.same_list, h.same_table)
          (Agree-jobs s.jobs t.jobs (L.items s.job_list) s.jid2job same_jids v.consistent);
    filled = λ q k m at'.
        same-IsFilled q k at' v.filled (subst (λ l. has q (L.items l) ≡ true) h.same_list m);
  }

module _ (L : LinkedList) (s : Shell L.Handle) (v : Sound L s)
    (masked : s.blocked_signals Sig.chld ≡ true) (pid : ℕ) (c : ChildStatus) where
  abbrev pub child_of : Job → Bool
  child_of j = has pid j.child_pid_array

  abbrev pub items : List ℕ
  items = L.items s.job_list

  search_eq : scan s.jobs (owns pid) items ≡ scan s.jobs (λ j. some (child_of j)) items
  search_eq =
      scan-owns s.jobs items pid (Agree-Allocated s.jobs items s.jid2job v.consistent) v.filled

  search : Scanned s.jobs child_of items (scan s.jobs (λ j. some (child_of j)) items)
  search = scan-Scanned s.jobs child_of items (Agree-Allocated s.jobs items s.jid2job v.consistent)

  handle_eq :
      (r : Option ℕ)
      → scan s.jobs (λ j. some (child_of j)) items ≡ some r
      → handle_child_status L pid c s ≡ update_job L c r s
  unfolding handle_child_status
  handle_eq r e = rw masked (rw (search_eq ∙ e, handle_child_status))

  -- The found job is the owner: the status changes it and nothing else.
  abbrev pub Told : Shell L.Handle → Type 0
  Told t = Sound L t × ((o : Owner L s pid) × Handled o.address o.job c s t)

  -- Where the job list is sound and SIGCHLD is blocked, a wait status of a child of a listed job
  -- is handled without a crash: when the handling returns, the status has reached a job that has
  -- the child, and the job list is sound.
  pub handle_child_status-Handled :
      Owner L s pid → Keeps (λ _ t. Told t) (handle_child_status L pid c s)
  handle_child_status-Handled o = go (scan s.jobs (λ j. some (child_of j)) items) refl search
    where
      go :
          (r : Option (Option ℕ))
          → scan s.jobs (λ j. some (child_of j)) items ≡ r
          → Scanned s.jobs child_of items r
          → Keeps (λ _ t. Told t) (handle_child_status L pid c s)
      go none e h = absurd h
      go (some none) e h =
          let (j, at, miss) = h o.address o.listed in
          let same : some j ≡ some o.job = sym at ∙ o.stored in absurd (ground (arith, o.member))
      go (some (some p)) e (m, (j, at, hit)) = rw (handle_eq (some p) e) (
          Keeps-mono (λ _ t. Handled p j c s t) (λ _ t. Told t) (update_job L c (some p) s)
            (update_job-Handled L p j s at c)
            λ _ t h. (
              Changed-Sound L h.change at v,
              (record { address = p; job = j; listed = m; stored = at; member = hit }, h),
            ))

  -- Where the job list is sound and SIGCHLD is blocked, the status of a child that no listed job
  -- has, other than that it continued, is read through a null pointer.
  pub handle_child_status-NoOwner :
      NoOwner L s pid → c ≢ continued → handle_child_status L pid c s ≡ crash
  unfolding update_job
  handle_child_status-NoOwner orphan other =
      go (scan s.jobs (λ j. some (child_of j)) items) refl search
    where
      lost : (d : ChildStatus) → d ≢ continued → update_job L d none s ≡ crash
      lost (exit_code n) h = refl
      lost (signaled sig) h = refl
      lost (stopped_by sig) h = refl
      lost continued h = absurd (h refl)

      go :
          (r : Option (Option ℕ))
          → scan s.jobs (λ j. some (child_of j)) items ≡ r
          → Scanned s.jobs child_of items r
          → handle_child_status L pid c s ≡ crash
      go none e h = absurd h
      go (some none) e h = handle_eq none e ∙ lost c other
      go (some (some p)) e (m, (j, at, hit)) = absurd (ground (arith, orphan p j m at))

  -- The end of a child is handled at once.
  pub handle_child_status-done :
      Owner L s pid
      → is_gone c ≡ true
      → (t : Shell L.Handle) × (handle_child_status L pid c s ≡ done tt t)
        × (Told t)
        × (t.answers ≡ s.answers)
  handle_child_status-done o ended = go (scan s.jobs (λ j. some (child_of j)) items) refl search
    where
      finish :
          ((t : Shell L.Handle) × (handle_child_status L pid c s ≡ done tt t)
            × (t.answers ≡ s.answers))
          → (t : Shell L.Handle) × (handle_child_status L pid c s ≡ done tt t)
            × (Told t)
            × (t.answers ≡ s.answers)
      finish (t, e, same) = (
        t,
        e,
        Keeps-done (λ _ u. Told u) (handle_child_status L pid c s) tt t
            (handle_child_status-Handled o) e,
        same,
      )

      go :
          (r : Option (Option ℕ))
          → scan s.jobs (λ j. some (child_of j)) items ≡ r
          → Scanned s.jobs child_of items r
          → (t : Shell L.Handle) × (handle_child_status L pid c s ≡ done tt t)
            × (Told t)
            × (t.answers ≡ s.answers)
      go none e h = absurd h
      go (some none) e h =
          let (j, at, miss) = h o.address o.listed in
          let same : some j ≡ some o.job = sym at ∙ o.stored in absurd (ground (arith, o.member))
      go (some (some p)) e (m, (j, at, hit)) =
          let (t, ran, same) = update_job-done L p j s c ended at in
          finish (t, handle_eq (some p) e ∙ ran, same)
