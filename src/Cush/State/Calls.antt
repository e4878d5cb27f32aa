-- ===== src/Cush/State/Calls.antt =====
-- What a read through a pointer and a system call give.
use computer_systems_project.Base.{ℕ, ◌≡◌, refl, true, none, some, List, [], ◌∷◌, if◌then◌else◌}
use computer_systems_project.Run.{done, crash, Keeps}
use computer_systems_project.Cush.State.{
  Shell, Job, load_job, killpg, Rc, success, interrupted, failure,
}

module _ {H : Type 0} (p : ℕ) (s : Shell H) where
  pub load_job-done : (j : Job) → s.jobs p ≡ some j → load_job p s ≡ done j s
  unfolding load_job
  load_job-done j at = rw (at, load_job)

  pub load_job-crash : s.jobs p ≡ none → load_job p s ≡ crash
  unfolding load_job
  load_job-crash at = rw (at, load_job)

  -- killpg() records the signal where it returns 0, and nothing otherwise.
  pub killpg-Keeps :
      (group sig : ℕ)
      → Keeps
          (λ sent t.
            (t ≡ record s { answers = t.answers; sent = t.sent })
            × (t.sent ≡ (if sent then (group, sig) ∷ s.sent else s.sent)))
          (killpg group sig s)
  unfolding killpg
  killpg-Keeps group sig = go s.answers refl
    where
      go :
          (l : List Rc)
          → s.answers ≡ l
          → Keeps
              (λ sent t.
                (t ≡ record s { answers = t.answers; sent = t.sent })
                × (t.sent ≡ (if sent then (group, sig) ∷ s.sent else s.sent)))
              (killpg group sig s)
      go [] e = rw (e, killpg) tt
      go (success ∷ rest) e = rw (e, killpg) (refl, refl)
      go (interrupted ∷ rest) e = rw (e, killpg) (refl, refl)
      go (failure ∷ rest) e = rw (e, killpg) (refl, refl)

  pub killpg-success :
      (group sig : ℕ) (rest : List Rc)
      → s.answers ≡ success ∷ rest
      → killpg group sig s ≡ done true (record s { answers = rest; sent = (group, sig) ∷ s.sent })
  unfolding killpg
  killpg-success group sig rest e = rw (e, killpg)
