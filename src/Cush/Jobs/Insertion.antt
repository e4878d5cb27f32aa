-- ===== src/Cush/Jobs/Insertion.antt =====
-- add_job.
use computer_systems_project.Base.{
  ℕ, ◌-◌, ◌<◌, ◌≡◌, refl, Option, none, some, [], ◌∷◌, ◌++◌, arith, update, pos,
}
use computer_systems_project.LinkedList.{LinkedList}
use computer_systems_project.Run.{done}
use computer_systems_project.Cush.Ast.{AstPipeline}
use computer_systems_project.Cush.State.{Shell, Job, max_jobs}
use computer_systems_project.Cush.Jobs.{find_slot, add_job}
use computer_systems_project.Cush.Jobs.Slots.{IsFirstFree, SlotResult, find_slot-SlotResult}
use computer_systems_project.Cush.Jobs.Consistent.{IsConsistent, Agree-insert, unlisted}

abbrev pub new_job : Job → AstPipeline → ℕ → Job
new_job raw pipe i = record raw { pipe = pipe; jid = pos i; num_processes_alive = pos 0 }

module _ (L : LinkedList) (p : ℕ) (raw : Job) (pipe : AstPipeline) (s : Shell L.Handle) where
  abbrev pub with_job : ℕ → Shell L.Handle
  with_job i = record s {
    jobs = update s.jobs p (some (new_job raw pipe i));
    job_list = L.push_back s.job_list p;
    jid2job = update s.jid2job i (some p);
  }

  add_job-at :
      (i : ℕ)
      → find_slot (max_jobs - 1) 1 s.jid2job ≡ some i
      → add_job L p raw pipe s ≡ done p (with_job i)
  unfolding add_job
  add_job-at i e = rw (e, add_job)

  pub with_job-IsConsistent :
      (i : ℕ)
      → IsConsistent L s
      → s.jobs p ≡ none
      → s.jid2job i ≡ none
      → 0 < i
      → i < max_jobs
      → IsConsistent L (with_job i)
  with_job-IsConsistent i c fresh free low high =
      rw (L.items-push_back s.job_list p (unlisted s.jobs (L.items s.job_list) s.jid2job p c fresh))
        (Agree-insert s.jobs (L.items s.job_list) s.jid2job p i (new_job raw pipe i) c fresh free
          refl low high)

  -- Where list and table agree, the address of the new job is fresh and an index below MAXJOBS is
  -- free, add_job returns the new job, under the least such index and behind all listed jobs, and
  -- leaves the list and the table in agreement.
  pub add_job-IsFirstFree :
      (k : ℕ)
      → 0 < k
      → k < max_jobs
      → s.jid2job k ≡ none
      → IsConsistent L s
      → s.jobs p ≡ none
      → (i : ℕ) × (add_job L p raw pipe s ≡ done p (with_job i))
        × IsFirstFree s.jid2job 1 i
        × (L.items (with_job i).job_list ≡ L.items s.job_list ++ p ∷ [])
        × IsConsistent L (with_job i)
  add_job-IsFirstFree k low high free c fresh =
      go (find_slot (max_jobs - 1) 1 s.jid2job) refl
        (find_slot-SlotResult (max_jobs - 1) 1 s.jid2job)
    where
      go :
          (r : Option ℕ)
          → find_slot (max_jobs - 1) 1 s.jid2job ≡ r
          → SlotResult s.jid2job (max_jobs - 1) 1 r
          → (i : ℕ) × (add_job L p raw pipe s ≡ done p (with_job i))
            × IsFirstFree s.jid2job 1 i
            × (L.items (with_job i).job_list ≡ L.items s.job_list ++ p ∷ [])
            × IsConsistent L (with_job i)
      go none e h = absurd (ground (arith, h k (omega arith) (omega arith)))
      go (some i) e h = (
        i,
        add_job-at i e,
        h.0,
        L.items-push_back s.job_list p (unlisted s.jobs (L.items s.job_list) s.jid2job p c fresh),
        with_job-IsConsistent i c fresh h.0.1 h.0.0 (omega arith),
      )
