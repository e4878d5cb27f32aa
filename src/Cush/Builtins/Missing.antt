-- ===== src/Cush/Builtins/Missing.antt =====
-- What the builtins do when their argument names no job.
use Prim.Native.String.{String}
use computer_systems_project.Base.{◌≡◌, refl, Option, none, some, List, [], ◌∷◌, ◌++◌, ℤ}
use computer_systems_project.LinkedList.{LinkedList}
use computer_systems_project.Run.{done, crash}
use computer_systems_project.Cush.State.{Shell}
use computer_systems_project.Cush.Atoi.{atoi, atoi_rest}
use computer_systems_project.Cush.Jobs.{get_job_from_jid, job_with_jid}
use computer_systems_project.Cush.Jobs.Consistent.{IsConsistent}
use computer_systems_project.Cush.Jobs.Lookup.{job_with_jid-get_job_from_jid}
use computer_systems_project.Cush.Builtins.{
  fg, bg, stop, kill, kill_job, kill_with, group_of, no_such_job,
}

module _ (L : LinkedList) (s : Shell L.Handle) (c : IsConsistent L s) (arg : String)
    (missing : get_job_from_jid L (atoi arg) s ≡ none) where
  not_found : job_with_jid L (atoi arg) s ≡ done none s
  not_found = rw (job_with_jid-get_job_from_jid L s c (atoi arg), missing)

  no_group : group_of L arg s ≡ crash
  unfolding group_of
  no_group = rw not_found

  with_flag : (flag : String) (o : Option ℤ) → atoi_rest flag ≡ o → kill_with L flag arg s ≡ crash
  unfolding kill_with
  with_flag flag none e = rw e
  with_flag flag (some n) e = rw (e, no_group)

  -- Where list and table agree: for a number that no job has, fg and stop print that there is no
  -- such job and do nothing else; bg and both forms of kill read through a null pointer.
  pub missing_job :
      (name flag : String) (rest : List String)
      → (fg L (name ∷ arg ∷ rest) s ≡ done tt (record s { out = s.out ++ no_such_job "fg" arg }))
        × (stop L (name ∷ arg ∷ rest) s
            ≡ done tt (record s { out = s.out ++ no_such_job "stop" arg }))
        × (bg L (name ∷ arg ∷ rest) s ≡ crash)
        × (kill L (name ∷ arg ∷ []) s ≡ crash)
        × (kill L (name ∷ flag ∷ arg ∷ rest) s ≡ crash)
  unfolding fg stop bg kill kill_job
  missing_job name flag rest =
      (rw not_found, rw not_found, rw not_found, rw no_group, with_flag flag (atoi_rest flag) refl)
