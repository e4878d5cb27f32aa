-- ===== src/Cush/Children/Owner.antt =====
-- The job that a child belongs to, as handle_child_status looks for it.
use computer_systems_project.Base.{
  ℕ, zero, suc, ◌≡◌, refl, inl, inr, Bool, true, false, Option, some, List, [], ◌∷◌, arith, has,
  length, Option-cases,
}
use computer_systems_project.Cush.State.{Job}
use computer_systems_project.Cush.Jobs.{scan}
use computer_systems_project.Cush.Jobs.Lookup.{Allocated}
use computer_systems_project.Cush.Children.{mentions, owns}

mentions-has :
    (n : ℕ) (pids : List ℕ) (pid : ℕ) → n ≡ length pids → mentions n pids pid ≡ some (has pid pids)
unfolding mentions
mentions-has zero [] pid h = refl
mentions-has zero (q ∷ pids) pid h = absurd (omega arith)
mentions-has (suc n) [] pid h = absurd (omega arith)
mentions-has (suc n) (q ∷ pids) pid h = rw (mentions-has n pids pid (omega arith)) refl

-- An array of one pid for each command.
abbrev pub IsFilled : Job → Type 0
IsFilled j = length j.child_pid_array ≡ length j.pipe.commands

pub owns-has : (pid : ℕ) (j : Job) → IsFilled j → owns pid j ≡ some (has pid j.child_pid_array)
unfolding owns
owns-has pid j h = mentions-has (length j.pipe.commands) j.child_pid_array pid (omega arith)

-- Every listed job has such an array.
abbrev pub AllFilled : (ℕ → Option Job) → List ℕ → Type 0
AllFilled jobs items = (q : ℕ) (j : Job) → has q items ≡ true → jobs q ≡ some j → IsFilled j

pub scan-owns :
    (jobs : ℕ → Option Job) (items : List ℕ) (pid : ℕ)
    → Allocated jobs items
    → AllFilled jobs items
    → scan jobs (owns pid) items ≡ scan jobs (λ j. some (has pid j.child_pid_array)) items
unfolding scan
scan-owns jobs [] pid all full = refl
scan-owns jobs (p ∷ ps) pid all full = elim (Option-cases (jobs p)) [
  | inl e ↦ absurd (ground (arith, all p))
  | inr (j, e) ↦
      let rest =
        scan-owns jobs ps pid (λ q m. all q (ground arith))
          (λ q k m h. full q k (ground arith) h) in
      rw (e, scan)
        (rw (owns-has pid j (full p j (ground arith) e)) (go (has pid j.child_pid_array) rest))
]
  where
    go :
        (b : Bool)
        → scan jobs (owns pid) ps ≡ scan jobs (λ j. some (has pid j.child_pid_array)) ps
        → ◌≡◌ {A = Option (Option ℕ)}
            (elim b [ true ↦ some (some p) | false ↦ scan jobs (owns pid) ps ])
            (elim b [
              | true ↦ some (some p)
              | false ↦ scan jobs (λ j. some (has pid j.child_pid_array)) ps
            ])
    go true rest = refl
    go false rest = rest
