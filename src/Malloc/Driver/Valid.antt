-- ===== src/Malloc/Driver/Valid.antt =====
-- eval_mm_valid_inner of mdriver.c, against an allocator that keeps the contract.
use computer_systems_project.Base.{ℕ, ◌≡◌, Bool, false, Option, ℤ}
use computer_systems_project.Run.{Outcome, done}
use computer_systems_project.Malloc.Driver.{Allocator, Driver, MallocError}
use computer_systems_project.Malloc.Driver.Contract.{Lawful}
use computer_systems_project.Malloc.Driver.Steps.{OnlyRefused, Steps}

abbrev pub none_live : ℕ → Bool
none_live i = false

module _ {S : Type 0} {A : Allocator S} (L : Lawful A) (scale : ℤ → ℤ) (check : Bool) where
  -- How the run of a whole trace ends.
  abbrev pub Ends : Outcome (Driver S) (Option MallocError) → Type 0
  Ends r = (v : Option MallocError) × (d : Driver S) × (r ≡ done v d) × OnlyRefused v
