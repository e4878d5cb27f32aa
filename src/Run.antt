-- ===== src/Run.antt =====
-- Commands of both programs: state passing, with the ways in which a run can stop. `crash` is a NULL
-- dereference, a read past an array, a failed assert or abort(); `exited` is exit(); `blocked` is
-- a system call that has not returned by the end of the answers that the run is given.
use computer_systems_project.Base.{ℕ, ◌≡◌, subst, Bool, true, false, Option, none, some}

pub data Outcome (S A : Type 0) : Type 0 where
  done : A → S → Outcome S A
  crash : Outcome S A
  exited : ℕ → S → Outcome S A
  blocked : S → Outcome S A

abbrev pub Command : Type 0 → Type 0 → Type 0
Command S A = S → Outcome S A

abbrev pub pure : {S A : Type 0} → A → Command S A
pure a s = done a s

module _ {S A B : Type 0} where
  abbrev pub and_then : Outcome S A → (A → Command S B) → Outcome S B
  and_then (done a s) k = k a s
  and_then crash k = crash
  and_then (exited n s) k = exited n s
  and_then (blocked s) k = blocked s

  infixl 5 ◌>>=◌ ◌>>◌
  abbrev pub ◌>>=◌ : Command S A → (A → Command S B) → Command S B
  m >>= k = λ s. and_then (m s) k

  abbrev pub ◌>>◌ : Command S A → Command S B → Command S B
  m >> k = λ s. and_then (m s) (λ _. k)

module _ {S : Type 0} where
  -- assert(b)
  abbrev pub require : Bool → Command S (Unit {0})
  require true s = done tt s
  require false s = crash

  -- A pointer that the code reads through without a test.
  abbrev pub need : {A : Type 0} → Option A → Command S A
  need none s = crash
  need (some a) s = done a s

  abbrev pub get : Command S S
  get s = done s s

  abbrev pub modify : (S → S) → Command S (Unit {0})
  modify f s = done tt (f s)

-- A run that does not crash, and whose state on return has a property.
abbrev pub Keeps : {S A : Type 0} → (A → S → Type 0) → Outcome S A → Type 0
Keeps P (done a s) = P a s
Keeps P crash = ⊥
Keeps P (exited n s) = Unit {0}
Keeps P (blocked s) = Unit {0}

module _ {S A B : Type 0} (P : A → S → Type 0) (Q : B → S → Type 0) where
  -- The rule for a sequence of commands.
  pub Keeps-and_then :
      (r : Outcome S A) (k : A → Command S B)
      → Keeps P r
      → ((a : A) (s : S) → P a s → Keeps Q (k a s))
      → Keeps Q (and_then r k)
  Keeps-and_then (done a s) k h next = next a s h
  Keeps-and_then crash k h next = absurd h
  Keeps-and_then (exited n s) k h next = tt
  Keeps-and_then (blocked s) k h next = tt

module _ {S A : Type 0} (P Q : A → S → Type 0) where
  pub Keeps-mono : (r : Outcome S A) → Keeps P r → ((a : A) (s : S) → P a s → Q a s) → Keeps Q r
  Keeps-mono (done a s) h weaken = weaken a s h
  Keeps-mono crash h weaken = absurd h
  Keeps-mono (exited n s) h weaken = tt
  Keeps-mono (blocked s) h weaken = tt

-- The other direction: what a run that is known to have returned satisfies.
pub Keeps-done :
    {S A : Type 0} (P : A → S → Type 0) (r : Outcome S A) (a : A) (s : S)
    → Keeps P r
    → r ≡ done a s
    → P a s
Keeps-done P r a s h e = subst (Keeps P) e h
