-- ===== src/Malloc/Driver/Contract.antt =====
-- What mdriver.c expects of an allocator, as a record of laws.
use computer_systems_project.Base.{ℕ, suc, ◌+◌, ◌%◌, ◌≤◌, ◌<◌, ◌≡◌, ◌≢◌, Option, none, some}
use computer_systems_project.Run.{done}
use computer_systems_project.Malloc.Memlib.{mem_heap_lo, mem_heap_hi}
use computer_systems_project.Malloc.Ranges.{Range, Apart, alignment}
use computer_systems_project.Malloc.Driver.{Allocator}

-- The address is in the payload.
abbrev pub Within : Range → ℕ → Type 0
Within p a = (p.lo ≤ a) × (a ≤ p.hi)

module _ {S : Type 0} (A : Allocator S) (Live : S → Range → Type 0) where
  -- The payloads in use stay in use, with their data, but for the one at `released`, if any.
  abbrev pub KeepsLive : Option ℕ → S → S → Type 0
  KeepsLive released s s' =
      (q : Range)
      → Live s q
      → released ≢ some q.lo
      → Live s' q × ((a : ℕ) → Within q a → A.bytes_of s' a ≡ A.bytes_of s a)

  -- The payload `p` is in use from now on: aligned, large enough, in the heap, and apart from those
  -- that were in use before, but for the one at `released`, if any.
  abbrev pub IsNew : Option ℕ → ℕ → ℕ → S → S → Range → Type 0
  IsNew released a n s s' p =
      Live s' p
      × (p.lo ≡ a)
      × (a + n ≤ suc p.hi)
      × (a % alignment ≡ 0)
      × (mem_heap_lo (A.mem_of s') ≤ a)
      × (p.hi ≤ mem_heap_hi (A.mem_of s'))
      × ((q : Range) → Live s q → released ≢ some q.lo → Apart p q)
      × KeepsLive released s s'

  -- What a request for `n` bytes may do.
  abbrev pub Grants : ℕ → S → Option ℕ → S → Type 0
  Grants n s none s' = Unit
  Grants n s (some a) s' = (p : Range) × IsNew none a n s s' p

  -- The data of the old payload is at the start of the new one, as far as both go.
  abbrev pub Copies : ℕ → Range → S → ℕ → S → Type 0
  Copies n old s a s' =
      (j : ℕ) → j < n → old.lo + j ≤ old.hi → A.bytes_of s' (a + j) ≡ A.bytes_of s (old.lo + j)

  abbrev pub Moves : ℕ → Range → S → Option ℕ → S → Type 0
  Moves n old s none s' = Unit
  Moves n old s (some a) s' = (p : Range) × IsNew (some old.lo) a n s s' p × Copies n old s a s'

-- An allocator whose operations return, for requests from 1 to `limit` bytes.
pub record Lawful {S : Type 0} (A : Allocator S) : Type 1 where
  pub Inv : S → Type 0
  pub Live : S → Range → Type 0
  pub limit : ℕ
  pub malloc_law :
      (n : ℕ) (s : S)
      → Inv s
      → 0 < n
      → n ≤ limit
      → (r : Option ℕ) × (s' : S) × (A.mm_malloc n s ≡ done r s') × Inv s' × Grants A Live n s r s'
  pub free_law :
      (p : Range) (s : S)
      → Inv s
      → Live s p
      → (s' : S) × (A.mm_free (some p.lo) s ≡ done tt s')
        × Inv s'
        × KeepsLive A Live (some p.lo) s s'
  pub realloc_law :
      (n : ℕ) (old : Range) (s : S)
      → Inv s
      → Live s old
      → 0 < n
      → n ≤ limit
      → (r : Option ℕ) × (s' : S) × (A.mm_realloc (some old.lo) n s ≡ done r s')
        × Inv s'
        × Moves A Live n old s r s'
  -- A write into payloads.
  pub write_law :
      (f : ℕ → ℕ) (s : S)
      → Inv s
      → Inv (A.with_bytes f s)
        × (A.bytes_of (A.with_bytes f s) ≡ f)
        × ((q : Range) → Live s q → Live (A.with_bytes f s) q)
        × (A.mem_of (A.with_bytes f s) ≡ A.mem_of s)
