-- ===== src/Malloc/Memlib.antt =====
-- memlib.c: the simulated memory system, whose break only grows. mmap() and malloc() are those of
-- the system: the address that they return is an argument.
use computer_systems_project.Base.{
  ℕ, ◌+◌, ◌-◌, ◌*◌, ◌^◌, ◌≤◌, ◌≡◌, refl, ap, inl, inr, Bool, true, false, Option, none, some, List,
  [], ◌∷◌, ltb, ◌==◌, if◌then◌else◌, ℤ, pos, negsuc, Bool-cases, le_of_ltb-false,
}
use computer_systems_project.Run.{done, exited, Command}

-- MAX_HEAP of config.h
abbrev pub max_heap : ℕ
max_heap = 1024 * 2 ^ 20

abbrev pub mmap_addr : ℕ
mmap_addr = 1476395008

-- The private variables of memlib.c.
pub record Mem : Type 0 where
  pub mem_start_brk : ℕ
  pub mem_brk : ℕ
  pub mem_max_addr : ℕ
  pub use_mmap : Bool

abbrev started : Bool → ℕ → Mem
started mmapped start = record {
  mem_start_brk = start;
  mem_brk = start;
  mem_max_addr = start + max_heap;
  use_mmap = mmapped;
}

-- `area` is what mmap() or malloc() returned, `none` for MAP_FAILED or NULL.
unfoldable pub mem_init : Bool → Option ℕ → Command Mem (Unit {0})
mem_init mmapped none m = exited 1 m
mem_init mmapped (some start) m =
    if mmapped
    then (if start == mmap_addr then done tt (started mmapped start) else exited 1 m)
    else done tt (started mmapped start)

unfoldable pub mem_reset_brk : Mem → Mem
mem_reset_brk m = record m { mem_brk = m.mem_start_brk }

-- mem_sbrk, for an `int` increment: the start of the new area, `none` for NULL
unfoldable pub mem_sbrk : ℤ → Mem → Option ℕ × Mem
mem_sbrk (negsuc n) m = (none, m)
mem_sbrk (pos n) m =
    if ltb m.mem_max_addr (m.mem_brk + n)
    then (none, m)
    else (some m.mem_brk, record m { mem_brk = m.mem_brk + n })

abbrev pub mem_heap_lo : Mem → ℕ
mem_heap_lo m = m.mem_start_brk

abbrev pub mem_heap_hi : Mem → ℕ
mem_heap_hi m = m.mem_brk - 1

abbrev pub mem_heapsize : Mem → ℕ
mem_heapsize m = m.mem_brk - m.mem_start_brk

abbrev note : Option ℕ → ℕ → List (ℕ × ℕ) × Mem → List (ℕ × ℕ) × Mem
note none n (areas, last) = (areas, last)
note (some a) n (areas, last) = ((a, n) ∷ areas, last)

-- A sequence of calls: the areas granted, as address and size, and the last state.
unfoldable pub sbrk_all : List ℤ → Mem → List (ℕ × ℕ) × Mem
sbrk_all [] m = ([], m)
sbrk_all (negsuc n ∷ zs) m = sbrk_all zs (mem_sbrk (negsuc n) m).1
sbrk_all (pos n ∷ zs) m = note (mem_sbrk (pos n) m).0 n (sbrk_all zs (mem_sbrk (pos n) m).1)

-- The areas lie behind one another from `a` to `b`, without a gap.
abbrev pub Tiles : ℕ → List (ℕ × ℕ) → ℕ → Type 0
Tiles a [] b = a ≡ b
Tiles a ((c, n) ∷ areas) b = (a ≡ c) × Tiles (a + n) areas b

pub mem_sbrk-refused :
    (n : ℕ) (m : Mem) → ltb m.mem_max_addr (m.mem_brk + n) ≡ true → mem_sbrk (pos n) m ≡ (none, m)
unfolding mem_sbrk
mem_sbrk-refused n m e = rw e refl

pub mem_sbrk-granted :
    (n : ℕ) (m : Mem)
    → ltb m.mem_max_addr (m.mem_brk + n) ≡ false
    → mem_sbrk (pos n) m ≡ (some m.mem_brk, record m { mem_brk = m.mem_brk + n })
unfolding mem_sbrk
mem_sbrk-granted n m e = rw e refl

refused :
    (n : ℕ) (zs : List ℤ) (m : Mem)
    → ltb m.mem_max_addr (m.mem_brk + n) ≡ true
    → sbrk_all (pos n ∷ zs) m ≡ sbrk_all zs m
unfolding sbrk_all
refused n zs m e = ap (λ r. note r.0 n (sbrk_all zs r.1)) (mem_sbrk-refused n m e)

granted :
    (n : ℕ) (zs : List ℤ) (m : Mem)
    → ltb m.mem_max_addr (m.mem_brk + n) ≡ false
    → sbrk_all (pos n ∷ zs) m ≡ (
      (m.mem_brk, n) ∷ (sbrk_all zs (record m { mem_brk = m.mem_brk + n })).0,
      (sbrk_all zs (record m { mem_brk = m.mem_brk + n })).1,
    )
unfolding sbrk_all
granted n zs m e = ap (λ r. note r.0 n (sbrk_all zs r.1)) (mem_sbrk-granted n m e)

-- From a break that is not above the largest legal address: however often the heap is extended,
-- and whichever requests fail, the areas granted follow one another without gap or overlap from
-- the old break to the new one, the break does not pass the largest legal address, and the bounds
-- of the heap do not move.
pub sbrk_all-Tiles :
    (zs : List ℤ) (m : Mem)
    → m.mem_brk ≤ m.mem_max_addr
    → Tiles m.mem_brk (sbrk_all zs m).0 (sbrk_all zs m).1.mem_brk
      × ((sbrk_all zs m).1.mem_brk ≤ m.mem_max_addr)
      × ((sbrk_all zs m).1.mem_start_brk ≡ m.mem_start_brk)
      × ((sbrk_all zs m).1.mem_max_addr ≡ m.mem_max_addr)
unfolding sbrk_all mem_sbrk
sbrk_all-Tiles [] m low = (refl, low, refl, refl)
sbrk_all-Tiles (negsuc n ∷ zs) m low = sbrk_all-Tiles zs m low
sbrk_all-Tiles (pos n ∷ zs) m low = elim (Bool-cases (ltb m.mem_max_addr (m.mem_brk + n))) [
  | inl e ↦ rw (refused n zs m e) (sbrk_all-Tiles zs m low)
  | inr e ↦
      let m' = record m { mem_brk = m.mem_brk + n } in
      let (tiles, below, lo, hi) =
        sbrk_all-Tiles zs m' (le_of_ltb-false m.mem_max_addr (m.mem_brk + n) e) in
      rw (granted n zs m e) ((refl, tiles), below, lo, hi)
]
