-- ===== src/Malloc/Implicit/Init.antt =====
-- mm_init of mm-gback-implicit.c, and the run of a trace that starts with it.
use computer_systems_project.Base.{
  ℕ, ◌+◌, ◌*◌, ◌≡◌, ◌∙◌, refl, sym, ap, subst, Bool, true, false, Option, none, some, List, [], ◌∷◌,
  arith, if◌then◌else◌, ℤ,
}
use computer_systems_project.Run.{Outcome, pure, Command}
use computer_systems_project.Malloc.Memlib.{Mem, max_heap, mem_sbrk-granted}
use computer_systems_project.Malloc.Driver.{
  Driver, TraceOp, MallocError, init_failed, malloc_error, eval_mm_valid_inner,
}
use computer_systems_project.Malloc.Implicit.{
  ImplicitHeap, wsize, chunksize, two_fences, init_heap, mm_init, extend_heap,
}
use computer_systems_project.Malloc.Implicit.Spec.{Represents, free_block}
use computer_systems_project.Malloc.Implicit.Requests.{extend_heap-Represents}
use computer_systems_project.Malloc.Implicit.Allocator.{implicit_allocator}

-- The memory system as mem_init or mem_reset_brk leaves it.
abbrev pub IsFresh : Mem → Type 0
IsFresh m = (m.mem_brk ≡ m.mem_start_brk) × (m.mem_max_addr ≡ m.mem_start_brk + max_heap)

module _ (s : ImplicitHeap) (fresh : IsFresh s.mem) where
  abbrev start : ℕ
  start = s.mem.mem_start_brk

  abbrev fenced : ImplicitHeap
  fenced = record s {
    mem = record s.mem { mem_brk = s.mem.mem_brk + 16 };
    tags = two_fences s.mem.mem_brk s.tags;
    heap_listp = s.mem.mem_brk + 3 * wsize;
  }

  fenced-Represents : Represents fenced []
  fenced-Represents = record {
    prologue = ground arith;
    laid = ground arith;
    merged = tt;
    first = omega (arith, fresh);
    brk = omega arith;
    low = omega (arith, fresh);
    small = omega (arith, fresh);
  }

  abbrev verdict : Option ℕ → Bool
  verdict none = false
  verdict (some blk) = true

  init_run :
      mm_init s ≡ (verdict (extend_heap chunksize fenced).0, (extend_heap chunksize fenced).1)
  unfolding mm_init init_heap
  init_run =
      ap (λ r. init_heap r.0 (record s { mem = r.1 }))
        (mem_sbrk-granted 16 s.mem (ground (arith, fresh)))

  -- From a fresh memory system mm_init returns 0, and the heap is one free block of 1024 words.
  pub mm_init-Represents :
      ((mm_init s).0 ≡ true)
      × Represents (mm_init s).1 (free_block chunksize ∷ [])
      × ((mm_init s).1.heap_listp ≡ start + 3 * wsize)
  mm_init-Represents =
      let (at, rep, same, _) =
        extend_heap-Represents fenced [] fenced-Represents chunksize (omega arith, refl)
          (omega arith) (ground (arith, fresh)) in
      subst
        (λ r.
          (r.0 ≡ true)
          × Represents r.1 (free_block chunksize ∷ [])
          × (r.1.heap_listp ≡ start + 3 * wsize))
        (sym init_run) (ap verdict at, rep, same ∙ omega (arith, fresh))

module _ (scale : ℤ → ℤ) (check : Bool) where
  abbrev inner :
      List TraceOp → Driver ImplicitHeap → Outcome (Driver ImplicitHeap) (Option MallocError)
  inner = eval_mm_valid_inner implicit_allocator scale check

  abbrev after_init : Bool → Command (Driver ImplicitHeap) (Option MallocError)
  after_init b = if b then pure none else malloc_error init_failed
