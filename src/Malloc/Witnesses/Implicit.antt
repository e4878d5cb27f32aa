-- ===== src/Malloc/Witnesses/Implicit.antt =====
-- The theorems on the sample allocator and the driver at concrete inputs.
use computer_systems_project.Base.{update}
use computer_systems_project.Base.{
  ℕ, ◌+◌, ◌≡◌, refl, true, false, Option, none, some, List, [], ◌∷◌, arith, ℤ, pos,
}
use computer_systems_project.Malloc.Memlib.{Mem, max_heap}
use computer_systems_project.Malloc.Blocks.{BoundaryTag, fence}
use computer_systems_project.Run.{done}
use computer_systems_project.Malloc.Driver.Signed.{check_data-signed}
use computer_systems_project.Malloc.Driver.{
  check_data, data_lost, Driver, TraceOp, alloc, free, realloc, at_least_zero,
}
use computer_systems_project.Malloc.Speed.{eval_mm_speed}
use computer_systems_project.Malloc.Speed.Calls.{without_sizes, eval_mm_util-eval_mm_speed}
use computer_systems_project.Malloc.Utilization.{eval_mm_util}
use computer_systems_project.Malloc.Utilization.Peak.{OpsFit}
use computer_systems_project.Malloc.Utilization.Sample.{Reports, eval_mm_util-Reports}
use computer_systems_project.Malloc.Driver.Valid.{none_live}
use computer_systems_project.Malloc.Implicit.{
  place, TagMap, ImplicitHeap, awords, find_fit, mm_init, mm_malloc, mm_free,
}
use computer_systems_project.Malloc.Implicit.Spec.{
  Represents, free_block, used_block, malloc_blocks,
}
use computer_systems_project.Malloc.Implicit.Write.{with_tags}
use computer_systems_project.Malloc.Implicit.Walk.{find_fit-first_fit}
use computer_systems_project.Malloc.Implicit.Refinement.{
  Answers, refuses, mm_malloc-malloc_blocks, mm_free-free_blocks,
}
use computer_systems_project.Malloc.Implicit.Allocator.{implicit_allocator}
use computer_systems_project.Malloc.Implicit.Lawful.{implicit_lawful}
use computer_systems_project.Malloc.Implicit.Init.{mm_init-Represents}

abbrev fresh_mem : Mem
fresh_mem = record {
  mem_start_brk = 4096;
  mem_brk = 4096;
  mem_max_addr = 4096 + max_heap;
  use_mmap = false;
}

abbrev blank : ImplicitHeap
blank = record { mem = fresh_mem; tags = λ a. fence; bytes = λ a. 0; heap_listp = 0 }

abbrev ready : ImplicitHeap
ready = (mm_init blank).1

ready-Represents : Represents ready (free_block 1024 ∷ [])
ready-Represents = (mm_init-Represents blank (refl, refl)).1

mm_malloc-malloc_blocks_example :
    (r : Option ℕ × ImplicitHeap) × (mm_malloc 100 ready ≡ some r)
    × Answers ready
        (malloc_blocks
          (awords 100)
          (refuses (awords 100) ready)
          ready.heap_listp
          (free_block 1024 ∷ []))
        r
mm_malloc-malloc_blocks_example =
    mm_malloc-malloc_blocks 100 ready (free_block 1024 ∷ []) (omega arith) (omega arith)
      ready-Represents

-- A block of 28 words in use at 4108, and a free one of 996 words behind it.
abbrev two_blocks : List BoundaryTag
two_blocks = used_block 28 ∷ free_block 996 ∷ []

abbrev used_tags : TagMap
used_tags =
    with_tags 4220 996 false
      (with_tags 4108 28 true (update (update (λ a. free_block 0) 4104 fence) 8204 fence))

abbrev used_heap : ImplicitHeap
used_heap = record {
  mem = record fresh_mem { mem_brk = 8208 };
  tags = used_tags;
  bytes = λ a. 0;
  heap_listp = 4108;
}

used_heap-Represents : Represents used_heap two_blocks
used_heap-Represents = record {
  prologue = refl;
  laid = ((omega arith, refl), refl, refl, ((omega arith, refl), refl, refl, refl));
  merged = (refl, (tt, tt));
  first = refl;
  brk = refl;
  low = omega arith;
  small = omega arith;
}

find_fit-first_fit_example : find_fit 3 28 4108 used_tags ≡ some (some 4220)
find_fit-first_fit_example =
    find_fit-first_fit 3 28 4108 used_tags two_blocks used_heap-Represents.laid (omega arith)

mm_free-free_blocks_example :
    Represents (mm_free (some 4112) used_heap) (free_block 1024 ∷ [])
    × ((mm_free (some 4112) used_heap).heap_listp ≡ 4108)
    × ((mm_free (some 4112) used_heap).bytes ≡ used_heap.bytes)
mm_free-free_blocks_example =
    mm_free-free_blocks 4108 used_heap two_blocks refl used_heap-Represents

abbrev placed : ImplicitHeap
placed = record used_heap { tags = place 4220 28 used_tags }

-- Two requests, a larger size for the first, and the second one freed.
abbrev trace_ops : List TraceOp
trace_ops =
    record { type = alloc; index = 0; size = pos 100 }
    ∷ record { type = alloc; index = 1; size = pos 200 }
    ∷ record { type = realloc; index = 0; size = pos 300 }
    ∷ record { type = free; index = 1; size = pos 0 }
    ∷ []

abbrev driver_of : ImplicitHeap → Driver ImplicitHeap
driver_of s = record { heap = s; ranges = []; blocks = λ i. none; block_sizes = λ i. 0; errors = 0 }

abbrev unscaled : ℤ → ℤ
unscaled z = z

trace-OpsFit : OpsFit implicit_lawful unscaled none_live trace_ops
unfolding at_least_zero
trace-OpsFit = (
  (omega arith, omega arith),
  ((omega arith, omega arith), ((refl, omega arith, omega arith), (refl, tt))),
)

-- At most 500 bytes are in use at one time, after the third operation.
eval_mm_util-Reports_example :
    Reports unscaled trace_ops
      (driver_of blank)
      500
      (eval_mm_util implicit_allocator unscaled trace_ops (driver_of blank))
unfolding at_least_zero
eval_mm_util-Reports_example =
    eval_mm_util-Reports unscaled trace_ops (driver_of blank) refl refl trace-OpsFit

eval_mm_util-eval_mm_speed_example :
    without_sizes (λ i. 0) (eval_mm_util implicit_allocator unscaled trace_ops (driver_of blank))
    ≡ eval_mm_speed implicit_allocator unscaled trace_ops (driver_of blank)
eval_mm_util-eval_mm_speed_example =
    eval_mm_util-eval_mm_speed implicit_allocator unscaled trace_ops (driver_of blank)

-- The identifier 200, of whose 50 bytes each is 200.
abbrev filled : Driver ImplicitHeap
filled = record (driver_of (record used_heap { bytes = λ a. 200 })) { block_sizes = λ i. 50 }

check_data-signed_example :
    check_data implicit_allocator unscaled true 200 4112 80 filled
    ≡ done (some data_lost) (record filled { errors = 1 })
check_data-signed_example =
    check_data-signed implicit_allocator unscaled true 200 4112 80 filled (omega arith)
      (omega arith) (omega arith)
