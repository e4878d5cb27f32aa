-- ===== src/Malloc/Tests.antt =====
-- Runs of the allocator on an empty heap at address 0.
use computer_systems_project.Base.{ℕ, ◌≡◌, refl, true, false, Option, none, some, List, [], ◌∷◌}
use mathlib.Core.List.{map}
use computer_systems_project.LinkedList.{sequence}
use computer_systems_project.Run.{Outcome, done, Command, ◌>>=◌, ◌>>◌, pure}
use computer_systems_project.Malloc.Memlib.{max_heap, mem_sbrk}
use computer_systems_project.Malloc.Blocks.{
  Heap, fence, set_header_and_footer, align, max, block_bytes, block_words, to_int, to_field,
}
use computer_systems_project.Malloc.FreeLists.{
  add_free_block, insert_block, remove_block, take_block, find_fit, find_in, search,
}
use computer_systems_project.Malloc.Mm.{
  mm_init, mm_malloc, initialise, request, mm_free, init_lists, sbrk, extend_heap, coalesce,
  coalesce_case, write_fence, place_at, allocate, place, place_in,
}

abbrev empty_heap : Heap (List ℕ)
empty_heap = record {
  mem = record { mem_start_brk = 0; mem_brk = 0; mem_max_addr = max_heap; use_mmap = false };
  tags = λ _. fence;
  bytes = λ _. 0;
  heap_listp = none;
  free_blocks = [];
}

-- The blocks of all free lists.
free_lists : Heap (List ℕ) → List (List ℕ)
free_lists s = map (λ b. b.blocks) s.free_blocks

summary : {A : Type 0} → Outcome (Heap (List ℕ)) A → Option (A × List (List ℕ))
summary (done a s) = some (a, free_lists s)
summary _ = none

-- mm_init puts one block of 1024 words into the list for that size.
mm_init_test :
    summary (mm_init sequence empty_heap)
    ≡ some (true, [] ∷ [] ∷ (568 ∷ []) ∷ [] ∷ [] ∷ [] ∷ [] ∷ [] ∷ [] ∷ [] ∷ [])
unfolding summary free_lists mm_init init_lists sbrk mem_sbrk extend_heap coalesce coalesce_case
    write_fence set_header_and_footer add_free_block insert_block remove_block take_block to_int
    to_field
mm_init_test = refl

two_requests : Command (Heap (List ℕ)) (Option ℕ × Option ℕ)
two_requests = mm_malloc sequence 100 >>= λ p.
    mm_malloc sequence 8000 >>= λ q. mm_free sequence p >> pure (p, q)

-- The second request is not found in the list for 512 words, where the block of 1008 words is, and
-- extends the heap.
mm_malloc_test :
    summary (two_requests empty_heap)
    ≡ some (
      (some 576, some 704),
      [] ∷ [] ∷ (8712 ∷ []) ∷ [] ∷ [] ∷ [] ∷ [] ∷ [] ∷ (568 ∷ []) ∷ [] ∷ [],
    )
unfolding two_requests summary free_lists mm_init init_lists sbrk mem_sbrk extend_heap coalesce
    coalesce_case write_fence set_header_and_footer add_free_block insert_block remove_block
    take_block to_int to_field mm_malloc initialise request allocate place_at place place_in
    find_fit find_in search align max block_bytes block_words mm_free
mm_malloc_test = refl
