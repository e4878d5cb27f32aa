-- ===== src/Malloc/Witnesses.antt =====
-- Concrete heaps: a free block of 16 words at 576, one of 10 words at 704 and a free block of 32
-- words at 784, between two fences.
mod Implicit
mod Traces
use computer_systems_project.Base.{
  ℕ, ◌*◌, ◌%◌, ◌≤◌, ◌<◌, ◌≡◌, ◌≢◌, refl, inl, inr, ◌⊎◌, Bool, true, false, none, some, List, [],
  ◌∷◌, arith, All, update, pos, negsuc, leb,
}
use computer_systems_project.LinkedList.{sequence}
use computer_systems_project.Run.{done}
use computer_systems_project.Malloc.Memlib.{Mem, sbrk_all, Tiles, sbrk_all-Tiles}
use computer_systems_project.Malloc.Ranges.{
  Range, alignment, add_range, remove_range, Disjoint, add_range-Disjoint, remove_range-Disjoint,
  add_range-enclosing,
}
use computer_systems_project.Malloc.Blocks.{Heap, BoundaryTag, FreeBlockList, fence, block_words}
use computer_systems_project.Malloc.Blocks.Tags.{tag_of, block_words-bounds}
use computer_systems_project.Malloc.FreeLists.{take_block, search, backwards, find_in}
use computer_systems_project.Malloc.FreeLists.Search.{Right, search-Right}
use computer_systems_project.Malloc.FreeLists.Fit.{Fit, IsSized, find_in-Fit}
use computer_systems_project.Malloc.Mm.{coalesce, mm_free, place}
use computer_systems_project.Malloc.Mm.Merge.{IsMerged, take_both}
use computer_systems_project.Malloc.Mm.Coalesce.{coalesce-Merges}
use computer_systems_project.Malloc.Mm.Free.{mm_free-IsMerged}
use computer_systems_project.Base.{◌-◌, ◌+◌, ◌*◌}
use computer_systems_project.Malloc.Mm.{mm_malloc}
use computer_systems_project.Malloc.Blocks.{blk_size, block_bytes, align, max}
use computer_systems_project.Malloc.FreeLists.Entry.{Entered}
use computer_systems_project.Malloc.Blocks.{to_int}
use computer_systems_project.Malloc.Mm.{sbrk}
use computer_systems_project.Malloc.Mm.Wrapping.{sbrk-wraps}
use computer_systems_project.Malloc.Mm.Reuse.{mm_malloc-Placed}
use computer_systems_project.Malloc.Mm.Place.{HasBlock, SameOutside, IsSplit, IsWhole, place-Placed}

abbrev memory : Mem
memory = record { mem_start_brk = 0; mem_brk = 1048; mem_max_addr = 4096; use_mmap = false }

-- `inuse` says whether the block in the middle is in use.
abbrev tags : Bool → ℕ → BoundaryTag
tags inuse =
    update
      (update
        (update
          (update (update (update (λ _. fence) 576 (tag_of false 16)) 696 (tag_of false 16)) 704
            (tag_of inuse 10))
          776 (tag_of inuse 10))
        784 (tag_of false 32))
      1032 (tag_of false 32)

abbrev list_of : ℕ → List ℕ → FreeBlockList (List ℕ)
list_of n items = record { blocks = items; list_size = n }

abbrev heap : Bool → Heap (List ℕ)
heap inuse = record {
  mem = memory;
  tags = tags inuse;
  bytes = λ _. 0;
  heap_listp = some 576;
  free_blocks = list_of 32 (784 ∷ []) ∷ list_of 16 (576 ∷ []) ∷ list_of 8 [] ∷ [];
}

abbrev emptied : List (FreeBlockList (List ℕ))
emptied = list_of 16 [] ∷ list_of 8 [] ∷ []

both_listed :
    take_both sequence 704 10 (some 16) (some 32) (heap true).free_blocks
    ≡ some (list_of 32 [] ∷ emptied)
unfolding take_block
both_listed = refl

middle_listed :
    take_block sequence 784 (heap true).free_blocks
    ≡ some (list_of 32 [] ∷ list_of 16 (576 ∷ []) ∷ list_of 8 [] ∷ [])
unfolding take_block
middle_listed = refl

mm_free-IsMerged_example :
    (t : Heap (List ℕ)) × (mm_free sequence (some 712) (heap true) ≡ done tt t)
    × IsMerged sequence 576 58 (list_of 32 [] ∷ emptied) (heap true) t
mm_free-IsMerged_example =
    mm_free-IsMerged sequence 704 10 (heap true) (omega arith) (omega arith) (some 16) (some 32)
      (list_of 32 []) emptied refl (omega arith) (omega arith, omega arith) (refl, refl) refl
      both_listed (omega arith)

coalesce-Merges_example :
    (t : Heap (List ℕ)) × (coalesce sequence 704 (heap false) ≡ done 576 t)
    × IsMerged sequence 576 58 (list_of 32 [] ∷ emptied) (heap false) t
coalesce-Merges_example =
    coalesce-Merges sequence 704 10 (heap false) (list_of 32 []) emptied refl refl (omega arith)
      (some 16) (some 32) (refl, refl) refl both_listed (omega arith)

place-Placed_example :
    (t : Heap (List ℕ)) × (place sequence 784 12 (heap true) ≡ done tt t)
    × SameOutside 784 32 (tags true) t.tags
    × (((8 ≤ 20)
          × IsSplit sequence 784 12 32
              (heap true)
              (list_of 32 [])
              (list_of 16 (576 ∷ []) ∷ list_of 8 [] ∷ [])
              refl
              middle_listed
              (omega arith)
              (omega arith)
              (omega arith)
              t)
        ⊎ ((20 < 8)
            × IsWhole sequence 784 12 32
                (heap true)
                (list_of 32 [])
                (list_of 16 (576 ∷ []) ∷ list_of 8 [] ∷ [])
                refl
                middle_listed
                (omega arith)
                (omega arith)
                (omega arith)
                t))
place-Placed_example =
    place-Placed sequence 784 12 32 (heap true) (list_of 32 [])
      (list_of 16 (576 ∷ []) ∷ list_of 8 [] ∷ []) refl middle_listed (omega arith) (omega arith)
      (omega arith)

-- The block at 784 has 40 words, the one at 576 has 17.
abbrev sizes : ℕ → ℕ
sizes = update (update (λ _. 0) 784 40) 576 17

two_lists : All (IsSized sequence sizes 20) (list_of 32 (784 ∷ []) ∷ list_of 16 (576 ∷ []) ∷ [])
two_lists = (((refl, tt), λ p h. ground arith), (((refl, tt), λ p h. ground arith), tt))

find_in-Fit_example :
    Fit sequence sizes 20
      (list_of 32 (784 ∷ []) ∷ list_of 16 (576 ∷ []) ∷ [])
      (find_in sequence sizes 20 (list_of 32 (784 ∷ []) ∷ list_of 16 (576 ∷ []) ∷ []))
find_in-Fit_example =
    find_in-Fit sequence sizes 20 (list_of 32 (784 ∷ []) ∷ list_of 16 (576 ∷ []) ∷ []) two_lists

search-Right_example :
    Right
      (λ p. leb 3 p)
      (1 ∷ 3 ∷ 2 ∷ [])
      (search (λ p. leb 3 p) none (backwards (1 ∷ 3 ∷ 2 ∷ [])) (1 ∷ 3 ∷ 2 ∷ []))
search-Right_example = search-Right (λ p. leb 3 p) 1 (3 ∷ 2 ∷ []) (refl, (refl, (refl, tt)))

block_words-bounds_example :
    (block_words 100 % 2 ≡ 0)
    × (8 ≤ block_words 100)
    × (116 ≤ 8 * block_words 100)
    × ((block_words 100 ≡ 8) ⊎ (8 * block_words 100 < 132))
block_words-bounds_example = block_words-bounds 100 (omega arith)

sbrk_all-Tiles_example :
    Tiles 1048
      (sbrk_all (pos 8 ∷ pos 5000 ∷ negsuc 0 ∷ pos 16 ∷ []) memory).0
      (sbrk_all (pos 8 ∷ pos 5000 ∷ negsuc 0 ∷ pos 16 ∷ []) memory).1.mem_brk
    × ((sbrk_all (pos 8 ∷ pos 5000 ∷ negsuc 0 ∷ pos 16 ∷ []) memory).1.mem_brk ≤ 4096)
    × ((sbrk_all (pos 8 ∷ pos 5000 ∷ negsuc 0 ∷ pos 16 ∷ []) memory).1.mem_start_brk ≡ 0)
    × ((sbrk_all (pos 8 ∷ pos 5000 ∷ negsuc 0 ∷ pos 16 ∷ []) memory).1.mem_max_addr ≡ 4096)
sbrk_all-Tiles_example =
    sbrk_all-Tiles (pos 8 ∷ pos 5000 ∷ negsuc 0 ∷ pos 16 ∷ []) memory (omega arith)

abbrev range : ℕ → ℕ → Range
range lo hi = record { lo = lo; hi = hi }

added :
    add_range true memory 160 (pos 32) (range 64 95 ∷ range 320 400 ∷ [])
    ≡ some (true, range 160 191 ∷ range 64 95 ∷ range 320 400 ∷ [])
unfolding add_range
added = refl

add_range-Disjoint_example :
    (160 % alignment ≡ 0) × Disjoint (range 160 191 ∷ range 64 95 ∷ range 320 400 ∷ [])
add_range-Disjoint_example =
    add_range-Disjoint true memory 160 31 (range 64 95 ∷ range 320 400 ∷ [])
      (range 160 191 ∷ range 64 95 ∷ range 320 400 ∷ [])
      (omega arith, (inl (omega arith), tt), (omega arith, tt, tt))
      (inl (omega arith), (inr (omega arith), tt)) added

remove_range-Disjoint_example :
    (remove_range 64 (range 64 95 ∷ range 320 400 ∷ []) ≡ range 320 400 ∷ [])
    × Disjoint (remove_range 64 (range 64 95 ∷ range 320 400 ∷ []))
    × All (λ p. p.lo ≢ 64) (remove_range 64 (range 64 95 ∷ range 320 400 ∷ []))
remove_range-Disjoint_example =
    remove_range-Disjoint 64 (range 64 95 ∷ range 320 400 ∷ [])
      (omega arith, (inl (omega arith), tt), (omega arith, tt, tt))

add_range-enclosing_example :
    add_range false memory 64 (pos 100) (range 80 95 ∷ [])
    ≡ some (true, range 64 163 ∷ range 80 95 ∷ [])
add_range-enclosing_example =
    add_range-enclosing memory 64 99 (range 80 95) refl (omega arith) (omega arith)

All-IsSized :
    All (IsSized sequence (blk_size (heap true)) (block_words 100)) (heap true).free_blocks
All-IsSized = (
  ((refl, tt), λ p h. ground arith),
  (((refl, tt), λ p h. ground arith), (((tt), λ p h. cc), tt)),
)

found_784 :
    find_in sequence (blk_size (heap true)) (block_words 100) (heap true).free_blocks ≡ some 784
unfolding find_in search block_words block_bytes align max
found_784 = refl

mm_malloc-Placed_example :
    (t : Heap (List ℕ)) × (mm_malloc sequence 100 (heap true) ≡ done (some 792) t)
    × (116 ≤ 8 * block_words 100)
    × (block_words 100 ≤ 32)
    × SameOutside 784 32 (tags true) t.tags
    × (((8 ≤ 32 - block_words 100)
          × (HasBlock t.tags true 784 (block_words 100)
              × HasBlock t.tags false (784 + 8 * block_words 100) (32 - block_words 100)
              × Entered sequence
                  (784 + 8 * block_words 100)
                  (32 - block_words 100)
                  (list_of 32 [] ∷ list_of 16 (576 ∷ []) ∷ list_of 8 [] ∷ [])
                  t.free_blocks))
        ⊎ ((32 - block_words 100 < 8)
            × (HasBlock t.tags true 784 32
                × (t.free_blocks ≡ list_of 32 [] ∷ list_of 16 (576 ∷ []) ∷ list_of 8 [] ∷ []))))
mm_malloc-Placed_example =
    mm_malloc-Placed sequence 100 784 32 576 (heap true) (list_of 32 [])
      (list_of 16 (576 ∷ []) ∷ list_of 8 [] ∷ []) (omega arith) (omega arith) refl All-IsSized
      found_784 refl middle_listed (omega arith)

sbrk-wraps_example :
    sbrk sequence (to_int (8 * 536870912)) (heap true) ≡ done (some 1048) (heap true)
sbrk-wraps_example = sbrk-wraps sequence 536870912 (heap true) refl (omega arith)
