-- ===== src/Malloc/Mm/Reuse.antt =====
-- mm_malloc, where find_fit finds a block.
use computer_systems_project.Base.{
  ℕ, ◌+◌, ◌-◌, ◌*◌, ◌^◌, ◌≤◌, ◌<◌, ◌≡◌, refl, ap, subst, ◌∙◌, ◌⊎◌, false, some, List, ◌∷◌, arith,
  All, ltb, ==_false_of_ne,
}
use computer_systems_project.LinkedList.{LinkedList}
use computer_systems_project.Run.{done, and_then}
use computer_systems_project.Malloc.Blocks.{
  Heap, BoundaryTag, FreeBlockList, wsize, align, block_bytes, block_words, blk_size,
}
use computer_systems_project.Malloc.Blocks.Tags.{tag_of, block_words-bounds}
use computer_systems_project.Malloc.FreeLists.{find_in, find_fit, take_block}
use computer_systems_project.Malloc.FreeLists.Fit.{Fit, IsSized, find_in-Fit}
use computer_systems_project.Malloc.Mm.{mm_malloc, initialise, request, allocate, place_at, place}
use computer_systems_project.Malloc.Mm.Place.{SameOutside, IsSplit, IsWhole, place-Placed}

no_overflow : (size : ℕ) → size + 31 < 2 ^ 64 → ltb (block_bytes size) size ≡ false
unfolding block_bytes align
no_overflow size low = ground arith

module _ (L : LinkedList) (size bp csize h : ℕ) (s : Heap L.Handle) (b : FreeBlockList L.Handle)
    (rest : List (FreeBlockList L.Handle)) (asked : 0 < size) (fits_size : size + 31 < 2 ^ 64)
    (initialised : s.heap_listp ≡ some h)
    (sized : All (IsSized L (blk_size s) (block_words size)) s.free_blocks)
    (found : find_in L (blk_size s) (block_words size) s.free_blocks ≡ some bp)
    (here : s.tags bp ≡ tag_of false csize) (took : take_block L bp s.free_blocks ≡ some (b ∷ rest))
    (low : csize < 2 ^ 31) where
  pub enough : block_words size ≤ csize
  enough =
      let fit : Fit L (blk_size s) (block_words size) s.free_blocks (some bp) =
        subst (Fit L (blk_size s) (block_words size) s.free_blocks) found
          (find_in-Fit L (blk_size s) (block_words size) s.free_blocks sized) in
      subst (λ (t : BoundaryTag). block_words size ≤ t.size) here fit.1

  pub some_words : 0 < block_words size
  some_words = omega (arith, (block_words-bounds size fits_size).1)

  request-place :
      (t : Heap L.Handle)
      → place L bp (block_words size) s ≡ done tt t
      → request L size s ≡ done (some (bp + wsize)) t
  unfolding request allocate place_at find_fit
  request-place t ran = rw (no_overflow size fits_size, found, ran) refl

  mm_malloc-request : mm_malloc L size s ≡ request L size s
  unfolding mm_malloc initialise
  mm_malloc-request =
      rw (==_false_of_ne size 0 (omega (arith, asked)))
        (ap (λ o. and_then (initialise L o s) (λ _. request L size)) initialised)

  -- Where the heap is initialised, the size is positive and does not overflow, and find_fit finds
  -- a free block of less than 2^31 words for the request, in lists whose blocks have at least the
  -- size of their list, mm_malloc returns the payload of that block, which has room for the
  -- request. The block is split where at least 8 words are left over, and no tag outside it
  -- changes.
  pub mm_malloc-Placed :
      (t : Heap L.Handle) × (mm_malloc L size s ≡ done (some (bp + wsize)) t)
      × (size + 2 * wsize ≤ wsize * block_words size)
      × (block_words size ≤ csize)
      × SameOutside bp csize s.tags t.tags
      × (((8 ≤ csize - block_words size)
            × IsSplit L bp (block_words size) csize s b rest here took some_words enough low t)
          ⊎ ((csize - block_words size < 8)
              × IsWhole L bp (block_words size) csize s b rest here took some_words enough low t))
  mm_malloc-Placed =
      let (t, ran, same, is) =
        place-Placed L bp (block_words size) csize s b rest here took some_words enough low in
      (
        t,
        mm_malloc-request ∙ request-place t ran,
        (block_words-bounds size fits_size).2,
        enough,
        same,
        is,
      )
