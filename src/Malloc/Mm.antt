-- ===== src/Malloc/Mm.antt =====
-- mm.c: the operations of the allocator, with their helpers coalesce, extend_heap and place.
pub mod Merge
pub mod Coalesce
pub mod Free
pub mod Place
pub mod Reuse
pub mod Wrapping
use computer_systems_project.Base.{
  ℕ, zero, suc, ◌+◌, ◌-◌, ◌*◌, ◌/◌, ◌%◌, ◌^◌, ◌<◌, ◌≡◌, Bool, true, false, not, ◌&&◌, Option, none,
  some, List, [], ◌∷◌, ◌++◌, ltb, leb, ◌==◌, if◌then◌else◌, update, ℤ, pos, arith,
}
use computer_systems_project.LinkedList.{LinkedList}
use computer_systems_project.Run.{
  Outcome, done, crash, Command, and_then, ◌>>=◌, ◌>>◌, pure, need, get, modify,
}
use computer_systems_project.Malloc.Memlib.{Mem, mem_sbrk}
use computer_systems_project.Malloc.Blocks.{
  Heap, BoundaryTag, fence, FreeBlockList, wsize, min_block_size_words, chunksize, max_block, max,
  block_bytes, block_words, add_size, sub_size, to_int, prev_blk_footer, blk_free, blk_size,
  prev_blk, next_blk, mark_block_used, mark_block_free,
}
use computer_systems_project.Malloc.FreeLists.{add_free_block, remove_block, find_fit}

module _ (L : LinkedList) where
  unfoldable pub sbrk : ℤ → Command (Heap L.Handle) (Option ℕ)
  sbrk z s = let (got, m) = mem_sbrk z s.mem in done got (record s { mem = m })

  -- The four cases of coalesce, by whether the previous and the next block are allocated, with the
  -- addresses of the three blocks and their sizes.
  unfoldable pub coalesce_case : Bool → Bool → ℕ → ℕ → ℕ → ℕ → ℕ → ℕ → Command (Heap L.Handle) ℕ
  coalesce_case true true bp prev next size size_prev size_next = add_free_block L bp >> pure bp
  coalesce_case true false bp prev next size size_prev size_next =
      remove_block L next
      >> (mark_block_free bp (add_size size size_next) >> add_free_block L bp)
      >> pure bp
  coalesce_case false true bp prev next size size_prev size_next =
      remove_block L prev
      >> (mark_block_free prev (add_size size size_prev) >> add_free_block L prev)
      >> pure prev
  coalesce_case false false bp prev next size size_prev size_next =
      remove_block L prev
      >> remove_block L next
      >> (mark_block_free prev (add_size (add_size size size_prev) size_next)
          >> add_free_block L prev)
      >> pure prev

  unfoldable pub coalesce : ℕ → Command (Heap L.Handle) ℕ
  coalesce bp s =
      coalesce_case (s.tags (prev_blk_footer s bp)).inuse (not (blk_free s (next_blk s bp))) bp
        (prev_blk s bp) (next_blk s bp) (blk_size s bp) (blk_size s (prev_blk s bp))
        (blk_size s (next_blk s bp)) s

  -- `next_blk(blk)->header = FENCE`
  unfoldable pub write_fence : ℕ → Command (Heap L.Handle) (Unit {0})
  write_fence blk s = done tt (record s { tags = update s.tags (next_blk s blk) fence })

  unfoldable pub extend_heap : ℕ → Command (Heap L.Handle) (Option ℕ)
  extend_heap words = do
    got ← sbrk (to_int (wsize * words))
    elim got [
      | none ↦ pure none
      | some bp ↦ do
        mark_block_free (bp - wsize) words
        write_fence (bp - wsize)
        blk ← coalesce (bp - wsize)
        pure (some blk)
    ]

  -- place, for a block of `csize` words
  unfoldable pub place_in : ℕ → ℕ → ℕ → Command (Heap L.Handle) (Unit {0})
  place_in csize bp asize =
      if leb min_block_size_words (sub_size csize asize)
      then (mark_block_used bp asize >> remove_block L bp >> (λ t.
          (mark_block_free (next_blk t bp) (sub_size csize asize)
              >> add_free_block L (next_blk t bp))
            t))
      else (mark_block_used bp csize >> remove_block L bp)

  unfoldable pub place : ℕ → ℕ → Command (Heap L.Handle) (Unit {0})
  unfolding place_in
  place bp asize s = place_in (blk_size s bp) bp asize s

  -- One round of the loop of mm_init for each unit of fuel.
  unfoldable pub init_lists : ℕ → ℕ → Command (Heap L.Handle) (Unit {0})
  init_lists zero i = pure tt
  init_lists (suc rounds) i =
      if leb min_block_size_words i
      then (do
        got ← sbrk (pos 56)
        need got
        modify λ s. record s {
          free_blocks = s.free_blocks ++ record { blocks = L.empty; list_size = i } ∷ [];
        }
        init_lists rounds (i / 2))
      else pure tt

  -- mm_init: whether it returns 0. The second fence of the code overwrites the first.
  unfoldable pub mm_init : Command (Heap L.Handle) Bool
  mm_init = do
    modify λ s. record s { free_blocks = [] }
    init_lists 32 max_block
    got ← sbrk (pos (2 * wsize))
    elim got [
      | none ↦ pure false
      | some initial ↦ do
        modify λ s. record s {
          tags = update s.tags initial fence;
          heap_listp = some (initial + wsize);
        }
        blk ← extend_heap chunksize
        pure (elim blk [ none ↦ false | some _ ↦ true ])
    ]

  unfoldable pub place_at : ℕ → Option ℕ → Command (Heap L.Handle) (Option ℕ)
  place_at awords none = pure none
  place_at awords (some bp) = place bp awords >> pure (some (bp + wsize))

  unfoldable pub allocate : ℕ → Command (Heap L.Handle) (Option ℕ)
  allocate awords = do
    fit ← find_fit L awords
    elim fit [
      | some bp ↦ place_at awords (some bp)
      | none ↦ extend_heap (max awords chunksize) >>= place_at awords
    ]

  -- `if (heap_listp == 0)`, whatever mm_init returns
  unfoldable pub initialise : Option ℕ → Command (Heap L.Handle) (Unit {0})
  initialise none = mm_init >> pure tt
  initialise (some h) = pure tt

  -- What follows in mm_malloc.
  unfoldable pub request : ℕ → Command (Heap L.Handle) (Option ℕ)
  request size = if ltb (block_bytes size) size then pure none else allocate (block_words size)

  -- mm_malloc, for a size below 2^64
  unfoldable pub mm_malloc : ℕ → Command (Heap L.Handle) (Option ℕ)
  mm_malloc size =
      if size == 0 then pure none else (do s ← get; initialise s.heap_listp; request size)

  unfoldable pub mm_free : Option ℕ → Command (Heap L.Handle) (Unit {0})
  mm_free none s = done tt s
  mm_free (some bp) s =
      let blk = bp - wsize in
      and_then (mark_block_free blk (blk_size s blk) s) (λ _. coalesce blk >> pure tt)

  -- The area `from` is read as it was before the copy.
  unfoldable pub memcpy : ℕ → ℕ → ℕ → Command (Heap L.Handle) (Unit {0})
  memcpy to from n = modify λ s. record s {
    bytes = λ q. if leb to q && ltb q (to + n) then s.bytes (from + (q - to)) else s.bytes q;
  }

  unfoldable pub min_bytes : ℕ → ℕ → ℕ
  min_bytes size bytesize = if ltb size bytesize then size else bytesize

  -- `if (!next_alloc) ...` in mm_realloc
  unfoldable pub absorb_right : ℕ → Bool → Command (Heap L.Handle) (Unit {0})
  absorb_right blk true = pure tt
  absorb_right blk false = do
    s ← get
    remove_block L (next_blk s blk)
    mark_block_used blk (add_size (blk_size s blk) (blk_size s (next_blk s blk)))

  -- `if (!prev_alloc) ...`: the block that `oldblk` is from then on
  unfoldable pub absorb_left : ℕ → Bool → Command (Heap L.Handle) ℕ
  absorb_left blk true = pure blk
  absorb_left blk false = do
    s ← get
    remove_block L (prev_blk s blk)
    mark_block_used (prev_blk s blk) (add_size (blk_size s blk) (blk_size s (prev_blk s blk)))
    pure (prev_blk s blk)

  -- The end of mm_realloc, where no neighbour gave enough room.
  unfoldable pub move_block : ℕ → ℕ → ℕ → Command (Heap L.Handle) (Option ℕ)
  move_block ptr size oldblk = do
    newptr ← mm_malloc size
    elim newptr [
      | none ↦ pure none
      | some new ↦ do
        t ← get
        memcpy new ptr (min_bytes size (blk_size t (ptr - wsize) * wsize))
        mm_free (some (oldblk + wsize))
        pure (some new)
    ]

  unfoldable pub resize_block : ℕ → ℕ → Command (Heap L.Handle) (Option ℕ)
  resize_block ptr size = do
    s ← get
    let blk = ptr - wsize
    let prev_alloc = (s.tags (prev_blk_footer s blk)).inuse
    absorb_right blk (not (blk_free s (next_blk s blk)))
    t ← get
    if leb size (blk_size t blk) then pure (some ptr) else (do
      oldblk ← absorb_left blk prev_alloc
      u ← get
      if leb size (blk_size u oldblk)
          then (memcpy (oldblk + wsize) ptr (min_bytes size (blk_size u oldblk * wsize))
              >> pure (some (oldblk + wsize)))
          else move_block ptr size oldblk)

  unfoldable pub mm_realloc : Option ℕ → ℕ → Command (Heap L.Handle) (Option ℕ)
  mm_realloc ptr size =
      if size == 0
      then (mm_free ptr >> pure none)
      else elim ptr [ none ↦ mm_malloc size | some p ↦ resize_block p size ]
