-- ===== src/Malloc/Implicit.antt =====
-- mm-gback-implicit.c: the sample allocator, which keeps no list of free blocks and walks the heap.
-- A tag is one word of 4 bytes, and its size field has 31 bits with a sign. The Makefile defines
-- NDEBUG, so there are no assertions. An address is a number of bytes, and writes of payloads are
-- taken not to touch the tags.
pub mod Spec
pub mod Write
pub mod Walk
pub mod Place
pub mod Coalesce
pub mod Merged
pub mod Freed
pub mod Free
pub mod Extend
pub mod Requests
pub mod Refinement
pub mod RoundTrip
pub mod Payloads
pub mod Occurs
pub mod Allocator
pub mod Granting
pub mod Releasing
pub mod Moving
pub mod Lawful
pub mod Init
use computer_systems_project.Base.{
  ℕ, zero, suc, ◌+◌, ◌-◌, ◌*◌, ◌/◌, ◌%◌, ◌^◌, Bool, true, false, not, ◌&&◌, Option, none, some, ltb,
  leb, ◌==◌, if◌then◌else◌, update, pos,
}
use computer_systems_project.Malloc.Memlib.{Mem, mem_sbrk, mem_heapsize}
use computer_systems_project.Malloc.Blocks.{
  BoundaryTag, fence, max, align, add_size, sub_size, to_int,
}

abbrev pub wsize : ℕ
wsize = 4

abbrev pub min_block_size_words : ℕ
min_block_size_words = 4

abbrev pub chunksize : ℕ
chunksize = 1024

-- The tag at an address.
abbrev pub TagMap : Type 0
TagMap = ℕ → BoundaryTag

pub record ImplicitHeap : Type 0 where
  pub mem : Mem
  pub tags : TagMap
  pub bytes : ℕ → ℕ
  pub heap_listp : ℕ

-- A size_t stored by way of an int in the size field, and read back as a size_t.
unfoldable pub size_field : ℕ → ℕ
size_field n = let r = n % 2 ^ 31 in if ltb r (2 ^ 30) then r else 2 ^ 64 - (2 ^ 31 - r)

abbrev pub prev_blk_footer : ℕ → ℕ
prev_blk_footer blk = blk - wsize

abbrev pub blk_free : TagMap → ℕ → Bool
blk_free t blk = not (t blk).inuse

abbrev pub blk_size : TagMap → ℕ → ℕ
blk_size t blk = (t blk).size

abbrev pub prev_blk : TagMap → ℕ → ℕ
prev_blk t blk = blk - wsize * (t (prev_blk_footer blk)).size

abbrev pub next_blk : TagMap → ℕ → ℕ
next_blk t blk = blk + wsize * blk_size t blk

abbrev pub get_footer : TagMap → ℕ → ℕ
get_footer t blk = (blk + wsize * blk_size t blk) - wsize

unfoldable pub set_header_and_footer : ℕ → ℕ → Bool → TagMap → TagMap
unfolding size_field
set_header_and_footer blk size inuse t =
    let tag : BoundaryTag = record { inuse = inuse; size = size_field size } in
    let t' = update t blk tag in update t' (get_footer t' blk) tag

abbrev pub mark_block_used : ℕ → ℕ → TagMap → TagMap
mark_block_used blk size t = set_header_and_footer blk size true t

abbrev pub mark_block_free : ℕ → ℕ → TagMap → TagMap
mark_block_free blk size t = set_header_and_footer blk size false t

-- The cases of coalesce, by whether the previous and the next block are allocated, with the sizes
-- of the block, the next and the previous one.
unfoldable pub coalesce_case : Bool → Bool → ℕ → ℕ → ℕ → ℕ → ℕ → TagMap → ℕ × TagMap
coalesce_case true true bp prev size size_next size_prev t = (bp, t)
coalesce_case true false bp prev size size_next size_prev t =
    (bp, mark_block_free bp (add_size size size_next) t)
coalesce_case false true bp prev size size_next size_prev t =
    (prev, mark_block_free prev (add_size size size_prev) t)
coalesce_case false false bp prev size size_next size_prev t =
    let t' = mark_block_free prev (add_size (add_size size size_next) size_prev) t in
    (prev_blk t' bp, t')

unfoldable pub coalesce : ℕ → TagMap → ℕ × TagMap
coalesce bp t =
    coalesce_case (t (prev_blk_footer bp)).inuse (not (blk_free t (next_blk t bp))) bp
      (prev_blk t bp) (blk_size t bp) (blk_size t (next_blk t bp)) (blk_size t (prev_blk t bp)) t

unfoldable pub place : ℕ → ℕ → TagMap → TagMap
place bp asize t =
    let csize = blk_size t bp in
    if leb min_block_size_words (sub_size csize asize)
    then (let t' = mark_block_used bp asize t in
        mark_block_free (next_blk t' bp) (sub_size csize asize) t')
    else mark_block_used bp csize t

-- The loop of find_fit from `bp`, one round for each unit of fuel: `none` where the fuel runs out.
unfoldable pub find_fit : ℕ → ℕ → ℕ → TagMap → Option (Option ℕ)
find_fit zero asize bp t = none
find_fit (suc rounds) asize bp t =
    let rest = find_fit rounds asize (next_blk t bp) t in
    if ltb 0 (blk_size t bp)
    then (if blk_free t bp && leb asize (blk_size t bp) then some (some bp) else rest)
    else some none

-- extend_heap from the answer of mem_sbrk on
unfoldable pub extended : ℕ → Option ℕ → ImplicitHeap → Option ℕ × ImplicitHeap
extended words none s = (none, s)
extended words (some bp) s =
    let blk = bp - wsize in
    let t = mark_block_free blk words s.tags in
    let r = coalesce blk (update t (next_blk t blk) fence) in (some r.0, record s { tags = r.1 })

unfoldable pub extend_heap : ℕ → ImplicitHeap → Option ℕ × ImplicitHeap
extend_heap words s =
    let r = mem_sbrk (to_int (words * wsize)) s.mem in extended words r.0 (record s { mem = r.1 })

abbrev pub two_fences : ℕ → TagMap → TagMap
two_fences initial t = update (update t (initial + 2 * wsize) fence) (initial + 3 * wsize) fence

unfoldable pub init_heap : Option ℕ → ImplicitHeap → Bool × ImplicitHeap
init_heap none s = (false, s)
init_heap (some initial) s =
    let r =
      extend_heap chunksize
        (record s { tags = two_fences initial s.tags; heap_listp = initial + 3 * wsize }) in
    (elim r.0 [ none ↦ false | some _ ↦ true ], r.1)

-- mm_init: whether it returns 0
unfoldable pub mm_init : ImplicitHeap → Bool × ImplicitHeap
mm_init s = let r = mem_sbrk (pos (4 * wsize)) s.mem in init_heap r.0 (record s { mem = r.1 })

-- The adjusted size in bytes, and in words.
unfoldable pub bsize : ℕ → ℕ
unfolding align
bsize size = align (add_size size (2 * wsize))

unfoldable pub awords : ℕ → ℕ
unfolding max bsize
awords size = max min_block_size_words (bsize size / wsize)

-- `place(bp, awords); return bp->payload;`, or NULL
unfoldable pub place_at : ℕ → Option ℕ × ImplicitHeap → Option ℕ × ImplicitHeap
place_at n (none, s) = (none, s)
place_at n (some bp, s) = (some (bp + wsize), record s { tags = place bp n s.tags })

unfoldable pub allocate : ℕ → Option ℕ → ImplicitHeap → Option ℕ × ImplicitHeap
allocate n none s = place_at n (extend_heap (max n chunksize) s)
allocate n (some bp) s = place_at n (some bp, s)

-- A round of the walk for each byte of the heap.
unfoldable pub search_heap : ℕ → ImplicitHeap → Option (Option ℕ × ImplicitHeap)
search_heap n s = elim (find_fit (mem_heapsize s.mem) n s.heap_listp s.tags) [
  | none ↦ none
  | some fit ↦ some (allocate n fit s)
]

-- mm_malloc, for a size below 2^64: `none` only where the walk has run out of fuel
unfoldable pub mm_malloc : ℕ → ImplicitHeap → Option (Option ℕ × ImplicitHeap)
mm_malloc size s =
    if size == 0
    then some (none, s)
    else if ltb (bsize size) size
    then some (none, s)
    else search_heap (awords size) s

unfoldable pub mm_free : Option ℕ → ImplicitHeap → ImplicitHeap
mm_free none s = s
mm_free (some bp) s =
    let blk = bp - wsize in
    record s { tags = (coalesce blk (mark_block_free blk (blk_size s.tags blk) s.tags)).1 }

-- The area `from` is read as it was before the copy.
unfoldable pub memcpy : ℕ → ℕ → ℕ → ImplicitHeap → ImplicitHeap
memcpy to from n s = record s {
  bytes = λ q. if leb to q && ltb q (to + n) then s.bytes (from + (q - to)) else s.bytes q;
}

-- `oldpayloadsize` as mm_realloc copies it.
unfoldable pub copy_size : ℕ → ℕ → ℕ
copy_size size words =
    let payload = sub_size (words * wsize) (2 * wsize) in if ltb size payload then size else payload

unfoldable pub moved : ℕ → ℕ → Option ℕ × ImplicitHeap → Option ℕ × ImplicitHeap
moved ptr size (none, s) = (none, s)
moved ptr size (some new, s) =
    let n = copy_size size (blk_size s.tags (ptr - wsize)) in
    (some new, mm_free (some ptr) (memcpy new ptr n s))

unfoldable pub mm_realloc : Option ℕ → ℕ → ImplicitHeap → Option (Option ℕ × ImplicitHeap)
mm_realloc ptr size s = if size == 0 then some (none, mm_free ptr s) else elim ptr [
  | none ↦ mm_malloc size s
  | some p ↦ elim (mm_malloc size s) [ none ↦ none | some r ↦ some (moved p size r) ]
]
