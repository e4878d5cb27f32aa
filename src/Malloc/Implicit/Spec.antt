-- ===== src/Malloc/Implicit/Spec.antt =====
-- The heap of mm-gback-implicit.c as a sequence of blocks, how the tags represent it, and what the
-- operations mean on the sequence.
use computer_systems_project.Base.{
  ℕ, ◌+◌, ◌-◌, ◌*◌, ◌%◌, ◌≤◌, ◌≡◌, Bool, true, false, not, ◌&&◌, ◌||◌, Option, none, some, List, [],
  ◌∷◌, ◌++◌, leb, ◌==◌, if◌then◌else◌,
}
use computer_systems_project.Malloc.Memlib.{max_heap}
use computer_systems_project.Malloc.Blocks.{BoundaryTag, fence, max}
use computer_systems_project.Malloc.Ranges.{Range}
use computer_systems_project.Malloc.Implicit.{TagMap, ImplicitHeap, wsize}

-- A block of at least 4 words, in units of 16 bytes.
abbrev pub IsBlock : BoundaryTag → Type 0
IsBlock b = (4 ≤ b.size) × (b.size % 4 ≡ 0)

abbrev pub after : ℕ → BoundaryTag → ℕ
after p b = p + wsize * b.size

-- From address `p` on the tags describe the blocks `bs`, each with header and footer, up to a fence.
abbrev pub Laid : TagMap → ℕ → List BoundaryTag → Type 0
Laid t p [] = t p ≡ fence
Laid t p (b ∷ bs) = IsBlock b × (t p ≡ b) × (t (after p b - wsize) ≡ b) × Laid t (after p b) bs

abbrev pub words : List BoundaryTag → ℕ
words [] = 0
words (b ∷ bs) = b.size + words bs

abbrev pub free_block : ℕ → BoundaryTag
free_block n = record { inuse = false; size = n }

abbrev pub used_block : ℕ → BoundaryTag
used_block n = record { inuse = true; size = n }

-- A block in front of a sequence, merged with the first block if both are free.
abbrev pub glue_size : Bool → Bool → BoundaryTag → BoundaryTag → List BoundaryTag → List BoundaryTag
glue_size false false b c cs = free_block (b.size + c.size) ∷ cs
glue_size false true b c cs = b ∷ c ∷ cs
glue_size true free b c cs = b ∷ c ∷ cs

abbrev pub glue : BoundaryTag → List BoundaryTag → List BoundaryTag
glue b [] = b ∷ []
glue b (c ∷ cs) = glue_size b.inuse c.inuse b c cs

-- Each run of adjacent free blocks becomes one block.
abbrev pub collapse : List BoundaryTag → List BoundaryTag
collapse [] = []
collapse (b ∷ bs) = glue b (collapse bs)

-- The block at address `q`, in a sequence from `p` on, marked as free.
abbrev pub mark_free : ℕ → ℕ → List BoundaryTag → List BoundaryTag
mark_free q p [] = []
mark_free q p (b ∷ bs) = if p == q then free_block b.size ∷ bs else b ∷ mark_free q (after p b) bs

abbrev pub fits : ℕ → BoundaryTag → Bool
fits n b = not b.inuse && leb n b.size

-- The address of the first free block of at least `n` words.
abbrev pub first_fit : ℕ → ℕ → List BoundaryTag → Option ℕ
first_fit n p [] = none
first_fit n p (b ∷ bs) = if fits n b then some p else first_fit n (after p b) bs

-- The block split for `n` words, if at least 4 words are left.
abbrev pub split : ℕ → ℕ → List BoundaryTag → List BoundaryTag
split n size bs =
    if leb 4 (size - n) then used_block n ∷ free_block (size - n) ∷ bs else used_block size ∷ bs

-- The first fit, in use from now on.
abbrev pub carve : ℕ → List BoundaryTag → List BoundaryTag
carve n [] = []
carve n (b ∷ bs) = if fits n b then split n b.size bs else b ∷ carve n bs

-- A free block more at the end.
abbrev pub grow : ℕ → List BoundaryTag → List BoundaryTag
grow n bs = collapse (bs ++ free_block n ∷ [])

-- The payload of the block at `p`.
abbrev pub payload : ℕ → ℕ → Range
payload p n = record { lo = p + wsize; hi = (p + wsize * n) - wsize - 1 }

-- The payloads of the blocks in use.
abbrev pub note_payload : Bool → ℕ → ℕ → List Range → List Range
note_payload true p n ranges = payload p n ∷ ranges
note_payload false p n ranges = ranges

abbrev pub payloads : ℕ → List BoundaryTag → List Range
payloads p [] = []
payloads p (b ∷ bs) = note_payload b.inuse p b.size (payloads (after p b) bs)

-- No two adjacent blocks are free.
abbrev pub NotBothFree : BoundaryTag → List BoundaryTag → Type 0
NotBothFree b [] = Unit
NotBothFree b (c ∷ cs) = (b.inuse || c.inuse) ≡ true

abbrev pub Merged : List BoundaryTag → Type 0
Merged [] = Unit
Merged (b ∷ bs) = NotBothFree b bs × Merged bs

-- Where the block begins into which the block at `q` is merged.
abbrev pub merged_at : ℕ → ℕ → List BoundaryTag → ℕ
merged_at q p [] = q
merged_at q p (b ∷ bs) =
    if p == q || (not b.inuse && after p b == q) then p else merged_at q (after p b) bs

-- Whether the block at address `q` is there, and in use.
abbrev pub in_use : ℕ → ℕ → List BoundaryTag → Bool
in_use q p [] = false
in_use q p (b ∷ bs) = if p == q then b.inuse else in_use q (after p b) bs

-- The heap is the sequence `bs`, between the fence before the first block and the break.
pub record Represents (s : ImplicitHeap) (bs : List BoundaryTag) : Type 0 where
  pub prologue : s.tags (s.heap_listp - wsize) ≡ fence
  pub laid : Laid s.tags s.heap_listp bs
  pub merged : Merged bs
  pub first : s.heap_listp ≡ s.mem.mem_start_brk + 3 * wsize
  pub brk : s.mem.mem_brk ≡ s.heap_listp + wsize * words bs + wsize
  pub low : s.mem.mem_brk ≤ s.mem.mem_max_addr
  pub small : s.mem.mem_max_addr ≤ s.mem.mem_start_brk + max_heap

-- The heap in which mm_malloc places `n` words: extended if there is no fit, unless it is refused.
abbrev pub made_room : Option ℕ → Bool → ℕ → List BoundaryTag → List BoundaryTag
made_room (some q) refused n bs = bs
made_room none true n bs = bs
made_room none false n bs = grow (max n 1024) bs

-- The payload address of a block.
abbrev pub payload_of : Option ℕ → Option ℕ
payload_of none = none
payload_of (some q) = some (q + wsize)

-- What mm_malloc and mm_free do to the sequence of blocks from `p` on.
abbrev pub malloc_blocks : ℕ → Bool → ℕ → List BoundaryTag → Option ℕ × List BoundaryTag
malloc_blocks n refused p bs =
    let room = made_room (first_fit n p bs) refused n bs in
    (payload_of (first_fit n p room), carve n room)

abbrev pub free_blocks : ℕ → ℕ → List BoundaryTag → List BoundaryTag
free_blocks q p bs = collapse (mark_free q p bs)
