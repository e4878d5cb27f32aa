-- ===== src/Malloc/Blocks.antt =====
-- mm.c: blocks and their boundary tags. A tag is one word of 8 bytes, so a build with assertions,
-- which demand 4, stops in mm_init; the Makefile defines NDEBUG, and so does this model. An address
-- is a number of bytes. Writes of payloads and of list links are taken not to touch the tags.
pub mod Tags
use computer_systems_project.Base.{
  ℕ, ◌+◌, ◌-◌, ◌*◌, ◌%◌, ◌^◌, ◌/◌, ◌≡◌, ◌<◌, Bool, true, false, not, Option, none, some, List, [],
  ◌∷◌, arith, ltb, if◌then◌else◌, update, ℤ, pos, negsuc,
}
use computer_systems_project.Run.{done, Command}
use computer_systems_project.Malloc.Memlib.{Mem}

-- struct boundary_tag
pub record BoundaryTag : Type 0 where
  pub inuse : Bool
  pub size : ℕ

abbrev pub fence : BoundaryTag
fence = record { inuse = true; size = 0 }

abbrev pub wsize : ℕ
wsize = 8

abbrev pub min_block_size_words : ℕ
min_block_size_words = 8

abbrev pub chunksize : ℕ
chunksize = 1024

abbrev pub max_block : ℕ
max_block = 4096

-- A list of free blocks, for blocks of at least `list_size` words.
pub record FreeBlockList (H : Type 0) : Type 0 where
  pub blocks : H
  pub list_size : ℕ

-- The global variables, and the memory: the tag at an address, and the byte of a payload. Tags and
-- bytes are kept apart: a tag that is written into a payload changes no byte of it.
pub record Heap (H : Type 0) : Type 0 where
  pub mem : Mem
  pub tags : ℕ → BoundaryTag
  pub bytes : ℕ → ℕ
  pub heap_listp : Option ℕ
  pub free_blocks : List (FreeBlockList H)

-- Arithmetic on size_t.
abbrev pub add_size : ℕ → ℕ → ℕ
add_size x y = (x + y) % 2 ^ 64

abbrev pub sub_size : ℕ → ℕ → ℕ
sub_size x y = (x + (2 ^ 64 - y)) % 2 ^ 64

unfoldable pub max : ℕ → ℕ → ℕ
max x y = if ltb y x then x else y

-- `(size + ALIGNMENT - 1) & ~(ALIGNMENT - 1)`
unfoldable pub align : ℕ → ℕ
align size = let y = (size + 15) % 2 ^ 64 in y - y % 16

-- The adjusted size of mm_malloc in bytes, and the size of the block in words.
unfoldable pub block_bytes : ℕ → ℕ
unfolding align
block_bytes size = align (add_size size (2 * wsize))

unfoldable pub block_words : ℕ → ℕ
unfolding max block_bytes
block_words size = max min_block_size_words (block_bytes size / wsize)

-- The conversion of a size_t to int.
unfoldable pub to_int : ℕ → ℤ
to_int n = let r = n % 2 ^ 32 in if ltb r (2 ^ 31) then pos r else negsuc (2 ^ 32 - r - 1)

-- The conversion of an int to the 63 bits of a size field.
unfoldable pub to_field : ℤ → ℕ
to_field (pos n) = n
to_field (negsuc n) = 2 ^ 63 - 1 - n

module _ {H : Type 0} (s : Heap H) where
  abbrev pub prev_blk_footer : ℕ → ℕ
  prev_blk_footer blk = blk - wsize

  abbrev pub blk_free : ℕ → Bool
  blk_free blk = not (s.tags blk).inuse

  abbrev pub blk_size : ℕ → ℕ
  blk_size blk = (s.tags blk).size

  abbrev pub prev_blk : ℕ → ℕ
  prev_blk blk = blk - wsize * (s.tags (prev_blk_footer blk)).size

  abbrev pub next_blk : ℕ → ℕ
  next_blk blk = blk + wsize * blk_size blk

  abbrev pub get_footer : ℕ → ℕ
  get_footer blk = (blk + wsize * blk_size blk) - wsize

module _ {H : Type 0} where
  unfoldable pub set_header_and_footer : ℕ → ℕ → Bool → Heap H → Heap H
  unfolding to_int to_field
  set_header_and_footer blk size inuse s =
      let tag : BoundaryTag = record { inuse = inuse; size = to_field (to_int size) } in
      let s' = record s { tags = update s.tags blk tag } in
      record s' { tags = update s'.tags (get_footer s' blk) tag }

  abbrev pub mark_block_used : ℕ → ℕ → Command (Heap H) (Unit {0})
  mark_block_used blk size s = done tt (set_header_and_footer blk size true s)

  abbrev pub mark_block_free : ℕ → ℕ → Command (Heap H) (Unit {0})
  mark_block_free blk size s = done tt (set_header_and_footer blk size false s)
