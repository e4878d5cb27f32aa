-- ===== src/Malloc/Implicit/Requests.antt =====
-- mm_malloc and mm_free of mm-gback-implicit.c refine the operations on the sequence of blocks.
use computer_systems_project.Base.{
  ℕ, ◌+◌, ◌-◌, ◌*◌, ◌^◌, ◌≤◌, ◌<◌, ◌≡◌, ◌∙◌, refl, sym, ap, subst, true, false, Option, none, some,
  List, [], ◌∷◌, ◌++◌, arith, ltb, length, All, pos, le_of_ltb-false,
}
use computer_systems_project.Malloc.Memlib.{
  mem_sbrk, mem_sbrk-refused, mem_sbrk-granted, mem_heapsize,
}
use computer_systems_project.Malloc.Blocks.{BoundaryTag, max, align, to_int}
use computer_systems_project.Malloc.Implicit.{
  TagMap, ImplicitHeap, wsize, coalesce, bsize, awords, place, extended, extend_heap, find_fit,
}
use computer_systems_project.Malloc.Implicit.Spec.{
  Laid, IsBlock, Merged, Represents, words, free_block, used_block, mark_free, in_use, grow, carve,
  first_fit, free_blocks, merged_at,
}
use computer_systems_project.Malloc.Implicit.Walk.{find_fit-first_fit}
use computer_systems_project.Malloc.Implicit.Place.{first_fit_from, place-carve}
use computer_systems_project.Malloc.Implicit.Merged.{
  collapse-Merged, carve-Merged, words-collapse, words-carve, words-mark_free, words-append,
}
use computer_systems_project.Malloc.Implicit.Freed.{Behind, freed}
use computer_systems_project.Malloc.Implicit.Free.{freed-collapse}
use computer_systems_project.Malloc.Implicit.Extend.{Laid-All, end_of, appended, extend-grow}

-- The block for a request has a multiple of 4 words, and room for the payload and both tags.
pub awords-bounds :
    (size : ℕ)
    → size + 23 < 2 ^ 64
    → IsBlock (used_block (awords size))
      × (size + 2 * wsize ≤ wsize * awords size)
      × (wsize * awords size ≤ size + 24)
unfolding awords bsize max align
awords-bounds size low = ground arith

pub bsize-size : (size : ℕ) → size + 23 < 2 ^ 64 → ltb (bsize size) size ≡ false
unfolding bsize align
bsize-size size low = ground arith

to_int_lem : (n : ℕ) → n < 2 ^ 31 → to_int n ≡ pos n
unfolding to_int
to_int_lem n low = ground arith

length-words : (bs : List BoundaryTag) → All IsBlock bs → length bs ≤ words bs
length-words [] h = omega arith
length-words (b ∷ bs) h = omega (arith, h.0, length-words bs h.1)

module _ (s : ImplicitHeap) (bs : List BoundaryTag) (h : Represents s bs) where
  words_low : words bs < 2 ^ 28
  words_low = omega (arith, h.first, h.brk, h.low, h.small)

  -- The new tags leave what is before the first block.
  retag :
      (u : TagMap) (cs : List BoundaryTag)
      → Laid u s.heap_listp cs
      → Merged cs
      → words cs ≡ words bs
      → ((a : ℕ) → a < s.heap_listp → u a ≡ s.tags a)
      → Represents (record s { tags = u }) cs
  retag u cs laid merged same below = record {
    prologue = below (s.heap_listp - wsize) (omega (arith, h.first)) ∙ h.prologue;
    laid = laid;
    merged = merged;
    first = h.first;
    brk = omega (arith, h.brk, same);
    low = h.low;
    small = h.small;
  }

  pub place-Represents :
      (n q : ℕ)
      → first_fit n s.heap_listp bs ≡ some q
      → IsBlock (used_block n)
      → Represents (record s { tags = place q n s.tags }) (carve n bs)
  place-Represents n q e block =
      let (laid, below) =
        place-carve n s.heap_listp q s.tags bs h.laid e block (omega (arith, words_low)) in
      retag (place q n s.tags) (carve n bs) laid (carve-Merged n bs h.merged) (words-carve n bs)
        (λ a l. below a (omega (arith, l, first_fit_from n s.heap_listp q bs e)))

  behind : Behind s.tags s.heap_listp
  behind = ap (λ (b : BoundaryTag). b.inuse) h.prologue

  -- mm_free of a block in use.
  pub free-Represents :
      (q : ℕ)
      → in_use q s.heap_listp bs ≡ true
      → Represents (record s { tags = (freed q s.tags).1 }) (free_blocks q s.heap_listp bs)
  free-Represents q e =
      let p : ℕ = s.heap_listp in
      let (at, laid, below) =
        freed-collapse q p s.tags bs (omega (arith, h.first)) behind h.laid h.merged
          (omega (arith, words_low)) e in
      retag (freed q s.tags).1 (free_blocks q p bs) laid (collapse-Merged (mark_free q p bs))
        (words-collapse (mark_free q p bs) ∙ words-mark_free q p bs) below

  -- The walk has a round for each block.
  length_low : length bs < mem_heapsize s.mem
  length_low =
      omega (arith, h.first, h.brk, length-words bs (Laid-All s.tags s.heap_listp bs h.laid))

  pub search-first_fit :
      (n : ℕ)
      → find_fit (mem_heapsize s.mem) n s.heap_listp s.tags ≡ some (first_fit n s.heap_listp bs)
  search-first_fit n =
      find_fit-first_fit (mem_heapsize s.mem) n s.heap_listp s.tags bs h.laid length_low

  module _ (m : ℕ) (block : IsBlock (free_block m)) (low : m * wsize < 2 ^ 31) where
    abbrev extended_at : ℕ → Option ℕ × ImplicitHeap
    extended_at blk =
        let r = coalesce blk (appended blk m s.tags) in
        (
          some r.0,
          record s { mem = record s.mem { mem_brk = s.mem.mem_brk + m * wsize }; tags = r.1 },
        )

    extend_heap-granted :
        ltb s.mem.mem_max_addr (s.mem.mem_brk + m * wsize) ≡ false
        → extend_heap m s ≡ extended_at (s.mem.mem_brk - wsize)
    unfolding extend_heap extended
    extend_heap-granted granted =
        ap (λ z. let r = mem_sbrk z s.mem in extended m r.0 (record s { mem = r.1 }))
          (to_int_lem (m * wsize) low)
        ∙ ap (λ r. extended m r.0 (record s { mem = r.1 }))
            (mem_sbrk-granted (m * wsize) s.mem granted)

    pub extend_heap-refused :
        ltb s.mem.mem_max_addr (s.mem.mem_brk + m * wsize) ≡ true → extend_heap m s ≡ (none, s)
    unfolding extend_heap extended
    extend_heap-refused refused =
        ap (λ z. let r = mem_sbrk z s.mem in extended m r.0 (record s { mem = r.1 }))
          (to_int_lem (m * wsize) low)
        ∙ ap (λ r. extended m r.0 (record s { mem = r.1 }))
            (mem_sbrk-refused (m * wsize) s.mem refused)

    extended_at-Represents :
        ltb s.mem.mem_max_addr (s.mem.mem_brk + m * wsize) ≡ false
        → ((extended_at (end_of s.heap_listp bs)).0
            ≡ some (merged_at (end_of s.heap_listp bs) s.heap_listp (bs ++ used_block m ∷ [])))
          × Represents (extended_at (end_of s.heap_listp bs)).1 (grow m bs)
    extended_at-Represents granted =
        let p : ℕ = s.heap_listp in
        let (at, laid, below) =
          extend-grow p m s.tags bs (omega (arith, h.first)) behind h.laid h.merged block
            (omega (arith, words_low, low)) in
        (
          ap some at,
          record {
            prologue = below (p - wsize) (omega (arith, h.first)) ∙ h.prologue;
            laid = laid;
            merged = collapse-Merged (bs ++ free_block m ∷ []);
            first = h.first;
            brk = omega (
              arith,
              h.brk,
              words-collapse (bs ++ free_block m ∷ []),
              words-append bs (free_block m ∷ []),
            );
            low = le_of_ltb-false s.mem.mem_max_addr (s.mem.mem_brk + m * wsize) granted;
            small = h.small;
          },
        )

    -- The heap after an extension that is granted.
    pub extend_heap-Represents :
        ltb s.mem.mem_max_addr (s.mem.mem_brk + m * wsize) ≡ false
        → let p = s.heap_listp in
          ((extend_heap m s).0 ≡ some (merged_at (end_of p bs) p (bs ++ used_block m ∷ [])))
          × Represents (extend_heap m s).1 (grow m bs)
          × ((extend_heap m s).1.heap_listp ≡ p)
          × ((extend_heap m s).1.bytes ≡ s.bytes)
    extend_heap-Represents granted =
        let p : ℕ = s.heap_listp in
        let (at, rep) = extended_at-Represents granted in
        subst
          (λ r.
            (r.0 ≡ some (merged_at (end_of p bs) p (bs ++ used_block m ∷ [])))
            × Represents r.1 (grow m bs)
            × (r.1.heap_listp ≡ p)
            × (r.1.bytes ≡ s.bytes))
          (ap extended_at (omega (arith, h.brk)) ∙ sym (extend_heap-granted granted))
          (at, rep, refl, refl)
