-- ===== src/Malloc/Implicit/Refinement.antt =====
-- mm_init, mm_malloc and mm_free of mm-gback-implicit.c against the operations on the sequence.
use computer_systems_project.Base.{
  ℕ, ◌+◌, ◌-◌, ◌*◌, ◌^◌, ◌≤◌, ◌<◌, ◌≡◌, ◌≢◌, ◌∙◌, refl, sym, ap, subst, inl, inr, Bool, true, false,
  Option, none, some, List, [], ◌∷◌, ◌++◌, arith, ltb, Bool-cases, Option-cases, ==_false_of_ne,
}
use computer_systems_project.Malloc.Blocks.{BoundaryTag, max}
use computer_systems_project.Malloc.Implicit.{
  ImplicitHeap, wsize, chunksize, awords, place_at, extend_heap, allocate, search_heap, mm_malloc,
  mm_free,
}
use computer_systems_project.Malloc.Implicit.Spec.{
  IsBlock, Represents, after, free_block, used_block, in_use, grow, carve, first_fit, made_room,
  payload_of, malloc_blocks, free_blocks, merged_at,
}
use computer_systems_project.Malloc.Implicit.Freed.{freed}
use computer_systems_project.Malloc.Implicit.Extend.{
  Laid-All, end_of, first_fit-grow, no_fit, no_fit_behind,
}
use computer_systems_project.Malloc.Implicit.Requests.{
  awords-bounds, bsize-size, search-first_fit, place-Represents, free-Represents,
  extend_heap-Represents, extend_heap-refused,
}

-- What a request returned and left.
abbrev pub Answers : ImplicitHeap → Option ℕ × List BoundaryTag → Option ℕ × ImplicitHeap → Type 0
Answers s spec r =
    (r.0 ≡ spec.0) × Represents r.1 spec.1 × (r.1.heap_listp ≡ s.heap_listp) × (r.1.bytes ≡ s.bytes)

carve_no_fit : (n p : ℕ) (bs : List BoundaryTag) → first_fit n p bs ≡ none → carve n bs ≡ bs
carve_no_fit n p [] e = refl
carve_no_fit n p (b ∷ bs) e =
    rw (no_fit n p b bs e)
      (ap (λ cs. b ∷ cs) (carve_no_fit n (after p b) bs (no_fit_behind n p b bs e)))

-- Whether mem_sbrk refuses to extend the heap for a block of `n` words.
abbrev pub refuses : ℕ → ImplicitHeap → Bool
refuses n s = ltb s.mem.mem_max_addr (s.mem.mem_brk + max n chunksize * wsize)

pub grown-IsBlock :
    (n : ℕ)
    → IsBlock (used_block n)
    → wsize * n < 2 ^ 31
    → IsBlock (free_block (max n chunksize))
      × (max n chunksize * wsize < 2 ^ 31)
      × (n ≤ max n chunksize)
unfolding max
grown-IsBlock n block low = ground arith

module _ (n p : ℕ) (bs : List BoundaryTag) where
  abbrev in_room : List BoundaryTag → Option ℕ × List BoundaryTag
  in_room room = (payload_of (first_fit n p room), carve n room)

  spec_found :
      (q : ℕ) (refused : Bool)
      → first_fit n p bs ≡ some q
      → malloc_blocks n refused p bs ≡ (some (q + wsize), carve n bs)
  spec_found q refused e =
      ap (λ f. in_room (made_room f refused n bs)) e ∙ ap (λ f. (payload_of f, carve n bs)) e

  spec_refused :
      (refused : Bool)
      → first_fit n p bs ≡ none
      → refused ≡ true
      → malloc_blocks n refused p bs ≡ (none, bs)
  spec_refused refused e f =
      ap (λ g. in_room (made_room g refused n bs)) e
      ∙ ap (λ g. in_room (made_room none g n bs)) f
      ∙ ap (λ g. (payload_of g, carve n bs)) e
      ∙ ap (λ cs. (none, cs)) (carve_no_fit n p bs e)

  spec_grown :
      (q : ℕ) (refused : Bool)
      → first_fit n p bs ≡ none
      → refused ≡ false
      → first_fit n p (grow (max n chunksize) bs) ≡ some q
      → malloc_blocks n refused p bs ≡ (some (q + wsize), carve n (grow (max n chunksize) bs))
  spec_grown q refused e f g =
      ap (λ g. in_room (made_room g refused n bs)) e
      ∙ ap (λ g. in_room (made_room none g n bs)) f
      ∙ ap (λ g. (payload_of g, carve n (grow (max n chunksize) bs))) g

module _ (n : ℕ) (s : ImplicitHeap) (bs : List BoundaryTag) (h : Represents s bs)
    (block : IsBlock (used_block n)) (low : wsize * n < 2 ^ 31) where
  abbrev spec_of : Option ℕ × List BoundaryTag
  spec_of = malloc_blocks n (refuses n s) s.heap_listp bs

  placed_found :
      (q : ℕ) → first_fit n s.heap_listp bs ≡ some q → Answers s spec_of (allocate n (some q) s)
  unfolding allocate place_at
  placed_found q e =
      subst (λ spec. Answers s spec (allocate n (some q) s))
        (sym (spec_found n s.heap_listp bs q (refuses n s) e))
        (refl, place-Represents s bs h n q e block, refl, refl)

  -- After an extension, the block is placed at the end.
  place_extended :
      (q : ℕ) (r : Option ℕ × ImplicitHeap) (cs : List BoundaryTag)
      → r.0 ≡ some q
      → Represents r.1 cs
      → r.1.heap_listp ≡ s.heap_listp
      → r.1.bytes ≡ s.bytes
      → first_fit n s.heap_listp cs ≡ some q
      → Answers s (some (q + wsize), carve n cs) (place_at n r)
  unfolding place_at
  place_extended q (none, s') cs e rep same bytes fit = cc
  place_extended q (some q', s') cs e rep same bytes fit =
      let e' = some_eq q' q e in
      (
        ap (λ a. some (a + wsize)) e',
        place-Represents s' cs rep n q' (ap (λ p. first_fit n p cs) same ∙ fit ∙ ap some (sym e'))
            block,
        same,
        bytes,
      )
    where
      some_eq : (x y : ℕ) → some x ≡ some y → x ≡ y
      some_eq x y e = cc

  placed_last : first_fit n s.heap_listp bs ≡ none → Answers s spec_of (allocate n none s)
  unfolding allocate place_at
  placed_last e =
      let p : ℕ = s.heap_listp in
      let m : ℕ = max n chunksize in
      let (new, small, le) = grown-IsBlock n block low in
      elim (Bool-cases (refuses n s)) [
        | inl f ↦
            subst (λ spec. Answers s spec (allocate n none s))
              (sym (spec_refused n p bs (refuses n s) e f))
              (subst (λ r. Answers s (none, bs) (place_at n r))
                (sym (extend_heap-refused s bs h m new small f)) (refl, h, refl, refl))
        | inr f ↦
            let q : ℕ = merged_at (end_of p bs) p (bs ++ used_block m ∷ []) in
            let fit = first_fit-grow p n m bs (Laid-All s.tags p bs h.laid) h.merged le e in
            let (at, rep, same, bytes) = extend_heap-Represents s bs h m new small f in
            subst (λ spec. Answers s spec (allocate n none s))
              (sym (spec_grown n p bs q (refuses n s) e f fit))
              (place_extended q (extend_heap m s) (grow m bs) at rep same bytes fit)
      ]

  allocated : Answers s spec_of (allocate n (first_fit n s.heap_listp bs) s)
  allocated = elim (Option-cases (first_fit n s.heap_listp bs)) [
    | inl e ↦ subst (λ f. Answers s spec_of (allocate n f s)) (sym e) (placed_last e)
    | inr (q, e) ↦ subst (λ f. Answers s spec_of (allocate n f s)) (sym e) (placed_found q e)
  ]

searched :
    (n : ℕ) (s : ImplicitHeap) (bs : List BoundaryTag)
    → Represents s bs
    → search_heap n s ≡ some (allocate n (first_fit n s.heap_listp bs) s)
unfolding search_heap
searched n s bs h =
    ap (λ (f : Option (Option ℕ)). elim f [ none ↦ none | some fit ↦ some (allocate n fit s) ])
      (search-first_fit s bs h n)

mm_malloc-allocate :
    (size : ℕ) (s : ImplicitHeap) (bs : List BoundaryTag)
    → Represents s bs
    → size ≢ 0
    → size + 23 < 2 ^ 64
    → mm_malloc size s ≡ some (allocate (awords size) (first_fit (awords size) s.heap_listp bs) s)
unfolding mm_malloc search_heap
mm_malloc-allocate size s bs h positive low =
    rw (==_false_of_ne size 0 positive, bsize-size size low) (searched (awords size) s bs h)

-- In a heap that represents a sequence of blocks, a request of less than 2 GB always returns. It
-- places the request in the first free block that is large enough, where need be after a block is
-- added at the end, unless mem_sbrk refuses that: what it returns, and the sequence that the new
-- heap represents, are those of the operation on the sequence. The first block stays where it is,
-- and no byte of a payload changes.
pub mm_malloc-malloc_blocks :
    (size : ℕ) (s : ImplicitHeap) (bs : List BoundaryTag)
    → size ≢ 0
    → size + 24 < 2 ^ 31
    → Represents s bs
    → (r : Option ℕ × ImplicitHeap) × (mm_malloc size s ≡ some r)
      × Answers s (malloc_blocks (awords size) (refuses (awords size) s) s.heap_listp bs) r
mm_malloc-malloc_blocks size s bs positive low h =
    let n : ℕ = awords size in
    let (block, _, most) = awords-bounds size (omega (arith, low)) in
    (
      allocate n (first_fit n s.heap_listp bs) s,
      mm_malloc-allocate size s bs h positive (omega (arith, low)),
      allocated n s bs h block (omega (arith, most, low)),
    )

-- Freeing the payload of a block in use marks that block as free and merges it with its free
-- neighbours; the rest of the sequence stays as it is, and so does every byte of a payload.
pub mm_free-free_blocks :
    (q : ℕ) (s : ImplicitHeap) (bs : List BoundaryTag)
    → in_use q s.heap_listp bs ≡ true
    → Represents s bs
    → Represents (mm_free (some (q + wsize)) s) (free_blocks q s.heap_listp bs)
      × ((mm_free (some (q + wsize)) s).heap_listp ≡ s.heap_listp)
      × ((mm_free (some (q + wsize)) s).bytes ≡ s.bytes)
unfolding mm_free
mm_free-free_blocks q s bs e h =
    let kept : q ≡ (q + wsize) - wsize = omega arith in
    (
      subst
          (λ a. Represents (record s { tags = (freed a s.tags).1 }) (free_blocks q s.heap_listp bs))
          kept (free-Represents s bs h q e),
      refl,
      refl,
    )
