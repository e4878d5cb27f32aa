-- ===== src/Malloc/Mm/Place.antt =====
-- place: a free block is taken for a request, and split where the rest is large enough.
use computer_systems_project.Base.{
  ℕ, ◌+◌, ◌-◌, ◌*◌, ◌^◌, ◌≤◌, ◌<◌, ◌≡◌, refl, ap, ◌∙◌, inl, inr, ◌⊎◌, Bool, true, false, some, List,
  ◌∷◌, arith, leb, Bool-cases,
}
use computer_systems_project.LinkedList.{LinkedList}
use computer_systems_project.Run.{done}
use computer_systems_project.Malloc.Blocks.{
  Heap, BoundaryTag, FreeBlockList, wsize, sub_size, min_block_size_words, set_header_and_footer,
}
use computer_systems_project.Malloc.Blocks.Tags.{
  tag_of, both_tags, set_header_and_footer-tags, header, footer, outside,
}
use computer_systems_project.Malloc.FreeLists.{add_free_block, take_block}
use computer_systems_project.Malloc.FreeLists.Entry.{Entered, insert_block-Entered}
use computer_systems_project.Malloc.Mm.{place, place_in}
use computer_systems_project.Malloc.Mm.Merge.{remove_block-done, merge_into, with_free}

sub_size-plain : (x y : ℕ) → y ≤ x → x < 2 ^ 31 → sub_size x y ≡ x - y
sub_size-plain x y le low = omega (arith, le, low)

-- `t` has a block of `k` words at `p`, with both tags.
abbrev pub HasBlock : (ℕ → BoundaryTag) → Bool → ℕ → ℕ → Type 0
HasBlock tags inuse p k =
    (tags p ≡ tag_of inuse k) × (tags ((p + wsize * k) - wsize) ≡ tag_of inuse k)

-- No tag outside the `k` words at `p` differs.
abbrev pub SameOutside : ℕ → ℕ → (ℕ → BoundaryTag) → (ℕ → BoundaryTag) → Type 0
SameOutside p k old new = (q : ℕ) → (q < p) ⊎ (p + wsize * k ≤ q) → new q ≡ old q

module _ (L : LinkedList) (bp asize csize : ℕ) (s : Heap L.Handle) (b : FreeBlockList L.Handle)
    (rest : List (FreeBlockList L.Handle)) (here : s.tags bp ≡ tag_of false csize)
    (took : take_block L bp s.free_blocks ≡ some (b ∷ rest)) (some_words : 0 < asize)
    (enough : asize ≤ csize) (low : csize < 2 ^ 31) where
  -- The request gets its words, and what is left becomes a free block behind them.
  abbrev pub IsSplit : Heap L.Handle → Type 0
  IsSplit t =
      HasBlock t.tags true bp asize
      × HasBlock t.tags false (bp + wsize * asize) (csize - asize)
      × Entered L (bp + wsize * asize) (csize - asize) (b ∷ rest) t.free_blocks

  -- The request gets the whole block.
  abbrev pub IsWhole : Heap L.Handle → Type 0
  IsWhole t = HasBlock t.tags true bp csize × (t.free_blocks ≡ b ∷ rest)

  place-in : place L bp asize s ≡ place_in L csize bp asize s
  unfolding place
  place-in = ap (λ (t : BoundaryTag). place_in L t.size bp asize s) here

  taken : (n : ℕ) → 0 < n → n < 2 ^ 31 → Heap L.Handle
  taken n pos small = record s { tags = both_tags bp n true s pos small; free_blocks = b ∷ rest }

  whole :
      csize - asize < 8
      → (t : Heap L.Handle) × (place L bp asize s ≡ done tt t)
        × SameOutside bp csize s.tags t.tags
        × IsWhole t
  unfolding place_in taken
  whole few =
      let e : leb min_block_size_words (sub_size csize asize) ≡ false =
        rw (sub_size-plain csize asize enough low) (ground arith) in
      let u = record s { tags = both_tags bp csize true s (omega arith) low } in
      (
        taken csize (omega arith) low,
        place-in
            ∙ rw
                (
                  e,
                  set_header_and_footer-tags bp csize true s (omega arith) low,
                  remove_block-done L bp u (b ∷ rest) took,
                )
                refl,
        outside bp csize true s (omega arith) low,
        (
          (header bp csize true s (omega arith) low, footer bp csize true s (omega arith) low),
          refl,
        ),
      )

  split :
      8 ≤ csize - asize
      → (t : Heap L.Handle) × (place L bp asize s ≡ done tt t)
        × SameOutside bp csize s.tags t.tags
        × IsSplit t
  unfolding place_in
  split many =
      let p = bp + wsize * asize in
      let r = csize - asize in
      let small : asize < 2 ^ 31 = omega (arith, low, enough) in
      let r_pos : 0 < r = omega (arith, many) in
      let r_low : r < 2 ^ 31 = omega (arith, low) in
      let size = sub_size-plain csize asize enough low in
      let e : leb min_block_size_words (sub_size csize asize) ≡ true = rw size (ground arith) in
      let v = record s { tags = both_tags bp asize true s some_words small } in
      let u = record v { free_blocks = b ∷ rest } in
      (
        with_free L u b rest refl p r,
        place-in
            ∙ rw
                (
                  e,
                  set_header_and_footer-tags bp asize true s some_words small,
                  remove_block-done L bp v (b ∷ rest) took,
                )
                (ap
                    (λ (t : BoundaryTag).
                      add_free_block L (bp + wsize * t.size) (
                        set_header_and_footer (bp + wsize * t.size) (sub_size csize asize) false u))
                    (header bp asize true s some_words small)
                  ∙ (ap (λ k. add_free_block L p (set_header_and_footer p k false u)) size
                      ∙ merge_into L u b rest refl p r r_pos r_low)),
        (λ q h.
            outside p r false u r_pos r_low q (omega (arith, h, enough))
            ∙ outside bp asize true s some_words small q (omega (arith, h, enough))),
        (
          (
            outside p r false u r_pos r_low bp (inl (omega arith))
                ∙ header bp asize true s some_words small,
            outside p r false u r_pos r_low ((bp + wsize * asize) - wsize) (inl (omega arith))
                ∙ footer bp asize true s some_words small,
          ),
          (header p r false u r_pos r_low, footer p r false u r_pos r_low),
          insert_block-Entered L p r (b ∷ rest),
        ),
      )

  -- place of a request for `asize` words in a free block of `csize` words, fewer than 2^31, that is
  -- in the free lists returns, and changes no tag outside the block. Where at least 8 words are
  -- left, the request gets a block of its size, and the rest becomes a block behind it, at the end
  -- of the first free list for blocks of at most its size, or in none if each of them is for larger
  -- blocks; otherwise the request gets the whole block.
  pub place-Placed :
      (t : Heap L.Handle) × (place L bp asize s ≡ done tt t)
      × SameOutside bp csize s.tags t.tags
      × (((8 ≤ csize - asize) × IsSplit t) ⊎ ((csize - asize < 8) × IsWhole t))
  place-Placed = elim (Bool-cases (leb 8 (csize - asize))) [
    | inl e ↦
        let many : 8 ≤ csize - asize = ground arith in
        let (t, ran, same, is) = split many in (t, ran, same, inl (many, is))
    | inr e ↦
        let few : csize - asize < 8 = ground arith in
        let (t, ran, same, is) = whole few in (t, ran, same, inr (few, is))
  ]
