-- ===== src/Malloc/Mm/Free.antt =====
-- mm_free of a block that is in use.
use computer_systems_project.Base.{
  ℕ, ◌+◌, ◌-◌, ◌*◌, ◌^◌, ◌≤◌, ◌<◌, ◌≡◌, refl, ap, ◌∙◌, inl, inr, ◌⊎◌, true, false, Option, none,
  some, List, ◌∷◌, arith,
}
use computer_systems_project.LinkedList.{LinkedList}
use computer_systems_project.Run.{done, and_then, pure, ◌>>◌}
use computer_systems_project.Malloc.Blocks.{
  Heap, BoundaryTag, FreeBlockList, wsize, mark_block_free,
}
use computer_systems_project.Malloc.Blocks.Tags.{
  tag_of, both_tags, set_header_and_footer-tags, header, footer, outside,
}
use computer_systems_project.Malloc.Mm.{coalesce, mm_free}
use computer_systems_project.Malloc.Mm.Merge.{LeftIs, RightIs, start, total, take_both, IsMerged}
use computer_systems_project.Malloc.Mm.Coalesce.{coalesce-Merges}

-- A free block on the left has room before `bp`.
abbrev pub Reaches : ℕ → Option ℕ → Type 0
Reaches bp none = Unit
Reaches bp (some k) = (0 < k) × (wsize * k ≤ bp)

module _ (L : LinkedList) (bp n : ℕ) (s : Heap L.Handle) (some_words : 0 < n)
    (low : n < 2 ^ 31) where
  abbrev freed : Heap L.Handle
  freed = record s { tags = both_tags bp n false s some_words low }

  before : (q : ℕ) → q < bp → freed.tags q ≡ s.tags q
  before q h = outside bp n false s some_words low q (inl h)

  left_still :
      (left : Option ℕ)
      → wsize ≤ bp
      → Reaches bp left
      → LeftIs s.tags bp left
      → LeftIs freed.tags bp left
  left_still none room reach l =
      ap (λ (t : BoundaryTag). t.inuse) (before (bp - wsize) (omega arith)) ∙ l
  left_still (some k) room reach l = (
    before (bp - wsize) (omega arith) ∙ l.0,
    before (bp - wsize * k) (omega (arith, reach.0, reach.1)) ∙ l.1,
  )

  after : freed.tags (bp + wsize * n) ≡ s.tags (bp + wsize * n)
  after = outside bp n false s some_words low (bp + wsize * n) (inr (omega arith))

  right_still : (right : Option ℕ) → RightIs s.tags bp n right → RightIs freed.tags bp n right
  right_still none r = ap (λ (t : BoundaryTag). t.inuse) after ∙ r
  right_still (some m) r = after ∙ r

  -- What lies outside the merged block lies outside the freed one.
  outside_both :
      (left right : Option ℕ) (q : ℕ)
      → Reaches bp left
      → (q < start bp left) ⊎ (start bp left + wsize * total n left right ≤ q)
      → (q < bp) ⊎ (bp + wsize * n ≤ q)
  outside_both none none q reach h = h
  outside_both none (some m) q reach h = ground arith
  outside_both (some k) none q reach h = ground arith
  outside_both (some k) (some m) q reach h = ground arith

  header_at : (bp + wsize) - wsize ≡ bp
  header_at = omega arith

  mm_free-coalesce :
      (s.tags bp).size ≡ n
      → mm_free L (some (bp + wsize)) s ≡ and_then (coalesce L bp freed) (λ _. pure tt)
  unfolding mm_free
  mm_free-coalesce size =
      ap
        (λ blk. and_then (mark_block_free blk (s.tags blk).size s) (λ _. coalesce L blk >> pure tt))
        header_at
      ∙ rw (size, set_header_and_footer-tags bp n false s some_words low) refl

  -- mm_free of the payload of a block in use, where its free neighbours have correct tags and are
  -- in the free lists and the merged block has less than 2^31 words, returns, and merges the block
  -- with those neighbours: they become one free block, with the sum of their sizes in both tags,
  -- and no tag outside it changes. The lists, from which the neighbours have been taken, have it at
  -- the end of the first one for blocks of at most its size, or nowhere if each of them is for
  -- larger blocks.
  pub mm_free-IsMerged :
      (left right : Option ℕ) (b : FreeBlockList L.Handle) (rest : List (FreeBlockList L.Handle))
      → s.tags bp ≡ tag_of true n
      → wsize ≤ bp
      → Reaches bp left
      → LeftIs s.tags bp left
      → RightIs s.tags bp n right
      → take_both L bp n left right s.free_blocks ≡ some (b ∷ rest)
      → total n left right < 2 ^ 31
      → (t : Heap L.Handle) × (mm_free L (some (bp + wsize)) s ≡ done tt t)
        × IsMerged L (start bp left) (total n left right) (b ∷ rest) s t
  mm_free-IsMerged left right b rest used room reach l r took small =
      let (t, ran, m) =
        coalesce-Merges L bp n freed b rest (header bp n false s some_words low)
          (footer bp n false s some_words low) some_words left right (left_still left room reach l)
          (right_still right r) took small in
      (
        t,
        mm_free-coalesce (ap (λ (t : BoundaryTag). t.size) used) ∙ rw ran refl,
        record {
          header_tag = m.header_tag;
          footer_tag = m.footer_tag;
          others = λ q h.
              m.others q h
              ∙ outside bp n false s some_words low q (outside_both left right q reach h);
          lists = m.lists;
        },
      )
