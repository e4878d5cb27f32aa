-- ===== src/Malloc/Mm/Coalesce.antt =====
-- coalesce: the four cases, by which of the neighbours are free.
use computer_systems_project.Base.{
  ℕ, ◌+◌, ◌-◌, ◌*◌, ◌^◌, ◌<◌, ◌≡◌, refl, ap, ◌∙◌, false, not, Option, none, some, List, ◌∷◌, arith,
}
use computer_systems_project.LinkedList.{LinkedList}
use computer_systems_project.Run.{Outcome, done}
use computer_systems_project.Malloc.Blocks.{Heap, BoundaryTag, FreeBlockList, wsize}
use computer_systems_project.Malloc.Blocks.Tags.{tag_of, header, footer, outside}
use computer_systems_project.Malloc.FreeLists.{add_free_block, insert_block, take_block}
use computer_systems_project.Malloc.FreeLists.Entry.{insert_block-Entered}
use computer_systems_project.Malloc.Mm.{coalesce, coalesce_case}
use computer_systems_project.Malloc.Mm.Merge.{
  LeftIs, RightIs, start, total, both_taken, add_size-plain, take_both, remove_block-done,
  merge_into, with_free, IsMerged,
}

module _ (L : LinkedList) where
  module _ (bp n : ℕ) (s : Heap L.Handle) (b : FreeBlockList L.Handle)
      (rest : List (FreeBlockList L.Handle)) (here : s.tags bp ≡ tag_of false n)
      (behind : s.tags ((bp + wsize * n) - wsize) ≡ tag_of false n) (some_words : 0 < n) where
    abbrev taken : Heap L.Handle
    taken = record s { free_blocks = b ∷ rest }

    abbrev Merges : Option ℕ → Option ℕ → Type 0
    Merges left right =
        (t : Heap L.Handle) × (coalesce L bp s ≡ done (start bp left) t)
        × IsMerged L (start bp left) (total n left right) (b ∷ rest) s t

    merged :
        (p k : ℕ)
        → 0 < k
        → k < 2 ^ 31
        → IsMerged L p k (b ∷ rest) s (with_free L taken b rest refl p k)
    merged p k pos low = record {
      header_tag = header p k false taken pos low;
      footer_tag = footer p k false taken pos low;
      others = outside p k false taken pos low;
      lists = insert_block-Entered L p k (b ∷ rest);
    }

    -- coalesce with the tags that it reads on the left, on the right and of the previous block.
    abbrev by_tags : BoundaryTag → BoundaryTag → BoundaryTag → Outcome (Heap L.Handle) ℕ
    by_tags f g h =
        coalesce_case L f.inuse (not (not g.inuse)) bp (bp - wsize * f.size) (bp + wsize * n) n
          h.size g.size s

    reads :
        coalesce L bp s
        ≡ by_tags
            (s.tags (bp - wsize))
            (s.tags (bp + wsize * n))
            (s.tags (bp - wsize * (s.tags (bp - wsize)).size))
    unfolding coalesce
    reads =
        ap
          (λ (t : BoundaryTag).
            coalesce_case L (s.tags (bp - wsize)).inuse
              (not (not (s.tags (bp + wsize * t.size)).inuse)) bp
              (bp - wsize * (s.tags (bp - wsize)).size) (bp + wsize * t.size) t.size
              (s.tags (bp - wsize * (s.tags (bp - wsize)).size)).size
              (s.tags (bp + wsize * t.size)).size s)
          here

    alone :
        LeftIs s.tags bp none
        → RightIs s.tags bp n none
        → s.free_blocks ≡ b ∷ rest
        → Merges none none
    unfolding coalesce_case add_free_block
    alone l r same = (
      record s { free_blocks = insert_block L bp n (b ∷ rest) },
      reads
          ∙ rw (l, r, same)
              (ap
                (λ (t : BoundaryTag).
                  done bp (record s { free_blocks = insert_block L bp t.size (b ∷ rest) }))
                here),
      record {
        header_tag = here;
        footer_tag = behind;
        others = λ q h. refl;
        lists = insert_block-Entered L bp n (b ∷ rest);
      },
    )

    with_right :
        (m : ℕ)
        → LeftIs s.tags bp none
        → RightIs s.tags bp n (some m)
        → take_block L (bp + wsize * n) s.free_blocks ≡ some (b ∷ rest)
        → n + m < 2 ^ 31
        → Merges none (some m)
    unfolding coalesce_case
    with_right m l r took low = (
      with_free L taken b rest refl bp (n + m),
      reads
          ∙ rw
              (
                l,
                r,
                remove_block-done L (bp + wsize * n) s (b ∷ rest) took,
                add_size-plain n m (omega (arith, low)),
                merge_into L taken b rest refl bp (n + m) (omega arith) low,
              )
              refl,
      merged bp (n + m) (omega arith) low,
    )

    with_left :
        (k : ℕ)
        → LeftIs s.tags bp (some k)
        → RightIs s.tags bp n none
        → take_block L (bp - wsize * k) s.free_blocks ≡ some (b ∷ rest)
        → n + k < 2 ^ 31
        → Merges (some k) none
    unfolding coalesce_case
    with_left k l r took low = (
      with_free L taken b rest refl (bp - wsize * k) (n + k),
      reads
          ∙ rw
              (
                l.0,
                l.1,
                r,
                remove_block-done L (bp - wsize * k) s (b ∷ rest) took,
                add_size-plain n k (omega (arith, low)),
                merge_into L taken b rest refl (bp - wsize * k) (n + k) (omega arith) low,
              )
              refl,
      merged (bp - wsize * k) (n + k) (omega arith) low,
    )

    with_both :
        (k m : ℕ) (bs : List (FreeBlockList L.Handle))
        → LeftIs s.tags bp (some k)
        → RightIs s.tags bp n (some m)
        → take_block L (bp - wsize * k) s.free_blocks ≡ some bs
        → take_block L (bp + wsize * n) bs ≡ some (b ∷ rest)
        → n + k + m < 2 ^ 31
        → Merges (some k) (some m)
    unfolding coalesce_case
    with_both k m bs l r took took' low = (
      with_free L taken b rest refl (bp - wsize * k) (n + k + m),
      reads
          ∙ rw
              (
                l.0,
                l.1,
                r,
                remove_block-done L (bp - wsize * k) s bs took,
                remove_block-done L (bp + wsize * n) (record s { free_blocks = bs }) (b ∷ rest)
                    took',
                add_size-plain n k (omega (arith, low)),
                add_size-plain (n + k) m (omega (arith, low)),
                merge_into L taken b rest refl (bp - wsize * k) (n + k + m) (omega arith) low,
              )
              refl,
      merged (bp - wsize * k) (n + k + m) (omega arith) low,
    )

    -- coalesce of a free block, where its free neighbours are in the free lists and the block that
    -- they form together has less than 2^31 words, returns that block: both of its tags have the sum
    -- of the sizes, no tag outside it changes, and the lists, from which the neighbours have been
    -- taken, have it at the end of the first one for blocks of at most its size, or nowhere if each
    -- of them is for larger blocks.
    pub coalesce-Merges :
        (left right : Option ℕ)
        → LeftIs s.tags bp left
        → RightIs s.tags bp n right
        → take_both L bp n left right s.free_blocks ≡ some (b ∷ rest)
        → total n left right < 2 ^ 31
        → Merges left right
    coalesce-Merges none none l r took low = alone l r (ground arith)
    coalesce-Merges none (some m) l r took low = with_right m l r took low
    coalesce-Merges (some k) none l r took low =
        let (bs, first, second) =
          both_taken (take_block L (bp - wsize * k) s.free_blocks) (λ bs. some bs) (b ∷ rest)
            took in
        with_left k l r (first ∙ second) low
    coalesce-Merges (some k) (some m) l r took low =
        let (bs, first, second) =
          both_taken (take_block L (bp - wsize * k) s.free_blocks)
            (λ bs. take_block L (bp + wsize * n) bs) (b ∷ rest) took in
        with_both k m bs l r first second low
