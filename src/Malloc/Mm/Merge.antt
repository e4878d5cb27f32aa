-- ===== src/Malloc/Mm/Merge.antt =====
-- What coalesce makes of a block and its free neighbours, and the steps that it has in common.
use computer_systems_project.Base.{
  ℕ, ◌+◌, ◌-◌, ◌*◌, ◌^◌, ◌≤◌, ◌<◌, ◌≡◌, refl, ap, ◌⊎◌, true, false, Option, none, some, List, ◌∷◌,
  arith, update,
}
use computer_systems_project.LinkedList.{LinkedList}
use computer_systems_project.Run.{done, and_then}
use computer_systems_project.Malloc.Blocks.{
  Heap, BoundaryTag, FreeBlockList, wsize, add_size, mark_block_free,
}
use computer_systems_project.Malloc.Blocks.Tags.{tag_of, set_header_and_footer-tags, header}
use computer_systems_project.Malloc.FreeLists.{
  add_free_block, insert_block, take_block, remove_block,
}
use computer_systems_project.Malloc.FreeLists.Entry.{Entered}

-- The blocks beside a block at `bp` of `n` words: the size of a free neighbour, `none` for one in use.
abbrev pub LeftIs : (ℕ → BoundaryTag) → ℕ → Option ℕ → Type 0
LeftIs tags bp none = (tags (bp - wsize)).inuse ≡ true
LeftIs tags bp (some k) =
    (tags (bp - wsize) ≡ tag_of false k) × (tags (bp - wsize * k) ≡ tag_of false k)

abbrev pub RightIs : (ℕ → BoundaryTag) → ℕ → ℕ → Option ℕ → Type 0
RightIs tags bp n none = (tags (bp + wsize * n)).inuse ≡ true
RightIs tags bp n (some m) = tags (bp + wsize * n) ≡ tag_of false m

-- Where the merged block starts, and its size.
abbrev pub start : ℕ → Option ℕ → ℕ
start bp none = bp
start bp (some k) = bp - wsize * k

abbrev pub total : ℕ → Option ℕ → Option ℕ → ℕ
total n none none = n
total n none (some m) = n + m
total n (some k) none = n + k
total n (some k) (some m) = n + k + m

pub both_taken :
    {A : Type 0} (o : Option A) (f : A → Option A) (y : A)
    → (elim o [ none ↦ none | some x ↦ f x ]) ≡ some y
    → (x : A) × (o ≡ some x) × (f x ≡ some y)
both_taken none f y h = cc
both_taken (some x) f y h = (x, refl, h)

pub add_size-plain : (x y : ℕ) → x + y < 2 ^ 64 → add_size x y ≡ x + y
add_size-plain x y low = omega (arith, low)

module _ (L : LinkedList) where
  -- The free lists without the neighbours that are free.
  abbrev pub take_free :
      ℕ → Option ℕ → List (FreeBlockList L.Handle) → Option (List (FreeBlockList L.Handle))
  take_free blk none bs = some bs
  take_free blk (some k) bs = take_block L blk bs

  abbrev pub take_both :
      ℕ
      → ℕ
      → Option ℕ
      → Option ℕ
      → List (FreeBlockList L.Handle)
      → Option (List (FreeBlockList L.Handle))
  take_both bp n left right bs = elim (take_free (start bp left) left bs) [
    | none ↦ none
    | some bs' ↦ take_free (bp + wsize * n) right bs'
  ]

  pub remove_block-done :
      (blk : ℕ) (s : Heap L.Handle) (bs : List (FreeBlockList L.Handle))
      → take_block L blk s.free_blocks ≡ some bs
      → remove_block L blk s ≡ done tt (record s { free_blocks = bs })
  unfolding remove_block
  remove_block-done blk s bs e = rw (e, remove_block) refl

  module _ (u : Heap L.Handle) (b : FreeBlockList L.Handle) (rest : List (FreeBlockList L.Handle))
      (lists : u.free_blocks ≡ b ∷ rest) where
    -- `u` with a free block of `k` words at `p`, which is in the list for its size.
    abbrev pub with_free : ℕ → ℕ → Heap L.Handle
    with_free p k = record u {
      tags = update (update u.tags p (tag_of false k)) ((p + wsize * k) - wsize) (tag_of false k);
      free_blocks = insert_block L p k (b ∷ rest);
    }

    pub merge_into :
        (p k : ℕ)
        → 0 < k
        → k < 2 ^ 31
        → and_then (mark_block_free p k u) (λ _. add_free_block L p) ≡ done tt (with_free p k)
    unfolding add_free_block
    merge_into p k pos low =
        rw (set_header_and_footer-tags p k false u pos low, lists)
          (ap
            (λ (t : BoundaryTag). done tt (record u {
              tags =
                  update (update u.tags p (tag_of false k)) ((p + wsize * k) - wsize)
                    (tag_of false k);
              free_blocks = insert_block L p t.size (b ∷ rest);
            }))
            (header p k false u pos low))

  -- `t` is `s` with one free block of `k` words at `p`, entered into the lists `bs`.
  pub record IsMerged (p k : ℕ) (bs : List (FreeBlockList L.Handle)) (s t : Heap L.Handle)
      : Type 0 where
    pub header_tag : t.tags p ≡ tag_of false k
    pub footer_tag : t.tags ((p + wsize * k) - wsize) ≡ tag_of false k
    pub others : (q : ℕ) → (q < p) ⊎ (p + wsize * k ≤ q) → t.tags q ≡ s.tags q
    pub lists : Entered L p k bs t.free_blocks
