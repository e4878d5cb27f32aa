-- ===== src/Malloc/FreeLists/Entry.antt =====
-- Which list add_free_block enters a block into.
use computer_systems_project.Base.{
  ℕ, ◌≤◌, ◌<◌, ◌≡◌, refl, ap, inl, inr, ◌⊎◌, List, [], ◌∷◌, ◌++◌, arith, All, leb, Bool-cases,
}
use computer_systems_project.LinkedList.{LinkedList}
use computer_systems_project.Malloc.Blocks.{FreeBlockList}
use computer_systems_project.Malloc.FreeLists.{insert_block}

module _ (L : LinkedList) (p k : ℕ) where
  -- Lists for blocks of more than `k` words.
  abbrev pub Larger : List (FreeBlockList L.Handle) → Type 0
  Larger bs = All (λ b. k < b.list_size) bs

  -- The block `p` of `k` words is at the end of the first list for blocks of at most `k` words,
  -- and every other list is as it was.
  abbrev pub AtEndOfFirst : List (FreeBlockList L.Handle) → List (FreeBlockList L.Handle) → Type 0
  AtEndOfFirst old new =
      (before : List (FreeBlockList L.Handle)) × (after : List (FreeBlockList L.Handle))
      × (b : FreeBlockList L.Handle) × (old ≡ before ++ b ∷ after)
      × Larger before
      × (b.list_size ≤ k)
      × (new ≡ before ++ record b { blocks = L.push_back b.blocks p } ∷ after)

  -- Where every list is for larger blocks, the block is in none of them.
  abbrev pub Entered : List (FreeBlockList L.Handle) → List (FreeBlockList L.Handle) → Type 0
  Entered old new = AtEndOfFirst old new ⊎ (Larger old × (new ≡ old))

  behind :
      (b : FreeBlockList L.Handle) (old new : List (FreeBlockList L.Handle))
      → k < b.list_size
      → Entered old new
      → Entered (b ∷ old) (b ∷ new)
  behind b old new more (inl (before, after, c, split, larger, small, now)) =
      inl (b ∷ before, after, c, ap (λ l. b ∷ l) split, (more, larger), small, ap (λ l. b ∷ l) now)
  behind b old new more (inr (larger, same)) = inr ((more, larger), ap (λ l. b ∷ l) same)

  pub insert_block-Entered :
      (bs : List (FreeBlockList L.Handle)) → Entered bs (insert_block L p k bs)
  unfolding insert_block
  insert_block-Entered [] = inr (tt, refl)
  insert_block-Entered (b ∷ bs) = elim (Bool-cases (leb b.list_size k)) [
    | inl e ↦ rw e (inl ([], bs, b, refl, tt, ground arith, refl))
    | inr e ↦ rw e (behind b bs (insert_block L p k bs) (ground arith) (insert_block-Entered bs))
  ]
