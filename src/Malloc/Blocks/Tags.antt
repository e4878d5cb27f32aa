-- ===== src/Malloc/Blocks/Tags.antt =====
-- The tags of a block after set_header_and_footer, and the size of a block for a request.
use computer_systems_project.Base.{
  ℕ, ◌+◌, ◌-◌, ◌*◌, ◌%◌, ◌^◌, ◌≤◌, ◌<◌, ◌≡◌, ◌∙◌, ap, ◌⊎◌, Bool, arith, update, update_same,
  update_other,
}
use computer_systems_project.Malloc.Blocks.{
  Heap, BoundaryTag, set_header_and_footer, to_int, to_field, wsize, align, max, block_bytes,
  block_words,
}

-- A block size that fits an int reaches the size field unchanged.
pub field_lem : (n : ℕ) → n < 2 ^ 31 → to_field (to_int n) ≡ n
unfolding to_field to_int
field_lem n low = ground arith

abbrev pub tag_of : Bool → ℕ → BoundaryTag
tag_of inuse n = record { inuse = inuse; size = n }

module _ {H : Type 0} (blk n : ℕ) (inuse : Bool) (s : Heap H) (some_words : 0 < n)
    (low : n < 2 ^ 31) where
  abbrev pub both_tags : ℕ → BoundaryTag
  both_tags =
      update (update s.tags blk (tag_of inuse n)) ((blk + wsize * n) - wsize) (tag_of inuse n)

  pub set_header_and_footer-tags :
      set_header_and_footer blk n inuse s ≡ record s { tags = both_tags }
  unfolding set_header_and_footer
  set_header_and_footer-tags = rw (field_lem n low) (
      ap
        (λ (k : ℕ). record s {
          tags =
              update (update s.tags blk (tag_of inuse n)) ((blk + wsize * k) - wsize)
                (tag_of inuse n);
        })
        (ap (λ (t : BoundaryTag). t.size) (update_same s.tags blk (tag_of inuse n))))

  pub header : both_tags blk ≡ tag_of inuse n
  header = ground arith

  pub footer : both_tags ((blk + wsize * n) - wsize) ≡ tag_of inuse n
  footer =
      update_same (update s.tags blk (tag_of inuse n)) ((blk + wsize * n) - wsize) (tag_of inuse n)

  -- No tag outside the block changes.
  pub outside : (q : ℕ) → (q < blk) ⊎ (blk + wsize * n ≤ q) → both_tags q ≡ s.tags q
  outside q h =
      update_other (update s.tags blk (tag_of inuse n)) ((blk + wsize * n) - wsize) (tag_of inuse n)
        q (omega (arith, h))
      ∙ update_other s.tags blk (tag_of inuse n) q (omega (arith, h))

-- For a request that does not overflow, the block has an even number of words, at least 8, and room
-- for the payload and both tags, with less than 16 bytes to spare unless it is the least block.
pub block_words-bounds :
    (size : ℕ)
    → size + 31 < 2 ^ 64
    → (block_words size % 2 ≡ 0)
      × (8 ≤ block_words size)
      × (size + 16 ≤ 8 * block_words size)
      × ((block_words size ≡ 8) ⊎ (8 * block_words size < size + 32))
unfolding block_words block_bytes max align
block_words-bounds size low = ground arith
