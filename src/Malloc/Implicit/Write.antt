-- ===== src/Malloc/Implicit/Write.antt =====
-- What set_header_and_footer of mm-gback-implicit.c changes, and that writes elsewhere leave a
-- sequence of blocks as it is.
use computer_systems_project.Base.{
  ℕ, ◌+◌, ◌-◌, ◌*◌, ◌^◌, ◌≤◌, ◌<◌, ◌≡◌, ◌∙◌, ap, ◌⊎◌, inr, Bool, List, [], ◌∷◌, arith, update,
  update_same, update_other,
}
use computer_systems_project.Malloc.Blocks.{BoundaryTag}
use computer_systems_project.Malloc.Implicit.{TagMap, wsize, size_field, set_header_and_footer}
use computer_systems_project.Malloc.Implicit.Spec.{Laid, IsBlock, after}

-- A size that fits the field is stored unchanged.
pub size_field_lem : (n : ℕ) → n < 2 ^ 30 → size_field n ≡ n
unfolding size_field
size_field_lem n low = ground arith

abbrev pub tag_of : Bool → ℕ → BoundaryTag
tag_of inuse n = record { inuse = inuse; size = n }

abbrev pub with_tags : ℕ → ℕ → Bool → TagMap → TagMap
with_tags blk n inuse t =
    update (update t blk (tag_of inuse n)) ((blk + wsize * n) - wsize) (tag_of inuse n)

module _ (blk n : ℕ) (inuse : Bool) (t : TagMap) where
  pub set_header_and_footer-with_tags :
      n < 2 ^ 30 → set_header_and_footer blk n inuse t ≡ with_tags blk n inuse t
  unfolding set_header_and_footer
  set_header_and_footer-with_tags low = rw (size_field_lem n low) (
      ap
        (λ (k : ℕ).
          update (update t blk (tag_of inuse n)) ((blk + wsize * k) - wsize) (tag_of inuse n))
        (ap (λ (c : BoundaryTag). c.size) (update_same t blk (tag_of inuse n))))

  pub with_tags-header : 0 < n → with_tags blk n inuse t blk ≡ tag_of inuse n
  with_tags-header positive = ground arith

  pub with_tags-footer : with_tags blk n inuse t ((blk + wsize * n) - wsize) ≡ tag_of inuse n
  with_tags-footer =
      update_same (update t blk (tag_of inuse n)) ((blk + wsize * n) - wsize) (tag_of inuse n)

  pub with_tags-outside :
      0 < n → (q : ℕ) → (q < blk) ⊎ (blk + wsize * n ≤ q) → with_tags blk n inuse t q ≡ t q
  with_tags-outside positive q h =
      update_other (update t blk (tag_of inuse n)) ((blk + wsize * n) - wsize) (tag_of inuse n) q
        (omega (arith, h))
      ∙ update_other t blk (tag_of inuse n) q (omega (arith, h))

-- Tags that agree from `p` on describe the same blocks.
pub Laid-frame :
    (t u : TagMap) (p : ℕ) (bs : List BoundaryTag)
    → ((q : ℕ) → p ≤ q → u q ≡ t q)
    → Laid t p bs
    → Laid u p bs
Laid-frame t u p [] agree h = agree p (omega arith) ∙ h
Laid-frame t u p (b ∷ bs) agree h = (
  h.0,
  agree p (omega arith) ∙ h.1,
  agree (after p b - wsize) (omega (arith, h.0)) ∙ h.2,
  Laid-frame t u (after p b) bs (λ q le. agree q (omega (arith, le))) h.3,
)

-- A block that is written is laid out in front of the blocks behind it.
pub Laid-with_tags :
    (t : TagMap) (p n : ℕ) (inuse : Bool) (bs : List BoundaryTag)
    → IsBlock (tag_of inuse n)
    → Laid t (p + wsize * n) bs
    → Laid (with_tags p n inuse t) p (tag_of inuse n ∷ bs)
Laid-with_tags t p n inuse bs block h = (
  block,
  with_tags-header p n inuse t (omega (arith, block)),
  with_tags-footer p n inuse t,
  Laid-frame t (with_tags p n inuse t) (p + wsize * n) bs
      (λ q le. with_tags-outside p n inuse t (omega (arith, block)) q (inr le)) h,
)

-- A write below an address leaves the blocks from there on as they are.
pub Laid-with_tags_below :
    (t : TagMap) (p n r : ℕ) (inuse : Bool) (bs : List BoundaryTag)
    → 0 < n
    → p + wsize * n ≤ r
    → Laid t r bs
    → Laid (with_tags p n inuse t) r bs
Laid-with_tags_below t p n r inuse bs positive le =
    Laid-frame t (with_tags p n inuse t) r bs
      (λ q h. with_tags-outside p n inuse t positive q (inr (omega (arith, le, h))))
