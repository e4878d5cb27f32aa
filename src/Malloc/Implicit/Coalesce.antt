-- ===== src/Malloc/Implicit/Coalesce.antt =====
-- coalesce of mm-gback-implicit.c: a free block is merged with its neighbours.
use computer_systems_project.Base.{
  ℕ, ◌+◌, ◌-◌, ◌*◌, ◌^◌, ◌≤◌, ◌<◌, ◌≡◌, ◌∙◌, refl, sym, ap, subst, inl, Bool, true, false, not,
  List, [], ◌∷◌, arith, update, update_other,
}
use computer_systems_project.Malloc.Blocks.{BoundaryTag, fence, add_size}
use computer_systems_project.Malloc.Implicit.{
  TagMap, wsize, coalesce, coalesce_case, set_header_and_footer,
}
use computer_systems_project.Malloc.Implicit.Spec.{Laid, IsBlock, after, words, free_block, glue}
use computer_systems_project.Malloc.Implicit.Write.{
  tag_of, with_tags, with_tags-outside, Laid-with_tags, set_header_and_footer-with_tags,
}

-- What coalesce reads.
module _ (bp : ℕ) (t : TagMap) where
  abbrev with_read : BoundaryTag → BoundaryTag → BoundaryTag → BoundaryTag → ℕ × TagMap
  with_read footer b next prev =
      coalesce_case footer.inuse (not (not next.inuse)) bp (bp - wsize * footer.size) b.size
        next.size prev.size t

  coalesce-with_read :
      (footer b next : BoundaryTag)
      → t (bp - wsize) ≡ footer
      → t bp ≡ b
      → t (after bp b) ≡ next
      → coalesce bp t ≡ with_read footer b next (t (bp - wsize * footer.size))
  unfolding coalesce
  coalesce-with_read footer b next e f g =
      ap (λ c. with_read c (t bp) (t (after bp (t bp))) (t (bp - wsize * c.size))) e
      ∙ ap (λ c. with_read footer c (t (after bp c)) (t (bp - wsize * footer.size))) f
      ∙ ap (λ c. with_read footer b c (t (bp - wsize * footer.size))) g

-- The tags after a merge: the block at `p` is first in the sequence, and nothing below it changed.
abbrev pub Merges : ℕ → TagMap → List BoundaryTag → ℕ × TagMap → Type 0
Merges p t bs (q, u) = (q ≡ p) × Laid u p bs × ((a : ℕ) → a < p → u a ≡ t a)

-- A free block that is written over a sequence of that many words.
free_all :
    (p k n : ℕ) (t : TagMap) (bs : List BoundaryTag)
    → k ≡ n
    → IsBlock (free_block n)
    → n < 2 ^ 30
    → Laid t (p + wsize * n) bs
    → Merges p t (free_block n ∷ bs) (p, set_header_and_footer p k false t)
free_all p k n t bs e block low h =
    subst (λ u. Merges p t (free_block n ∷ bs) (p, u)) (sym written)
      (
        refl,
        Laid-with_tags t p n false bs block h,
        λ a l. with_tags-outside p n false t (omega (arith, block)) a (inl l),
      )
  where
    written : set_header_and_footer p k false t ≡ with_tags p n false t
    written =
        ap (λ k. set_header_and_footer p k false t) e
        ∙ set_header_and_footer-with_tags p n false t low

sum-IsBlock :
    (m n : ℕ) → IsBlock (free_block m) → IsBlock (free_block n) → IsBlock (free_block (m + n))
sum-IsBlock m n a b = omega (arith, a, b)

merged_by :
    {p : ℕ} {t : TagMap} {r r' : ℕ × TagMap} (bs : List BoundaryTag)
    → r ≡ r'
    → Merges p t bs r'
    → Merges p t bs r
merged_by {p} {t} bs e h = subst (Merges p t bs) (sym e) h

-- What coalesce reads behind a block in use.
right_read :
    (p n : ℕ) (t : TagMap) (next : BoundaryTag)
    → (t (p - wsize)).inuse ≡ true
    → t p ≡ free_block n
    → t (p + wsize * n) ≡ next
    → let prev = p - wsize * (t (p - wsize)).size in
      coalesce p t ≡ coalesce_case true (not (not next.inuse)) p prev n next.size (t prev).size t
right_read p n t next e f g =
    let prev = p - wsize * (t (p - wsize)).size in
    coalesce-with_read p t (t (p - wsize)) (free_block n) next refl f g
    ∙ ap (λ a. coalesce_case a (not (not next.inuse)) p prev n next.size (t prev).size t) e

right_case :
    (a : Bool) (k p n : ℕ) (t : TagMap) (bs : List BoundaryTag)
    → (t (p - wsize)).inuse ≡ true
    → Laid t p (free_block n ∷ tag_of a k ∷ bs)
    → words (free_block n ∷ tag_of a k ∷ bs) < 2 ^ 30
    → Merges p t (glue (free_block n) (tag_of a k ∷ bs)) (coalesce p t)
unfolding coalesce_case
right_case true k p n t bs e h low =
    merged_by (free_block n ∷ tag_of true k ∷ bs) (right_read p n t (tag_of true k) e h.1 h.3.1)
      (refl, h, λ a l. refl)
right_case false k p n t bs e h low =
    merged_by (free_block (n + k) ∷ bs) (right_read p n t (tag_of false k) e h.1 h.3.1) (
      free_all p (add_size n k) (n + k) t bs (omega (arith, low)) (sum-IsBlock n k h.0 h.3.0)
        (omega (arith, low)) (subst (λ r. Laid t r bs) (omega arith) h.3.3))

-- Behind a block in use.
pub coalesce_right :
    (p n : ℕ) (t : TagMap) (bs : List BoundaryTag)
    → (t (p - wsize)).inuse ≡ true
    → Laid t p (free_block n ∷ bs)
    → words (free_block n ∷ bs) < 2 ^ 30
    → Merges p t (glue (free_block n) bs) (coalesce p t)
unfolding coalesce_case
coalesce_right p n t [] e h low =
    merged_by (free_block n ∷ []) (right_read p n t fence e h.1 h.3) (refl, h, λ a l. refl)
coalesce_right p n t (c ∷ bs) e h low = right_case c.inuse c.size p n t bs e h low

back : (p m : ℕ) → (p + wsize * m) - wsize * m ≡ p
back p m = omega arith

-- What coalesce reads behind a free block of `m` words at `p`.
coalesce-left_read :
    (p m n : ℕ) (t : TagMap) (bs : List BoundaryTag) (next : BoundaryTag)
    → Laid t p (free_block m ∷ free_block n ∷ bs)
    → t ((p + wsize * m) + wsize * n) ≡ next
    → coalesce (p + wsize * m) t
      ≡ coalesce_case false (not (not next.inuse)) (p + wsize * m) p n next.size m t
coalesce-left_read p m n t bs next h e =
    let bp = p + wsize * m in
    coalesce-with_read bp t (free_block m) (free_block n) next h.2 h.3.1 e
    ∙ ap (λ q. coalesce_case false (not (not next.inuse)) bp q n next.size (t q).size t) (back p m)
    ∙ ap (λ (c : BoundaryTag). coalesce_case false (not (not next.inuse)) bp p n next.size c.size t)
        h.1

-- Only the block itself is merged with the free block before it.
left_alone :
    (p m n : ℕ) (t : TagMap) (bs : List BoundaryTag)
    → Laid t p (free_block m ∷ free_block n ∷ bs)
    → words (free_block m ∷ free_block n ∷ bs) < 2 ^ 30
    → Merges p t (free_block (m + n) ∷ bs) (p, set_header_and_footer p (add_size n m) false t)
left_alone p m n t bs h low =
    free_all p (add_size n m) (m + n) t bs (omega (arith, low)) (sum-IsBlock m n h.0 h.3.0)
      (omega (arith, low)) (subst (λ r. Laid t r bs) (omega arith) h.3.3)

-- The footer of the previous block is inside the merged block.
inner :
    (p m n : ℕ) (t : TagMap)
    → 4 ≤ m
    → 0 < n
    → with_tags p (m + n) false t ((p + wsize * m) - wsize) ≡ t ((p + wsize * m) - wsize)
inner p m n t some_words more =
    update_other (update t p (tag_of false (m + n))) ((p + wsize * (m + n)) - wsize)
      (tag_of false (m + n)) ((p + wsize * m) - wsize) (omega (arith, some_words, more))
    ∙ update_other t p (tag_of false (m + n)) ((p + wsize * m) - wsize) (omega (arith, some_words))

-- Both neighbours are merged with it.
left_both :
    (p m n k : ℕ) (t : TagMap) (bs : List BoundaryTag)
    → Laid t p (free_block m ∷ free_block n ∷ free_block k ∷ bs)
    → words (free_block m ∷ free_block n ∷ free_block k ∷ bs) < 2 ^ 30
    → Merges p t
        (free_block (m + (n + k)) ∷ bs)
        (coalesce_case false false (p + wsize * m) p n k m t)
unfolding coalesce_case
left_both p m n k t bs h low =
    let size : ℕ = m + (n + k) in
    let bp : ℕ = p + wsize * m in
    let written = set_header_and_footer-with_tags p size false t (omega (arith, low)) in
    let (_, laid, below) =
      free_all p (add_size (add_size n k) m) size t bs (omega (arith, low))
        (sum-IsBlock m (n + k) h.0 (sum-IsBlock n k h.3.0 h.3.3.0)) (omega (arith, low))
        (subst (λ r. Laid t r bs) (omega arith) h.3.3.3) in
    (
      ap (λ c. bp - wsize * (set_header_and_footer p c false t (bp - wsize)).size)
            (omega (arith, low))
          ∙ ap (λ (u : TagMap). bp - wsize * (u (bp - wsize)).size) written
          ∙ ap (λ (c : BoundaryTag). bp - wsize * c.size)
              (inner p m (n + k) t (h.0).0 (omega (arith, h.3.0)))
          ∙ ap (λ (c : BoundaryTag). bp - wsize * c.size) h.2
          ∙ back p m,
      laid,
      below,
    )

left_case :
    (a : Bool) (k p m n : ℕ) (t : TagMap) (bs : List BoundaryTag)
    → Laid t p (free_block m ∷ free_block n ∷ tag_of a k ∷ bs)
    → words (free_block m ∷ free_block n ∷ tag_of a k ∷ bs) < 2 ^ 30
    → Merges p t
        (glue (free_block m) (glue (free_block n) (tag_of a k ∷ bs)))
        (coalesce (p + wsize * m) t)
unfolding coalesce_case
left_case true k p m n t bs h low =
    merged_by (free_block (m + n) ∷ tag_of true k ∷ bs)
      (coalesce-left_read p m n t (tag_of true k ∷ bs) (tag_of true k) h h.3.3.1)
      (left_alone p m n t (tag_of true k ∷ bs) h low)
left_case false k p m n t bs h low =
    merged_by (free_block (m + (n + k)) ∷ bs)
      (coalesce-left_read p m n t (tag_of false k ∷ bs) (tag_of false k) h h.3.3.1)
      (left_both p m n k t bs h low)

-- Behind a free block.
pub coalesce_left :
    (p m n : ℕ) (t : TagMap) (bs : List BoundaryTag)
    → Laid t p (free_block m ∷ free_block n ∷ bs)
    → words (free_block m ∷ free_block n ∷ bs) < 2 ^ 30
    → Merges p t (glue (free_block m) (glue (free_block n) bs)) (coalesce (p + wsize * m) t)
unfolding coalesce_case
coalesce_left p m n t [] h low =
    merged_by (free_block (m + n) ∷ []) (coalesce-left_read p m n t [] fence h h.3.3)
      (left_alone p m n t [] h low)
coalesce_left p m n t (c ∷ bs) h low = left_case c.inuse c.size p m n t bs h low
