-- ===== src/Malloc/Implicit/Extend.antt =====
-- extend_heap of mm-gback-implicit.c: the new block is merged with the last one if that is free.
use computer_systems_project.Base.{
  ℕ, ◌+◌, ◌-◌, ◌*◌, ◌%◌, ◌^◌, ◌≤◌, ◌<◌, ◌≡◌, ◌∙◌, refl, sym, ap, subst, fun_ext, inl, inr, Bool,
  true, false, not, ◌||◌, ◌&&◌, none, some, List, [], ◌∷◌, ◌++◌, arith, ◌==◌, if◌then◌else◌,
  Bool-cases, All, ==_false_of_ne, update, update_same, update_other,
}
use computer_systems_project.Malloc.Blocks.{BoundaryTag, fence}
use computer_systems_project.Malloc.Implicit.{
  TagMap, wsize, coalesce, mark_block_free, blk_size, next_blk,
}
use computer_systems_project.Malloc.Implicit.Spec.{
  Laid, IsBlock, Merged, after, words, free_block, used_block, collapse, mark_free, in_use,
  merged_at, grow, first_fit, fits,
}
use computer_systems_project.Malloc.Implicit.Write.{
  with_tags, with_tags-outside, with_tags-header, with_tags-footer, set_header_and_footer-with_tags,
}
use computer_systems_project.Malloc.Implicit.Place.{Laid-cons}
use computer_systems_project.Malloc.Implicit.Merged.{words-append}
use computer_systems_project.Malloc.Implicit.Freed.{
  Leaves, Behind, freed, glue_used, glue_before_used,
}
use computer_systems_project.Malloc.Implicit.Free.{freed-collapse, second_used}

-- The address behind the blocks.
abbrev pub end_of : ℕ → List BoundaryTag → ℕ
end_of p bs = p + wsize * words bs

-- A block of `n` words in use, and a fence behind it.
abbrev with_fence : ℕ → ℕ → TagMap → TagMap
with_fence e n t = update (with_tags e n true t) (e + wsize * n) fence

-- The tags that extend_heap hands to coalesce.
abbrev pub appended : ℕ → ℕ → TagMap → TagMap
appended e n t = let u = mark_block_free e n t in update u (next_blk u e) fence

module _ (e n : ℕ) (t : TagMap) (some_words : 4 ≤ n) where
  fence_below : (r : ℕ) → r < e → with_fence e n t r ≡ t r
  fence_below r l =
      update_other (with_tags e n true t) (e + wsize * n) fence r (omega (arith, l))
      ∙ with_tags-outside e n true t (omega (arith, some_words)) r (inl l)

  fence_header : with_fence e n t e ≡ used_block n
  fence_header =
      update_other (with_tags e n true t) (e + wsize * n) fence e (omega (arith, some_words))
      ∙ with_tags-header e n true t (omega (arith, some_words))

  new_block : n % 4 ≡ 0 → Laid (with_fence e n t) e (used_block n ∷ [])
  new_block units = (
    (some_words, units),
    fence_header,
    update_other (with_tags e n true t) (e + wsize * n) fence ((e + wsize * n) - wsize)
          (omega (arith, some_words))
        ∙ with_tags-footer e n true t,
    update_same (with_tags e n true t) (e + wsize * n) fence,
  )

  -- The code overwrites the old fence by the header first; to coalesce it makes no difference.
  same_tags :
      n < 2 ^ 30
      → appended e n t ≡ mark_block_free e (blk_size (with_fence e n t) e) (with_fence e n t)
  same_tags low =
      ap (λ u. update u (next_blk u e) fence) (set_header_and_footer-with_tags e n false t low)
      ∙ ap (λ (b : BoundaryTag). update (with_tags e n false t) (e + wsize * b.size) fence)
          (with_tags-header e n false t (omega (arith, some_words)))
      ∙ fun_ext (λ q. overwritten q)
      ∙ sym (set_header_and_footer-with_tags e n false (with_fence e n t) low)
      ∙ ap (λ (b : BoundaryTag). mark_block_free e b.size (with_fence e n t)) (sym fence_header)
    where
      overwritten :
          (q : ℕ)
          → update (with_tags e n false t) (e + wsize * n) fence q
            ≡ with_tags e n false (with_fence e n t) q
      overwritten q = ground arith

Laid-append :
    (t : TagMap) (p n : ℕ) (bs : List BoundaryTag)
    → Laid t p bs
    → IsBlock (used_block n)
    → Laid (with_fence (end_of p bs) n t) p (bs ++ used_block n ∷ [])
Laid-append t p n [] h block =
    subst (λ e. Laid (with_fence e n t) p (used_block n ∷ [])) (omega arith)
      (new_block p n t block.0 block.1)
Laid-append t p n (b ∷ bs) h block =
    let e : ℕ = end_of p (b ∷ bs) in
    Laid-cons t (with_fence e n t) p e b bs (bs ++ used_block n ∷ []) h (omega arith)
      (fence_below e n t block.0)
      (subst (λ r. Laid (with_fence r n t) (after p b) (bs ++ used_block n ∷ [])) (omega arith)
        (Laid-append t (after p b) n bs h.3 block))

-- The block at the end, marked as free.
in_use-append :
    (p n : ℕ) (bs : List BoundaryTag)
    → All IsBlock bs
    → in_use (end_of p bs) p (bs ++ used_block n ∷ []) ≡ true
in_use-append p n [] h = ground arith
in_use-append p n (b ∷ bs) h = rw (==_false_of_ne p (end_of p (b ∷ bs)) (omega (arith, h.0))) (
    subst (λ e. in_use e (after p b) (bs ++ used_block n ∷ []) ≡ true) (omega arith)
      (in_use-append (after p b) n bs h.1))

mark_free-append :
    (p n : ℕ) (bs : List BoundaryTag)
    → All IsBlock bs
    → mark_free (end_of p bs) p (bs ++ used_block n ∷ []) ≡ bs ++ free_block n ∷ []
mark_free-append p n [] h = ground arith
mark_free-append p n (b ∷ bs) h = rw (==_false_of_ne p (end_of p (b ∷ bs)) (omega (arith, h.0))) (
    ap (λ cs. b ∷ cs)
      (subst (λ e. mark_free e (after p b) (bs ++ used_block n ∷ []) ≡ bs ++ free_block n ∷ [])
        (omega arith) (mark_free-append (after p b) n bs h.1)))

Merged-append : (n : ℕ) (bs : List BoundaryTag) → Merged bs → Merged (bs ++ used_block n ∷ [])
Merged-append n [] h = (tt, tt)
Merged-append n (b ∷ []) h = (ground arith, (tt, tt))
Merged-append n (b ∷ c ∷ bs) h = (h.0, Merged-append n (c ∷ bs) h.1)

pub Laid-All : (t : TagMap) (p : ℕ) (bs : List BoundaryTag) → Laid t p bs → All IsBlock bs
Laid-All t p [] h = tt
Laid-All t p (b ∷ bs) h = (h.0, Laid-All t (after p b) bs h.3)

-- The first block is not large enough, or in use.
module _ (k p : ℕ) (b : BoundaryTag) (bs : List BoundaryTag) where
  pub no_fit : first_fit k p (b ∷ bs) ≡ none → fits k b ≡ false
  no_fit e = ground arith

  pub no_fit_behind : first_fit k p (b ∷ bs) ≡ none → first_fit k (after p b) bs ≡ none
  no_fit_behind e = ground arith

  skip : fits k b ≡ false → first_fit k p (b ∷ bs) ≡ first_fit k (after p b) bs
  skip f = rw f refl

same_end :
    (p : ℕ) (b : BoundaryTag) (bs : List BoundaryTag) → end_of p (b ∷ bs) ≡ end_of (after p b) bs
same_end p b bs = omega arith

-- The block at the end is not merged with a block in use before it.
module _ (p n : ℕ) (b : BoundaryTag) (bs : List BoundaryTag) (block : IsBlock b) where
  merged_at_used :
      b.inuse ≡ true
      → merged_at (end_of (after p b) bs) (after p b) (bs ++ used_block n ∷ [])
        ≡ merged_at (end_of p (b ∷ bs)) p (b ∷ bs ++ used_block n ∷ [])
  merged_at_used g =
      subst
        (λ e.
          merged_at e (after p b) (bs ++ used_block n ∷ [])
          ≡ merged_at (end_of p (b ∷ bs)) p (b ∷ bs ++ used_block n ∷ []))
        (same_end p b bs) (rw (==_false_of_ne p (end_of p (b ∷ bs)) (omega (arith, block)), g) refl)

-- Nor with a free block that is further away.
merged_at_apart :
    (p n : ℕ) (b c : BoundaryTag) (bs : List BoundaryTag)
    → IsBlock b
    → IsBlock c
    → c.inuse ≡ true
    → merged_at (end_of (after p b) (c ∷ bs)) (after p b) (c ∷ bs ++ used_block n ∷ [])
      ≡ merged_at (end_of p (b ∷ c ∷ bs)) p (b ∷ c ∷ bs ++ used_block n ∷ [])
merged_at_apart p n b c bs block block' g =
    let e : ℕ = end_of p (b ∷ c ∷ bs) in
    let x : ℕ = merged_at e (after p b) (c ∷ bs ++ used_block n ∷ []) in
    subst
      (λ a.
        merged_at a (after p b) (c ∷ bs ++ used_block n ∷ [])
        ≡ merged_at e p (b ∷ c ∷ bs ++ used_block n ∷ []))
      (same_end p b (c ∷ bs))
      (chosen x p (p == e) (after p b == e) b.inuse
        (==_false_of_ne p e (omega (arith, block, block')))
        (==_false_of_ne (after p b) e (omega (arith, block'))))
  where
    chosen :
        (x y : ℕ) (u v a : Bool) → u ≡ false → v ≡ false → x ≡ (if u || (not a && v) then y else x)
    chosen x y u v a e f = ground arith

last_fit :
    (p k n : ℕ) (b : BoundaryTag)
    → IsBlock b
    → k ≤ n
    → fits k b ≡ false
    → first_fit k p (grow n (b ∷ []))
      ≡ some (merged_at (end_of p (b ∷ [])) p (b ∷ used_block n ∷ []))
last_fit p k n b h le f = ground arith

-- The first fit in the extended heap, where there was none before, is the new block, merged.
pub first_fit-grow :
    (p k n : ℕ) (bs : List BoundaryTag)
    → All IsBlock bs
    → Merged bs
    → k ≤ n
    → first_fit k p bs ≡ none
    → first_fit k p (grow n bs) ≡ some (merged_at (end_of p bs) p (bs ++ used_block n ∷ []))
first_fit-grow p k n [] h merged le e = ground arith
first_fit-grow p k n (b ∷ []) h merged le e = last_fit p k n b h.0 le (no_fit k p b [] e)
first_fit-grow p k n (b ∷ c ∷ cs) h merged le e = elim (Bool-cases b.inuse) [
  | inl g ↦
      let ds : List BoundaryTag = grow n (c ∷ cs) in
      ap (first_fit k p) (glue_used b ds g)
      ∙ skip k p b ds (no_fit k p b (c ∷ cs) e)
      ∙ first_fit-grow (after p b) k n (c ∷ cs) h.1 merged.1 le (no_fit_behind k p b (c ∷ cs) e)
      ∙ ap some (merged_at_used p n b (c ∷ cs) h.0 g)
  | inr g ↦
      let ds : List BoundaryTag = grow n cs in
      let used = second_used b.inuse c.inuse g merged.0 in
      let e' = no_fit_behind k p b (c ∷ cs) e in
      ap (first_fit k p) (glue_before_used b c ds used)
      ∙ skip k p b (c ∷ ds) (no_fit k p b (c ∷ cs) e)
      ∙ skip k (after p b) c ds (no_fit k (after p b) c cs e')
      ∙ first_fit-grow (after (after p b) c) k n cs h.1.1 merged.1.1 le
          (no_fit_behind k (after p b) c cs e')
      ∙ ap some
          (merged_at_used (after p b) n c cs h.1.0 used ∙ merged_at_apart p n b c cs h.0 h.1.0 used)
]

-- extend_heap from the end of the blocks on.
pub extend-grow :
    (p n : ℕ) (t : TagMap) (bs : List BoundaryTag)
    → 4 ≤ p
    → Behind t p
    → Laid t p bs
    → Merged bs
    → IsBlock (free_block n)
    → words bs + n < 2 ^ 30
    → Leaves p t
        (merged_at (end_of p bs) p (bs ++ used_block n ∷ []))
        (grow n bs)
        (coalesce (end_of p bs) (appended (end_of p bs) n t))
extend-grow p n t bs room behind h merged block low =
    let e : ℕ = end_of p bs in
    let w : TagMap = with_fence e n t in
    let (at, laid, below) =
      freed-collapse e p w (bs ++ used_block n ∷ []) room
        (ap (λ (b : BoundaryTag). b.inuse)
            (fence_below e n t block.0 (p - wsize) (omega (arith, room)))
          ∙ behind)
        (Laid-append t p n bs h block) (Merged-append n bs merged)
        (omega (arith, low, words-append bs (used_block n ∷ [])))
        (in_use-append p n bs (Laid-All t p bs h)) in
    subst (Leaves p t (merged_at e p (bs ++ used_block n ∷ [])) (grow n bs))
      (ap (coalesce e) (sym (same_tags e n t block.0 (omega (arith, low)))))
      (
        at,
        subst (λ cs. Laid (freed e w).1 p (collapse cs))
            (mark_free-append p n bs (Laid-All t p bs h)) laid,
        λ a l. below a l ∙ fence_below e n t block.0 a (omega (arith, l)),
      )
