-- ===== src/Malloc/Implicit/Walk.antt =====
-- find_fit of mm-gback-implicit.c finds the first fit, and its walk ends.
use computer_systems_project.Base.{
  ℕ, zero, suc, ◌<◌, ◌≡◌, ◌∙◌, ap, not, ◌&&◌, none, some, List, [], ◌∷◌, arith, ltb, leb,
  if◌then◌else◌, length,
}
use computer_systems_project.Malloc.Blocks.{BoundaryTag}
use computer_systems_project.Malloc.Implicit.{TagMap, find_fit}
use computer_systems_project.Malloc.Implicit.Spec.{Laid, first_fit, fits, after}

round :
    (rounds n p : ℕ) (t : TagMap) (b : BoundaryTag)
    → t p ≡ b
    → 0 < b.size
    → find_fit (suc rounds) n p t
      ≡ (if fits n b then some (some p) else find_fit rounds n (after p b) t)
unfolding find_fit
round rounds n p t b e positive =
    ap
      (λ c.
        let rest = find_fit rounds n (after p c) t in
        if ltb 0 c.size
        then (if not c.inuse && leb n c.size then some (some p) else rest)
        else some none)
      e
    ∙ ground arith

-- Over tags that describe a sequence of blocks, with a round for each block and one for the fence,
-- the walk ends, at the first free block that is large enough, or without a fit.
pub find_fit-first_fit :
    (rounds n p : ℕ) (t : TagMap) (bs : List BoundaryTag)
    → Laid t p bs
    → length bs < rounds
    → find_fit rounds n p t ≡ some (first_fit n p bs)
find_fit-first_fit zero n p t bs h low = absurd (omega (arith, low))
find_fit-first_fit (suc rounds) n p t [] h low =
    unfold find_fit in
    ap
      (λ (c : BoundaryTag).
        let rest = find_fit rounds n (after p c) t in
        if ltb 0 c.size
        then (if not c.inuse && leb n c.size then some (some p) else rest)
        else some none)
      h
find_fit-first_fit (suc rounds) n p t (b ∷ bs) h low =
    round rounds n p t b h.1 (omega (arith, h.0))
    ∙ ap (λ r. if fits n b then some (some p) else r)
        (find_fit-first_fit rounds n (after p b) t bs h.3 (omega (arith, low)))
    ∙ ground arith
