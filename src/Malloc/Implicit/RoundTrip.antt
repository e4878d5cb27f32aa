-- ===== src/Malloc/Implicit/RoundTrip.antt =====
-- mm_free undoes mm_malloc, in mm-gback-implicit.c.
use computer_systems_project.Base.{
  ℕ, ◌+◌, ◌-◌, ◌^◌, ◌≤◌, ◌<◌, ◌≡◌, ◌∙◌, refl, ap, subst, inl, inr, Bool, true, false, not, ◌&&◌,
  Option, none, some, List, [], ◌∷◌, arith, leb, Bool-cases, ==_false_of_ne, All, ==_refl,
}
use computer_systems_project.Malloc.Blocks.{BoundaryTag}
use computer_systems_project.Malloc.Implicit.{ImplicitHeap, wsize, awords}
use computer_systems_project.Malloc.Implicit.Spec.{
  IsBlock, Merged, NotBothFree, Represents, after, free_block, glue, collapse, mark_free, in_use,
  carve, split, first_fit, fits, made_room, payload_of, free_blocks,
}
use computer_systems_project.Malloc.Implicit.Place.{
  first_fit_from, first_here, first_there, fits_size,
}
use computer_systems_project.Malloc.Implicit.Merged.{
  collapse_apart, glue_apart, fits_apart, made_room-blocks,
}
use computer_systems_project.Malloc.Implicit.Extend.{Laid-All}
use computer_systems_project.Malloc.Implicit.Requests.{awords-bounds}
use computer_systems_project.Malloc.Implicit.Refinement.{refuses, grown-IsBlock}

-- The block that was carved, marked as free, and merged with what was split off.
rejoined :
    (n size p : ℕ) (bs : List BoundaryTag)
    → n ≤ size
    → NotBothFree (free_block size) bs
    → Merged bs
    → collapse (mark_free p p (split n size bs)) ≡ free_block size ∷ bs
rejoined n size p bs le apart merged = elim (Bool-cases (leb 4 (size - n))) [
  | inl e ↦
      rw (e, ==_refl p)
        (ap (λ cs. glue (free_block n) (glue (free_block (size - n)) cs)) (collapse_apart bs merged)
          ∙ ap (glue (free_block n)) (glue_apart (free_block (size - n)) bs apart)
          ∙ ap (λ k. free_block k ∷ bs) (omega (arith, le)))
  | inr e ↦
      rw (e, ==_refl p)
        (ap (glue (free_block size)) (collapse_apart bs merged)
          ∙ glue_apart (free_block size) bs apart)
]

pub in_use-carve :
    (n p q : ℕ) (bs : List BoundaryTag)
    → first_fit n p bs ≡ some q
    → All IsBlock bs
    → in_use q p (carve n bs) ≡ true
in_use-carve n p q [] e h = cc
in_use-carve n p q (b ∷ bs) e h = elim (Bool-cases (fits n b)) [
  | inl f ↦
      subst (λ r. in_use r p (carve n (b ∷ bs)) ≡ true) (first_here n p q b bs f e) (ground arith)
  | inr f ↦
      let e' = first_there n p q b bs f e in
      rw (f, ==_false_of_ne p q (omega (arith, h.0, first_fit_from n (after p b) q bs e')))
        (in_use-carve n (after p b) q bs e' h.1)
]

free_fits : (n : ℕ) (b : BoundaryTag) → fits n b ≡ true → free_block b.size ≡ b
free_fits n b f = ap (λ a. record { inuse = a; size = b.size }) (is_free b.inuse (leb n b.size) f)
  where
    is_free : (a c : Bool) → (not a && c) ≡ true → false ≡ a
    is_free a c f = ground arith

-- Marking the carved block as free again gives the sequence back.
pub free_blocks-carve :
    (n p q : ℕ) (bs : List BoundaryTag)
    → first_fit n p bs ≡ some q
    → All IsBlock bs
    → Merged bs
    → free_blocks q p (carve n bs) ≡ bs
free_blocks-carve n p q [] e h merged = cc
free_blocks-carve n p q (b ∷ bs) e h merged = elim (Bool-cases (fits n b)) [
  | inl f ↦
      subst (λ r. free_blocks r p (carve n (b ∷ bs)) ≡ b ∷ bs) (first_here n p q b bs f e)
        (rw f (rejoined n b.size p bs (fits_size n b f) (fits_apart n b bs f merged.0) merged.1)
          ∙ ap (λ c. c ∷ bs) (free_fits n b f))
  | inr f ↦
      let e' = first_there n p q b bs f e in
      rw (f, ==_false_of_ne p q (omega (arith, h.0, first_fit_from n (after p b) q bs e')))
        (ap (glue b) (free_blocks-carve n (after p b) q bs e' h.1 merged.1)
          ∙ glue_apart b bs merged.0)
]

pub payload_block :
    (a : ℕ) (fit : Option ℕ) → some a ≡ payload_of fit → (q : ℕ) × (fit ≡ some q) × (a ≡ q + wsize)
payload_block a none e = cc
payload_block a (some q) e = (q, refl, cc)

pub room_blocks :
    (size : ℕ) (s : ImplicitHeap) (bs : List BoundaryTag)
    → Represents s bs
    → size + 24 < 2 ^ 31
    → let n = awords size in
      let room = made_room (first_fit n s.heap_listp bs) (refuses n s) n bs in
      All IsBlock room × Merged room
room_blocks size s bs h low =
    let n : ℕ = awords size in
    let (block, _, most) = awords-bounds size (omega (arith, low)) in
    let (new, _, _) = grown-IsBlock n block (omega (arith, most, low)) in
    made_room-blocks (first_fit n s.heap_listp bs) (refuses n s) n bs new
      (Laid-All s.tags s.heap_listp bs h.laid) h.merged
