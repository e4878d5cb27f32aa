-- ===== src/Malloc/Implicit/Merged.antt =====
-- Sequences of blocks: what marking, merging and carving keep.
use computer_systems_project.Base.{
  ℕ, ◌+◌, ◌≤◌, ◌≡◌, ◌∙◌, refl, ap, inl, inr, Bool, true, false, ◌||◌, Option, none, some, List, [],
  ◌∷◌, ◌++◌, arith, Bool-cases, All,
}
use computer_systems_project.Malloc.Blocks.{BoundaryTag, max}
use computer_systems_project.Malloc.Implicit.{chunksize}
use computer_systems_project.Malloc.Implicit.Spec.{
  IsBlock, made_room, Merged, NotBothFree, after, words, glue, collapse, mark_free, free_block,
  fits, split, carve,
}

glue_size-Merged :
    (a c : Bool) (m n : ℕ) (bs : List BoundaryTag)
    → let b : BoundaryTag = record { inuse = a; size = m } in
      let d : BoundaryTag = record { inuse = c; size = n } in
      Merged (d ∷ bs) → Merged (glue b (d ∷ bs))
glue_size-Merged false false m n [] h = (tt, tt)
glue_size-Merged false false m n (b ∷ bs) h = h
glue_size-Merged false true m n bs h = (refl, h)
glue_size-Merged true c m n bs h = (refl, h)

glue-Merged : (b : BoundaryTag) (bs : List BoundaryTag) → Merged bs → Merged (glue b bs)
glue-Merged b [] h = (tt, tt)
glue-Merged b (c ∷ bs) h = glue_size-Merged b.inuse c.inuse b.size c.size bs h

pub collapse-Merged : (bs : List BoundaryTag) → Merged (collapse bs)
collapse-Merged [] = tt
collapse-Merged (b ∷ bs) = glue-Merged b (collapse bs) (collapse-Merged bs)

pub glue_apart : (b : BoundaryTag) (bs : List BoundaryTag) → NotBothFree b bs → glue b bs ≡ b ∷ bs
glue_apart b [] h = refl
glue_apart b (c ∷ cs) h = apart b.inuse c.inuse b.size c.size h
  where
    apart :
        (a d : Bool) (m n : ℕ)
        → (a || d) ≡ true
        → let b' : BoundaryTag = record { inuse = a; size = m } in
          let c' : BoundaryTag = record { inuse = d; size = n } in glue b' (c' ∷ cs) ≡ b' ∷ c' ∷ cs
    apart false false m n h = cc
    apart false true m n h = refl
    apart true d m n h = refl

-- Where nothing is to be merged, the sequence stays as it is.
pub collapse_apart : (bs : List BoundaryTag) → Merged bs → collapse bs ≡ bs
collapse_apart [] h = refl
collapse_apart (b ∷ bs) h = ap (glue b) (collapse_apart bs h.1) ∙ glue_apart b bs h.0

words-glue : (b : BoundaryTag) (bs : List BoundaryTag) → words (glue b bs) ≡ b.size + words bs
words-glue b [] = refl
words-glue b (c ∷ cs) = same b.inuse c.inuse b.size c.size
  where
    same :
        (a d : Bool) (m n : ℕ)
        → let b' : BoundaryTag = record { inuse = a; size = m } in
          let c' : BoundaryTag = record { inuse = d; size = n } in
          words (glue b' (c' ∷ cs)) ≡ m + (n + words cs)
    same false false m n = omega arith
    same false true m n = refl
    same true d m n = refl

pub words-collapse : (bs : List BoundaryTag) → words (collapse bs) ≡ words bs
words-collapse [] = refl
words-collapse (b ∷ bs) = words-glue b (collapse bs) ∙ ap (λ n. b.size + n) (words-collapse bs)

pub words-mark_free : (q p : ℕ) (bs : List BoundaryTag) → words (mark_free q p bs) ≡ words bs
words-mark_free q p [] = refl
words-mark_free q p (b ∷ bs) = ground (arith, words-mark_free q (after p b) bs)

pub words-append : (bs cs : List BoundaryTag) → words (bs ++ cs) ≡ words bs + words cs
words-append [] cs = omega arith
words-append (b ∷ bs) cs = omega (arith, words-append bs cs)

words-split :
    (n size : ℕ) (bs : List BoundaryTag) → n ≤ size → words (split n size bs) ≡ size + words bs
words-split n size bs le = ground arith

pub words-carve : (n : ℕ) (bs : List BoundaryTag) → words (carve n bs) ≡ words bs
words-carve n [] = refl
words-carve n (b ∷ bs) = ground (arith, words-carve n bs, words-split n b.size bs)

split-Merged :
    (n size : ℕ) (bs : List BoundaryTag)
    → NotBothFree (free_block size) bs
    → Merged bs
    → Merged (split n size bs)
split-Merged n size [] apart h = ground arith
split-Merged n size (c ∷ cs) apart h = ground arith

carve_apart :
    (n : ℕ) (b : BoundaryTag) (bs : List BoundaryTag)
    → NotBothFree b bs
    → NotBothFree b (carve n bs)
carve_apart n b [] h = tt
carve_apart n b (c ∷ cs) h = ground arith

pub fits_apart :
    (n : ℕ) (b : BoundaryTag) (bs : List BoundaryTag)
    → fits n b ≡ true
    → NotBothFree b bs
    → NotBothFree (free_block b.size) bs
fits_apart n b [] f h = tt
fits_apart n b (c ∷ cs) f h = ground arith

pub carve-Merged : (n : ℕ) (bs : List BoundaryTag) → Merged bs → Merged (carve n bs)
carve-Merged n [] h = tt
carve-Merged n (b ∷ bs) h = elim (Bool-cases (fits n b)) [
  | inl f ↦ rw f (split-Merged n b.size bs (fits_apart n b bs f h.0) h.1)
  | inr f ↦ rw f (carve_apart n b bs h.0, carve-Merged n bs h.1)
]

All-glue :
    (b : BoundaryTag) (bs : List BoundaryTag) → IsBlock b → All IsBlock bs → All IsBlock (glue b bs)
All-glue b [] h hs = (h, tt)
All-glue b (c ∷ cs) h hs = joined b.inuse c.inuse b.size c.size h hs
  where
    joined :
        (a d : Bool) (m n : ℕ)
        → let b' : BoundaryTag = record { inuse = a; size = m } in
          let c' : BoundaryTag = record { inuse = d; size = n } in
          IsBlock b' → All IsBlock (c' ∷ cs) → All IsBlock (glue b' (c' ∷ cs))
    joined false false m n h hs = (omega (arith, h, hs.0), hs.1)
    joined false true m n h hs = (h, hs)
    joined true d m n h hs = (h, hs)

All-collapse : (bs : List BoundaryTag) → All IsBlock bs → All IsBlock (collapse bs)
All-collapse [] h = tt
All-collapse (b ∷ bs) h = All-glue b (collapse bs) h.0 (All-collapse bs h.1)

All-append :
    (bs : List BoundaryTag) (b : BoundaryTag)
    → All IsBlock bs
    → IsBlock b
    → All IsBlock (bs ++ b ∷ [])
All-append [] b h block = (block, tt)
All-append (c ∷ bs) b h block = (h.0, All-append bs b h.1 block)

-- The sequence stays well formed when room is made.
pub made_room-blocks :
    (fit : Option ℕ) (refused : Bool) (n : ℕ) (bs : List BoundaryTag)
    → IsBlock (free_block (max n chunksize))
    → All IsBlock bs
    → Merged bs
    → All IsBlock (made_room fit refused n bs) × Merged (made_room fit refused n bs)
made_room-blocks (some q) refused n bs new h merged = (h, merged)
made_room-blocks none true n bs new h merged = (h, merged)
made_room-blocks none false n bs new h merged = (
  All-collapse (bs ++ free_block (max n chunksize) ∷ [])
      (All-append bs (free_block (max n chunksize)) h new),
  collapse-Merged (bs ++ free_block (max n chunksize) ∷ []),
)
