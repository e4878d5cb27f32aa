-- ===== src/Malloc/Implicit/Payloads.antt =====
-- The payloads of a heap of mm-gback-implicit.c, as the driver's range list sees them.
use computer_systems_project.Base.{
  ℕ, ◌+◌, ◌-◌, ◌*◌, ◌≤◌, ◌<◌, ◌≡◌, ◌≢◌, ◌∙◌, refl, sym, ap, subst, inl, inr, Bool, true, false,
  Option, none, some, List, [], ◌∷◌, ◌++◌, arith, ◌==◌, leb, Bool-cases, All, ==_false_of_ne,
  ==_refl, eq_of_==, ne_of_==,
}
use computer_systems_project.Malloc.Blocks.{BoundaryTag, max}
use computer_systems_project.Malloc.Ranges.{Range, Disjoint, Apart, remove_range}
use computer_systems_project.Malloc.Implicit.{wsize, chunksize}
use computer_systems_project.Malloc.Implicit.Spec.{
  IsBlock, after, free_block, glue, collapse, mark_free, in_use, carve, split, first_fit, fits,
  made_room, payload, payloads, note_payload, grow,
}
use computer_systems_project.Malloc.Implicit.Freed.{mark_here, mark_there, in_use_there}
use computer_systems_project.Malloc.Implicit.Place.{
  first_fit_from, first_here, first_there, fits_size,
}

-- Payloads that start above an address.
abbrev Above : ℕ → List Range → Type 0
Above p = All (λ r. p < r.lo)

note-Above :
    (a : Bool) (p q n : ℕ) (rs : List Range) → p ≤ q → Above p rs → Above p (note_payload a q n rs)
note-Above true p q n rs le h = (omega (arith, le), h)
note-Above false p q n rs le h = h

payloads-Above : (p q : ℕ) (bs : List BoundaryTag) → p ≤ q → Above p (payloads q bs)
payloads-Above p q [] le = tt
payloads-Above p q (b ∷ bs) le =
    note-Above b.inuse p q b.size (payloads (after q b) bs) le
      (payloads-Above p (after q b) bs (omega (arith, le)))

Above-Apart :
    (p n : ℕ) (rs : List Range) → 4 ≤ n → Above (p + wsize * n) rs → All (Apart (payload p n)) rs
Above-Apart p n [] some_words h = tt
Above-Apart p n (r ∷ rs) some_words h =
    (inl (omega (arith, some_words, h.0)), Above-Apart p n rs some_words h.1)

note-Disjoint :
    (a : Bool) (p n : ℕ) (rs : List Range)
    → 4 ≤ n
    → Above (p + wsize * n) rs
    → Disjoint rs
    → Disjoint (note_payload a p n rs)
note-Disjoint true p n rs some_words above h =
    (omega (arith, some_words), Above-Apart p n rs some_words above, h)
note-Disjoint false p n rs some_words above h = h

-- The payloads are not empty, and no two of them have an address in common.
pub payloads-Disjoint : (p : ℕ) (bs : List BoundaryTag) → All IsBlock bs → Disjoint (payloads p bs)
payloads-Disjoint p [] h = tt
payloads-Disjoint p (b ∷ bs) h =
    note-Disjoint b.inuse p b.size (payloads (after p b) bs) (h.0).0
      (payloads-Above (after p b) (after p b) bs (omega arith))
      (payloads-Disjoint (after p b) bs h.1)

note-glue :
    (a c : Bool) (p m n : ℕ) (cs : List BoundaryTag)
    → let b : BoundaryTag = record { inuse = a; size = m } in
      let d : BoundaryTag = record { inuse = c; size = n } in
      payloads p (glue b (d ∷ cs)) ≡ payloads p (b ∷ d ∷ cs)
note-glue false false p m n cs = ap (λ q. payloads q cs) (omega arith)
note-glue false true p m n cs = refl
note-glue true c p m n cs = refl

payloads-glue :
    (p : ℕ) (b : BoundaryTag) (bs : List BoundaryTag) → payloads p (glue b bs) ≡ payloads p (b ∷ bs)
payloads-glue p b [] = refl
payloads-glue p b (c ∷ cs) = note-glue b.inuse c.inuse p b.size c.size cs

-- Merging free blocks moves no payload.
pub payloads-collapse : (p : ℕ) (bs : List BoundaryTag) → payloads p (collapse bs) ≡ payloads p bs
payloads-collapse p [] = refl
payloads-collapse p (b ∷ bs) =
    payloads-glue p b (collapse bs)
    ∙ ap (note_payload b.inuse p b.size) (payloads-collapse (after p b) bs)

pub payloads-grow : (p n : ℕ) (bs : List BoundaryTag) → payloads p (grow n bs) ≡ payloads p bs
payloads-grow p n bs = payloads-collapse p (bs ++ free_block n ∷ []) ∙ at_end p bs
  where
    at_end : (p : ℕ) (bs : List BoundaryTag) → payloads p (bs ++ free_block n ∷ []) ≡ payloads p bs
    at_end p [] = refl
    at_end p (b ∷ bs) = ap (note_payload b.inuse p b.size) (at_end (after p b) bs)

pub payloads-made_room :
    (fit : Option ℕ) (refused : Bool) (n p : ℕ) (bs : List BoundaryTag)
    → payloads p (made_room fit refused n bs) ≡ payloads p bs
payloads-made_room (some q) refused n p bs = refl
payloads-made_room none true n p bs = refl
payloads-made_room none false n p bs = payloads-grow p (max n chunksize) bs

-- A payload that starts elsewhere stays.
remove-note :
    (a : Bool) (q p n : ℕ) (rs : List Range)
    → p ≢ q
    → remove_range (q + wsize) (note_payload a p n rs)
      ≡ note_payload a p n (remove_range (q + wsize) rs)
unfolding remove_range
remove-note true q p n rs ne = rw (==_false_of_ne (p + wsize) (q + wsize) (omega (arith, ne))) refl
remove-note false q p n rs ne = refl

remove_first : (q n : ℕ) (rs : List Range) → remove_range (q + wsize) (payload q n ∷ rs) ≡ rs
unfolding remove_range
remove_first q n rs = rw (==_refl (q + wsize)) refl

used_here :
    (q p : ℕ) (b : BoundaryTag) (bs : List BoundaryTag)
    → (p == q) ≡ true
    → in_use q p (b ∷ bs) ≡ true
    → b.inuse ≡ true
used_here q p b bs f e = ground arith

-- Freeing a block in use removes its payload, and no other.
pub payloads-mark_free :
    (q p : ℕ) (bs : List BoundaryTag)
    → in_use q p bs ≡ true
    → payloads p (mark_free q p bs) ≡ remove_range (q + wsize) (payloads p bs)
payloads-mark_free q p [] e = cc
payloads-mark_free q p (b ∷ bs) e = elim (Bool-cases (p == q)) [
  | inl f ↦
      let rs : List Range = payloads (after p b) bs in
      ap (payloads p) (mark_here q p b bs f)
      ∙ sym (
          ap (λ a. remove_range (q + wsize) (note_payload a p b.size rs)) (used_here q p b bs f e)
          ∙ ap (λ a. remove_range (a + wsize) (payload p b.size ∷ rs)) (sym (eq_of_== p q f))
          ∙ remove_first p b.size rs)
  | inr f ↦
      let rs : List Range = payloads (after p b) bs in
      ap (payloads p) (mark_there q p b bs f)
      ∙ ap (note_payload b.inuse p b.size)
          (payloads-mark_free q (after p b) bs (in_use_there q p b bs f e))
      ∙ sym (remove-note b.inuse q p b.size rs (ne_of_== p q f))
]

remove-split :
    (n size p : ℕ) (bs : List BoundaryTag)
    → n ≤ size
    → remove_range (p + wsize) (payloads p (split n size bs)) ≡ payloads (p + wsize * size) bs
remove-split n size p bs le = elim (Bool-cases (leb 4 (size - n))) [
  | inl e ↦ rw e (
      subst
        (λ q.
          remove_range (p + wsize) (payload p n ∷ payloads q bs) ≡ payloads (p + wsize * size) bs)
        (omega (arith, le)) (remove_first p n (payloads (p + wsize * size) bs)))
  | inr e ↦ rw e (remove_first p size (payloads (p + wsize * size) bs))
]

free_here : (n : ℕ) (b : BoundaryTag) → fits n b ≡ true → false ≡ b.inuse
free_here n b f = ground arith

-- Placing a request adds one payload, at the block that was found.
pub payloads-carve :
    (n p q : ℕ) (bs : List BoundaryTag)
    → first_fit n p bs ≡ some q
    → All IsBlock bs
    → remove_range (q + wsize) (payloads p (carve n bs)) ≡ payloads p bs
payloads-carve n p q [] e h = cc
payloads-carve n p q (b ∷ bs) e h = elim (Bool-cases (fits n b)) [
  | inl f ↦
      subst (λ r. remove_range (r + wsize) (payloads p (carve n (b ∷ bs))) ≡ payloads p (b ∷ bs))
        (first_here n p q b bs f e)
        (rw f (
          remove-split n b.size p bs (fits_size n b f)
          ∙ ap (λ a. note_payload a p b.size (payloads (after p b) bs)) (free_here n b f)))
  | inr f ↦
      let e' = first_there n p q b bs f e in
      let le = first_fit_from n (after p b) q bs e' in
      rw f (
        remove-note b.inuse q p b.size (payloads (after p b) (carve n bs)) (omega (arith, h.0, le))
        ∙ ap (note_payload b.inuse p b.size) (payloads-carve n (after p b) q bs e' h.1))
]
