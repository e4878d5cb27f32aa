-- ===== src/Malloc/Implicit/Place.antt =====
-- place of mm-gback-implicit.c: the free block that is found is carved.
use computer_systems_project.Base.{
  ℕ, ◌+◌, ◌-◌, ◌*◌, ◌^◌, ◌≤◌, ◌<◌, ◌≡◌, ◌∙◌, ap, subst, inl, inr, true, false, some, List, [], ◌∷◌,
  arith, leb, if◌then◌else◌, Bool-cases,
}
use computer_systems_project.Malloc.Blocks.{BoundaryTag, sub_size}
use computer_systems_project.Malloc.Implicit.{
  TagMap, wsize, place, set_header_and_footer, next_blk, mark_block_free,
}
use computer_systems_project.Malloc.Implicit.Spec.{
  Laid, IsBlock, after, words, first_fit, fits, split, carve, used_block, free_block,
}
use computer_systems_project.Malloc.Implicit.Write.{
  with_tags, with_tags-header, with_tags-footer, with_tags-outside, Laid-with_tags,
  Laid-with_tags_below, set_header_and_footer-with_tags,
}

-- The tags after place, in a block of `size` words.
abbrev placed : ℕ → ℕ → ℕ → TagMap → TagMap
placed p size n t =
    if leb 4 (size - n)
    then with_tags (p + wsize * n) (size - n) false (with_tags p n true t)
    else with_tags p size true t

the_difference : (x y : ℕ) → y ≤ x → x < 2 ^ 30 → sub_size x y ≡ x - y
the_difference x y le low = omega (arith, le, low)

split_tags :
    (p size n : ℕ) (t : TagMap)
    → 0 < n
    → n ≤ size
    → size < 2 ^ 30
    → (let u = set_header_and_footer p n true t in
        mark_block_free (next_blk u p) (sub_size size n) u)
      ≡ with_tags (p + wsize * n) (size - n) false (with_tags p n true t)
split_tags p size n t positive le low =
    rw (set_header_and_footer-with_tags p n true t (omega (arith, le, low))) (
      ap
        (λ (c : BoundaryTag).
          set_header_and_footer (p + wsize * c.size) (sub_size size n) false (with_tags p n true t))
        (with_tags-header p n true t positive)
      ∙ ap (λ k. set_header_and_footer (p + wsize * n) k false (with_tags p n true t))
          (the_difference size n le low)
      ∙ set_header_and_footer-with_tags (p + wsize * n) (size - n) false (with_tags p n true t)
          (omega (arith, le, low)))

pub place-placed :
    (p size n : ℕ) (t : TagMap)
    → (t p).size ≡ size
    → 0 < n
    → n ≤ size
    → size < 2 ^ 30
    → place p n t ≡ placed p size n t
unfolding place
place-placed p size n t e positive le low = rw e (
    ap
      (λ k.
        if leb 4 k
        then (let u = set_header_and_footer p n true t in
            mark_block_free (next_blk u p) (sub_size size n) u)
        else set_header_and_footer p size true t)
      (the_difference size n le low)
    ∙ ap (λ u. if leb 4 (size - n) then u else set_header_and_footer p size true t)
        (split_tags p size n t positive le low)
    ∙ ap
        (λ u.
          if leb 4 (size - n)
          then with_tags (p + wsize * n) (size - n) false (with_tags p n true t)
          else u)
        (set_header_and_footer-with_tags p size true t low))

-- A block in use and a free block behind it.
Laid-split :
    (p n k : ℕ) (t : TagMap) (bs : List BoundaryTag)
    → IsBlock (used_block n)
    → IsBlock (free_block k)
    → Laid t ((p + wsize * n) + wsize * k) bs
    → Laid
        (with_tags (p + wsize * n) k false (with_tags p n true t))
        p
        (used_block n ∷ free_block k ∷ bs)
Laid-split p n k t bs first rest h =
    let t' = with_tags p n true t in
    let q = p + wsize * n in
    (
      first,
      with_tags-outside q k false t' (omega (arith, rest)) p (inl (omega (arith, first)))
          ∙ with_tags-header p n true t (omega (arith, first)),
      with_tags-outside q k false t' (omega (arith, rest)) (q - wsize) (inl (omega (arith, first)))
          ∙ with_tags-footer p n true t,
      Laid-with_tags t' q k false bs rest (
          Laid-with_tags_below t p n (q + wsize * k) true bs (omega (arith, first)) (omega arith)
            h),
    )

-- In place of the block, there is the block in use, and the rest if it is large enough.
Laid-placed :
    (p n : ℕ) (t : TagMap) (b : BoundaryTag) (bs : List BoundaryTag)
    → Laid t p (b ∷ bs)
    → n ≤ b.size
    → IsBlock (used_block n)
    → Laid (placed p b.size n t) p (split n b.size bs)
Laid-placed p n t b bs h le block = elim (Bool-cases (leb 4 (b.size - n))) [
  | inl e ↦ rw e (
      Laid-split p n (b.size - n) t bs block (rest_block e)
        (subst (λ r. Laid t r bs) (omega (arith, le)) h.3))
  | inr e ↦ rw e (Laid-with_tags t p b.size true bs h.0 h.3)
]
  where
    rest_block : leb 4 (b.size - n) ≡ true → IsBlock (free_block (b.size - n))
    rest_block e = ground (arith, h.0, block, le)

pub first_fit_from : (n p q : ℕ) (bs : List BoundaryTag) → first_fit n p bs ≡ some q → p ≤ q
first_fit_from n p q [] e = cc
first_fit_from n p q (b ∷ bs) e = ground (arith, first_fit_from n (after p b) q bs)

-- A block stays where the tags above its end alone change.
pub Laid-cons :
    (t u : TagMap) (p q : ℕ) (b : BoundaryTag) (bs cs : List BoundaryTag)
    → Laid t p (b ∷ bs)
    → after p b ≤ q
    → ((r : ℕ) → r < q → u r ≡ t r)
    → Laid u (after p b) cs
    → Laid u p (b ∷ cs)
Laid-cons t u p q b bs cs h le agree rest = (
  h.0,
  agree p (omega (arith, h.0, le)) ∙ h.1,
  agree (after p b - wsize) (omega (arith, h.0, le)) ∙ h.2,
  rest,
)

placed-below :
    (q size n : ℕ) (t : TagMap) → 0 < n → n ≤ size → (r : ℕ) → r < q → placed q size n t r ≡ t r
placed-below q size n t positive le r h = elim (Bool-cases (leb 4 (size - n))) [
  | inl e ↦ rw e (
      with_tags-outside (q + wsize * n) (size - n) false (with_tags q n true t) (ground (arith, e))
        r (inl (omega (arith, h)))
      ∙ with_tags-outside q n true t positive r (inl h))
  | inr e ↦ rw e (with_tags-outside q size true t (omega (arith, positive, le)) r (inl h))
]

pub fits_size : (n : ℕ) (b : BoundaryTag) → fits n b ≡ true → n ≤ b.size
fits_size n b f = ground arith

pub first_here :
    (n p q : ℕ) (b : BoundaryTag) (bs : List BoundaryTag)
    → fits n b ≡ true
    → first_fit n p (b ∷ bs) ≡ some q
    → p ≡ q
first_here n p q b bs f e = ground arith

pub first_there :
    (n p q : ℕ) (b : BoundaryTag) (bs : List BoundaryTag)
    → fits n b ≡ false
    → first_fit n p (b ∷ bs) ≡ some q
    → first_fit n (after p b) bs ≡ some q
first_there n p q b bs f e = ground arith

-- Where the walk finds a block, place carves it out of the sequence.
pub place-carve :
    (n p q : ℕ) (t : TagMap) (bs : List BoundaryTag)
    → Laid t p bs
    → first_fit n p bs ≡ some q
    → IsBlock (used_block n)
    → words bs < 2 ^ 30
    → Laid (place q n t) p (carve n bs) × ((r : ℕ) → r < q → place q n t r ≡ t r)
place-carve n p q t [] h e block low = cc
place-carve n p q t (b ∷ bs) h e block low = elim (Bool-cases (fits n b)) [
  | inl f ↦
      subst
        (λ r.
          Laid (place r n t) p (if fits n b then split n b.size bs else b ∷ carve n bs)
          × ((a : ℕ) → a < r → place r n t a ≡ t a))
        (first_here n p q b bs f e)
        (rw
          (
            f,
            place-placed p b.size n t (ap (λ (c : BoundaryTag). c.size) h.1) (omega (arith, block))
                (fits_size n b f) (omega (arith, low)),
          )
          (
            Laid-placed p n t b bs h (fits_size n b f) block,
            placed-below p b.size n t (omega (arith, block)) (fits_size n b f),
          ))
  | inr f ↦
      let e' = first_there n p q b bs f e in
      let (laid, same) = place-carve n (after p b) q t bs h.3 e' block (omega (arith, low)) in
      rw f (
        Laid-cons t (place q n t) p q b bs (carve n bs) h (first_fit_from n (after p b) q bs e')
            same laid,
        same,
      )
]
