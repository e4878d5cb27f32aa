-- ===== src/Malloc/Implicit/Occurs.antt =====
-- The blocks of mm-gback-implicit.c that the payloads in use belong to.
use computer_systems_project.Base.{
  ℕ, ◌+◌, ◌-◌, ◌*◌, ◌%◌, ◌≤◌, ◌≡◌, ◌≢◌, ◌∙◌, refl, sym, ap, subst, ◌⊎◌, inl, inr, Bool, true, false,
  some, List, [], ◌∷◌, arith, ◌==◌, leb, if◌then◌else◌, Bool-cases, All, ==_false_of_ne, ==_refl,
}
use computer_systems_project.Malloc.Blocks.{BoundaryTag}
use computer_systems_project.Malloc.Ranges.{Range, Disjoint, Apart, remove_range}
use computer_systems_project.Malloc.Implicit.{TagMap, wsize}
use computer_systems_project.Malloc.Implicit.Spec.{
  Laid, IsBlock, after, words, in_use, carve, split, first_fit, fits, payload, payloads,
  note_payload,
}
use computer_systems_project.Malloc.Implicit.Place.{first_here, first_there, fits_size}

abbrev pub Occurs : Range → List Range → Type 0
Occurs p [] = ⊥
Occurs p (r ∷ rs) = (p ≡ r) ⊎ Occurs p rs

pub All-Occurs : (P : Range → Type 0) (p : Range) (rs : List Range) → All P rs → Occurs p rs → P p
All-Occurs P p [] h o = absurd o
All-Occurs P p (r ∷ rs) h (inl e) = subst P (sym e) h.0
All-Occurs P p (r ∷ rs) h (inr o) = All-Occurs P p rs h.1 o

Apart-sym : (p q : Range) → Apart p q → Apart q p
Apart-sym p q (inl l) = inr l
Apart-sym p q (inr l) = inl l

-- Two of the payloads are apart if they start at different addresses.
pub Occurs-Apart :
    (p q : Range) (rs : List Range)
    → Disjoint rs
    → Occurs p rs
    → Occurs q rs
    → p.lo ≢ q.lo
    → Apart p q
Occurs-Apart p q [] d o o' ne = absurd o
Occurs-Apart p q (r ∷ rs) d (inl e) (inl f) ne = absurd (ne (ap (λ (c : Range). c.lo) (e ∙ sym f)))
Occurs-Apart p q (r ∷ rs) d (inl e) (inr o') ne =
    subst (λ c. Apart c q) (sym e) (All-Occurs (Apart r) q rs d.1 o')
Occurs-Apart p q (r ∷ rs) d (inr o) (inl f) ne =
    Apart-sym q p (subst (λ c. Apart c p) (sym f) (All-Occurs (Apart r) p rs d.1 o))
Occurs-Apart p q (r ∷ rs) d (inr o) (inr o') ne = Occurs-Apart p q rs d.2 o o' ne

-- What is left after a removal was there before.
pub Occurs-before :
    (a : ℕ) (p : Range) (rs : List Range) → Occurs p (remove_range a rs) → Occurs p rs
unfolding remove_range
Occurs-before a p [] o = o
Occurs-before a p (r ∷ rs) o = kept (r.lo == a) (Occurs-before a p rs) o
  where
    kept :
        (b : Bool)
        → (Occurs p (remove_range a rs) → Occurs p rs)
        → Occurs p (if b then rs else r ∷ remove_range a rs)
        → Occurs p (r ∷ rs)
    kept true ih o = inr o
    kept false ih (inl e) = inl e
    kept false ih (inr o) = inr (ih o)

pub Occurs-after :
    (a : ℕ) (p : Range) (rs : List Range) → Occurs p rs → p.lo ≢ a → Occurs p (remove_range a rs)
unfolding remove_range
Occurs-after a p [] o ne = o
Occurs-after a p (r ∷ rs) (inl e) ne =
    rw (==_false_of_ne r.lo a (subst (λ (c : Range). c.lo ≢ a) e ne)) (inl e)
Occurs-after a p (r ∷ rs) (inr o) ne = elim (Bool-cases (r.lo == a)) [
  | inl f ↦ rw f o
  | inr f ↦ rw f (inr (Occurs-after a p rs o ne))
]

-- The block of a payload in use.
abbrev pub IsBlockOf : TagMap → ℕ → List BoundaryTag → Range → ℕ → ℕ → Type 0
IsBlockOf t p bs r q k =
    (r ≡ payload q k)
    × (in_use q p bs ≡ true)
    × ((t q).size ≡ k)
    × (4 ≤ k)
    × (p ≤ q)
    × (q + wsize * k ≤ p + wsize * words bs)
    × (q % 16 ≡ p % 16)

-- A block further on.
block_behind :
    (t : TagMap) (p : ℕ) (b : BoundaryTag) (bs : List BoundaryTag) (r : Range)
    → IsBlock b
    → (q : ℕ) × (k : ℕ) × IsBlockOf t (after p b) bs r q k
    → (q : ℕ) × (k : ℕ) × IsBlockOf t p (b ∷ bs) r q k
block_behind t p b bs r block (q, k, (e, used, size, some_words, le, room, aligned)) = (
  q,
  k,
  (
    e,
    rw (==_false_of_ne p q (omega (arith, block, le))) used,
    size,
    some_words,
    omega (arith, le),
    omega (arith, room),
    omega (arith, aligned, block),
  ),
)

pub block_of :
    (t : TagMap) (p : ℕ) (bs : List BoundaryTag) (r : Range)
    → Laid t p bs
    → Occurs r (payloads p bs)
    → (q : ℕ) × (k : ℕ) × IsBlockOf t p bs r q k
block_of t p [] r h o = absurd o
block_of t p (b ∷ bs) r h o =
    by_use b.inuse refl (λ o'. block_behind t p b bs r h.0 (block_of t (after p b) bs r h.3 o')) o
  where
    by_use :
        (a : Bool)
        → b.inuse ≡ a
        → (Occurs r (payloads (after p b) bs) → (q : ℕ) × (k : ℕ) × IsBlockOf t p (b ∷ bs) r q k)
        → Occurs r (note_payload a p b.size (payloads (after p b) bs))
        → (q : ℕ) × (k : ℕ) × IsBlockOf t p (b ∷ bs) r q k
    by_use false e ih o = ih o
    by_use true e ih (inr o) = ih o
    by_use true e ih (inl f) = (
      p,
      b.size,
      (
        f,
        rw (==_refl p) e,
        ap (λ (c : BoundaryTag). c.size) h.1,
        (h.0).0,
        omega arith,
        omega arith,
        refl,
      ),
    )

note-Occurs :
    (a : Bool) (r : Range) (p n : ℕ) (rs : List Range)
    → Occurs r rs
    → Occurs r (note_payload a p n rs)
note-Occurs true r p n rs o = inr o
note-Occurs false r p n rs o = o

-- The payload of the block that is carved.
pub carve-Occurs :
    (n p q : ℕ) (bs : List BoundaryTag)
    → first_fit n p bs ≡ some q
    → (m : ℕ) × (n ≤ m) × Occurs (payload q m) (payloads p (carve n bs))
carve-Occurs n p q [] e = cc
carve-Occurs n p q (b ∷ bs) e = elim (Bool-cases (fits n b)) [
  | inl f ↦
      subst (λ r. (m : ℕ) × (n ≤ m) × Occurs (payload r m) (payloads p (carve n (b ∷ bs))))
        (first_here n p q b bs f e) (rw f (first (fits_size n b f)))
  | inr f ↦
      let (m, le, o) = carve-Occurs n (after p b) q bs (first_there n p q b bs f e) in
      rw f (m, le, note-Occurs b.inuse (payload q m) p b.size (payloads (after p b) (carve n bs)) o)
]
  where
    first : n ≤ b.size → (m : ℕ) × (n ≤ m) × Occurs (payload p m) (payloads p (split n b.size bs))
    first le = elim (Bool-cases (leb 4 (b.size - n))) [
      | inl g ↦ rw g (n, omega arith, inl refl)
      | inr g ↦ rw g (b.size, le, inl refl)
    ]
