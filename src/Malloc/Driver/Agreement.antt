-- ===== src/Malloc/Driver/Agreement.antt =====
-- The driver's records of the payloads agree with what the allocator has in use.
use computer_systems_project.Base.{
  ℕ, zero, suc, ◌+◌, ◌-◌, ◌%◌, ◌≤◌, ◌<◌, ◌≡◌, ◌≢◌, ◌∙◌, refl, sym, ap, subst, ◌⊎◌, Bool, true,
  false, Option, some, List, [], ◌∷◌, arith, All, pos,
}
use computer_systems_project.Malloc.Memlib.{Mem, mem_heap_lo, mem_heap_hi}
use computer_systems_project.Malloc.Ranges.{
  Range, Apart, Disjoint, alignment, is_aligned, overlaps, overlaps_any, outside_heap, add_range,
}
use computer_systems_project.Malloc.Driver.{Allocator, Driver, fill}
use computer_systems_project.Malloc.Driver.Contract.{Lawful, KeepsLive, IsNew}

abbrev pub range_of : ℕ → ℕ → Range
range_of a n = record { lo = a; hi = (a + n) - 1 }

no_overlap :
    (a n : ℕ) (rs : List Range)
    → 0 < n
    → All (Apart (range_of a n)) rs
    → Disjoint rs
    → overlaps_any a ((a + n) - 1) rs ≡ false
unfolding overlaps_any overlaps
no_overlap a n [] positive h d = refl
no_overlap a n (r ∷ rs) positive h d = ground (arith, h.0, d.0, no_overlap a n rs positive h.1 d.2)

-- add_range accepts an aligned payload in the heap that is apart from those recorded.
pub add_range-accepts :
    (check : Bool) (m : Mem) (a n : ℕ) (rs : List Range)
    → 0 < n
    → a % alignment ≡ 0
    → mem_heap_lo m ≤ a
    → (a + n) - 1 ≤ mem_heap_hi m
    → All (Apart (range_of a n)) rs
    → Disjoint rs
    → add_range check m a (pos n) rs ≡ some (true, range_of a n ∷ rs)
unfolding add_range is_aligned outside_heap
add_range-accepts check m a zero rs positive aligned lo hi apart d =
    absurd (omega (arith, positive))
add_range-accepts check m a (suc n) rs positive aligned lo hi apart d =
    ground (arith, no_overlap a (suc n) rs positive apart d)

module _ {S : Type 0} {A : Allocator S} (L : Lawful A) where
  -- A recorded payload is the start of one in use.
  abbrev pub Covered : S → Range → Type 0
  Covered s r = (p : Range) × L.Live s p × (p.lo ≡ r.lo) × (r.hi ≤ p.hi)

  -- The payload of an identifier: where it is, its size, and its data.
  abbrev pub Holds : S → Option ℕ → ℕ → ℕ → Type 0
  Holds s block n i =
      (p : Range) × L.Live s p
      × (block ≡ some p.lo)
      × (0 < n)
      × (p.lo + n ≤ suc p.hi)
      × ((j : ℕ) → j < n → A.bytes_of s (p.lo + j) ≡ i % 256)

  -- `live` are the identifiers of the trace that have a payload.
  pub record Agrees (live : ℕ → Bool) (d : Driver S) : Type 0 where
    pub inv : L.Inv d.heap
    pub disjoint : Disjoint d.ranges
    pub covered : All (Covered d.heap) d.ranges
    pub owned : (i : ℕ) → live i ≡ true → Holds d.heap (d.blocks i) (d.block_sizes i) i
    pub distinct : (i k : ℕ) → live i ≡ true → live k ≡ true → i ≢ k → d.blocks i ≢ d.blocks k

  pub keeps-Covered :
      (released : Option ℕ) (s s' : S) (rs : List Range)
      → KeepsLive A L.Live released s s'
      → All (λ r. released ≢ some r.lo) rs
      → All (Covered s) rs
      → All (Covered s') rs
  keeps-Covered released s s' [] keeps ne h = tt
  keeps-Covered released s s' (r ∷ rs) keeps ne ((p, live, lo, hi), hs) = (
    (p, (keeps p live (subst (λ a. released ≢ some a) (sym lo) ne.0)).0, lo, hi),
    keeps-Covered released s s' rs keeps ne.1 hs,
  )

  pub new-Apart :
      (released : Option ℕ) (a n : ℕ) (s s' : S) (p : Range) (rs : List Range)
      → 0 < n
      → IsNew A L.Live released a n s s' p
      → All (λ r. released ≢ some r.lo) rs
      → All (Covered s) rs
      → Disjoint rs
      → All (Apart (range_of a n)) rs
  new-Apart released a n s s' p [] positive new ne h d = tt
  new-Apart released a n s s' p (r ∷ rs) positive new ne ((q, live, lo, hi), hs) d =
      let apart = new.6 q live (subst (λ b. released ≢ some b) (sym lo) ne.0) in
      (
        ground (arith, apart, lo, hi, new.1, new.2, positive, d.0),
        new-Apart released a n s s' p rs positive new ne.1 hs d.2,
      )

  -- A write into the payload `p` leaves the data of the others.
  pub Holds-still :
      (released : Option ℕ) (a n v : ℕ) (s s' : S) (p : Range) (block : Option ℕ) (m i : ℕ)
      → 0 < n
      → IsNew A L.Live released a n s s' p
      → L.Inv s'
      → released ≢ block
      → Holds s block m i
      → Holds (A.with_bytes (fill a n v (A.bytes_of s')) s') block m i
  Holds-still released a n v s s' p block m i positive new inv ne
        (q, live, at, some_bytes, room, held) =
      let f = fill a n v (A.bytes_of s') in
      let (_, reads, lives, _) = L.write_law f s' inv in
      let elsewhere = subst (λ b. released ≢ b) at ne in
      let apart = new.6 q live elsewhere in
      let (live', same) = new.7 q live elsewhere in
      (
        q,
        lives q live',
        at,
        some_bytes,
        room,
        λ j l.
            ap (λ g. g (q.lo + j)) reads
            ∙ beyond (q.lo + j) (ground (arith, apart, new.1, new.2, room, l, positive))
            ∙ same (q.lo + j) (omega arith, omega (arith, room, l))
            ∙ held j l,
      )
    where
      beyond : (b : ℕ) → (b < a) ⊎ (a + n ≤ b) → fill a n v (A.bytes_of s') b ≡ A.bytes_of s' b
      beyond b h = ground arith

  -- The payload that is filled.
  pub Holds-new :
      (released : Option ℕ) (a n i : ℕ) (s s' : S) (p : Range)
      → 0 < n
      → IsNew A L.Live released a n s s' p
      → L.Inv s'
      → Holds (A.with_bytes (fill a n (i % 256) (A.bytes_of s')) s') (some a) n i
  Holds-new released a n i s s' p positive new inv =
      let f = fill a n (i % 256) (A.bytes_of s') in
      let (_, reads, lives, _) = L.write_law f s' inv in
      (
        p,
        lives p new.0,
        ap some (sym new.1),
        positive,
        omega (arith, new.1, new.2),
        λ j l.
            ap (λ g. g (p.lo + j)) reads
            ∙ within (p.lo + j) (omega (arith, new.1)) (omega (arith, new.1, l)),
      )
    where
      within : (b : ℕ) → a ≤ b → b < a + n → fill a n (i % 256) (A.bytes_of s') b ≡ i % 256
      within b lo hi = ground arith
