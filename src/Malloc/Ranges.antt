-- ===== src/Malloc/Ranges.antt =====
-- mdriver.c: the range list, by which the driver detects payloads that overlap.
use computer_systems_project.Base.{
  ℕ, zero, suc, ◌+◌, ◌%◌, ◌≤◌, ◌<◌, inl, inr, ◌⊎◌, ◌≢◌, Bool, true, false, ◌&&◌, ◌||◌, not, Option,
  none, some, List, [], ◌∷◌, arith, ltb, leb, ◌==◌, if◌then◌else◌, ℤ, pos, negsuc, All, Bool-cases,
  ne_of_==, eq_of_==, ==_false_of_ne, ◌≡◌, refl, ap, subst,
}
use computer_systems_project.Malloc.Memlib.{Mem, mem_heap_lo, mem_heap_hi}

-- range_t, without its link
pub record Range : Type 0 where
  pub lo : ℕ
  pub hi : ℕ

abbrev pub alignment : ℕ
alignment = 16

unfoldable pub is_aligned : ℕ → Bool
is_aligned p = p % alignment == 0

-- The test of add_range against one payload.
unfoldable pub overlaps : ℕ → ℕ → Range → Bool
overlaps lo hi p = (leb p.lo lo && leb lo p.hi) || (leb p.lo hi && leb hi p.hi)

unfoldable pub overlaps_any : ℕ → ℕ → List Range → Bool
unfolding overlaps
overlaps_any lo hi [] = false
overlaps_any lo hi (p ∷ ps) = overlaps lo hi p || overlaps_any lo hi ps

unfoldable pub outside_heap : Mem → ℕ → ℕ → Bool
outside_heap m lo hi =
    (ltb lo (mem_heap_lo m) || ltb (mem_heap_hi m) lo)
    || (ltb hi (mem_heap_lo m) || ltb (mem_heap_hi m) hi)

-- add_range, for a payload address and an `int` size: `none` where the assertion, in a
-- build that has it, fails, and otherwise the value returned, with the list. `check` is check_heap_bounds.
unfoldable pub add_range : Bool → Mem → ℕ → ℤ → List Range → Option (Bool × List Range)
unfolding is_aligned overlaps_any outside_heap
add_range check m lo (negsuc n) ranges = none
add_range check m lo (pos zero) ranges = none
add_range check m lo (pos (suc n)) ranges = some (
    if not (is_aligned lo)
    then (false, ranges)
    else if check && outside_heap m lo (lo + n)
    then (false, ranges)
    else if overlaps_any lo (lo + n) ranges
    then (false, ranges)
    else (true, record { lo = lo; hi = lo + n } ∷ ranges))

unfoldable pub remove_range : ℕ → List Range → List Range
remove_range lo [] = []
remove_range lo (p ∷ ps) = if p.lo == lo then ps else p ∷ remove_range lo ps

abbrev pub clear_ranges : List Range → List Range
clear_ranges ranges = []

-- No address is in both.
abbrev pub Apart : Range → Range → Type 0
Apart p q = (p.hi < q.lo) ⊎ (q.hi < p.lo)

-- The payloads are not empty, and no two of them have an address in common.
abbrev pub Disjoint : List Range → Type 0
Disjoint [] = Unit
Disjoint (p ∷ ps) = (p.lo ≤ p.hi) × All (Apart p) ps × Disjoint ps

-- The new payload does not reach beyond an old one on both sides.
abbrev pub NotAround : ℕ → ℕ → Range → Type 0
NotAround lo hi p = (p.lo ≤ lo) ⊎ (hi ≤ p.hi)

disjoint-All :
    (lo hi : ℕ) (ps : List Range)
    → lo ≤ hi
    → All (NotAround lo hi) ps
    → overlaps_any lo hi ps ≡ false
    → All (Apart (record { lo = lo; hi = hi })) ps
unfolding overlaps_any overlaps
disjoint-All lo hi [] le around e = tt
disjoint-All lo hi (p ∷ ps) le (a, around) e =
    (ground arith, disjoint-All lo hi ps le around (ground arith))

-- Where the recorded payloads are disjoint and the new payload does not enclose one of them, a
-- payload that add_range accepts is aligned, and the recorded payloads stay disjoint.
pub add_range-Disjoint :
    (check : Bool) (m : Mem) (lo n : ℕ) (ranges new : List Range)
    → Disjoint ranges
    → All (NotAround lo (lo + n)) ranges
    → add_range check m lo (pos (suc n)) ranges ≡ some (true, new)
    → (lo % alignment ≡ 0) × Disjoint new
unfolding add_range is_aligned outside_heap
add_range-Disjoint check m lo n ranges new d around e =
    ground (arith, disjoint-All lo (lo + n) ranges (omega arith) around)

-- Without the check of the heap's bounds, an aligned payload that reaches beyond the only recorded
-- one on both sides is accepted, though they overlap.
pub add_range-enclosing :
    (m : Mem) (lo n : ℕ) (p : Range)
    → lo % alignment ≡ 0
    → lo < p.lo
    → p.hi < lo + n
    → add_range false m lo (pos (suc n)) (p ∷ [])
      ≡ some (true, record { lo = lo; hi = lo + n } ∷ p ∷ [])
unfolding add_range is_aligned overlaps_any overlaps outside_heap
add_range-enclosing m lo n p aligned below above = ground arith

without-Apart :
    (q : Range) (lo : ℕ) (ps : List Range) → All (Apart q) ps → All (Apart q) (remove_range lo ps)
unfolding remove_range
without-Apart q lo [] a = tt
without-Apart q lo (p ∷ ps) a = elim (Bool-cases (p.lo == lo)) [
  | inl e ↦ rw e a.1
  | inr e ↦ rw e (a.0, without-Apart q lo ps a.1)
]

others_start :
    (q : Range) (ps : List Range)
    → q.lo ≤ q.hi
    → All (Apart q) ps
    → Disjoint ps
    → All (λ p. p.lo ≢ q.lo) ps
others_start q [] le a d = tt
others_start q (p ∷ ps) le a d = (ground (arith, a.0, d.0), others_start q ps le a.1 d.2)

-- The payloads that do not start at `lo`, in order.
abbrev pub starts_elsewhere : ℕ → List Range → List Range
starts_elsewhere lo [] = []
starts_elsewhere lo (p ∷ ps) =
    if p.lo == lo then starts_elsewhere lo ps else p ∷ starts_elsewhere lo ps

all_elsewhere : (lo : ℕ) (ps : List Range) → All (λ p. p.lo ≢ lo) ps → ps ≡ starts_elsewhere lo ps
all_elsewhere lo [] h = refl
all_elsewhere lo (p ∷ ps) (ne, h) =
    rw (==_false_of_ne p.lo lo ne) (ap (λ l. p ∷ l) (all_elsewhere lo ps h))

-- In disjoint payloads, remove_range drops just those that start at the given address, though it
-- stops at the first: all others stay, in order, and those that stay are disjoint.
pub remove_range-Disjoint :
    (lo : ℕ) (ranges : List Range)
    → Disjoint ranges
    → (remove_range lo ranges ≡ starts_elsewhere lo ranges)
      × Disjoint (remove_range lo ranges)
      × All (λ p. p.lo ≢ lo) (remove_range lo ranges)
unfolding remove_range
remove_range-Disjoint lo [] d = (refl, tt, tt)
remove_range-Disjoint lo (p ∷ ps) (le, a, d) = elim (Bool-cases (p.lo == lo)) [
  | inl e ↦
      let elsewhere : All (λ q. q.lo ≢ lo) ps =
        subst (λ x. All (λ q. q.lo ≢ x) ps) (eq_of_== p.lo lo e) (others_start p ps le a d) in
      rw e (all_elsewhere lo ps elsewhere, d, elsewhere)
  | inr e ↦
      let (same, rest, none_left) = remove_range-Disjoint lo ps d in
      rw e
        (ap (λ l. p ∷ l) same, (le, without-Apart p lo ps a, rest), (ne_of_== p.lo lo e, none_left))
]
