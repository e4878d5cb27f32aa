-- ===== src/Malloc/Implicit/Moving.antt =====
-- The contract of mdriver.c for mm_realloc of mm-gback-implicit.c.
use computer_systems_project.Base.{
  ℕ, ◌+◌, ◌-◌, ◌*◌, ◌^◌, ◌≤◌, ◌<◌, ◌≡◌, ◌≢◌, ◌⊎◌, ◌∙◌, sym, ap, subst, ◌&&◌, Option, none, some,
  arith, ltb, leb, if◌then◌else◌, ==_false_of_ne,
}
use computer_systems_project.Run.{done}
use computer_systems_project.Malloc.Memlib.{Mem, mem_heap_lo, mem_heap_hi}
use computer_systems_project.Malloc.Ranges.{Range}
use computer_systems_project.Malloc.Driver.Contract.{KeepsLive, IsNew, Grants, Moves, Copies}
use computer_systems_project.Malloc.Implicit.{
  ImplicitHeap, wsize, blk_size, mm_malloc, mm_free, mm_realloc, memcpy, moved, copy_size,
}
use computer_systems_project.Malloc.Implicit.Occurs.{block_of}
use computer_systems_project.Malloc.Implicit.Allocator.{
  implicit_allocator, returned, HeapInv, InUse, in_sequence,
}
use computer_systems_project.Malloc.Implicit.Granting.{implicit-malloc_law}
use computer_systems_project.Malloc.Implicit.Releasing.{
  mm_free-mem, written-HeapInv, written-InUse, implicit-free_law,
}

-- What memcpy writes.
abbrev copied : ℕ → ℕ → ℕ → (ℕ → ℕ) → ℕ → ℕ
copied to from n bytes q = if leb to q && ltb q (to + n) then bytes (from + (q - to)) else bytes q

copied-within :
    (to from n j : ℕ) (bytes : ℕ → ℕ) → j < n → copied to from n bytes (to + j) ≡ bytes (from + j)
copied-within to from n j bytes l = inside ∙ ap (λ k. bytes (from + k)) (omega arith)
  where
    inside : copied to from n bytes (to + j) ≡ bytes (from + ((to + j) - to))
    inside = ground arith

copied-beyond :
    (to from n q : ℕ) (bytes : ℕ → ℕ) → (q < to) ⊎ (to + n ≤ q) → copied to from n bytes q ≡ bytes q
copied-beyond to from n q bytes h = ground arith

-- The size that is copied: the smaller one of the request and the old payload.
copy_size-bounds :
    (n k : ℕ)
    → 4 ≤ k
    → wsize * k < 2 ^ 64
    → (copy_size n k ≤ n) × ((j : ℕ) → j < n → j + 8 < wsize * k → j < copy_size n k)
unfolding copy_size
copy_size-bounds n k some_words low = (ground arith, λ j l m. ground arith)

-- The words of the block of a payload in use.
old_words :
    (s : ImplicitHeap) (p : Range)
    → HeapInv s
    → InUse s p
    → let k = blk_size s.tags (p.lo - wsize) in
      (4 ≤ k) × (wsize * k < 2 ^ 64) × (p.hi + 9 ≡ p.lo + wsize * k)
old_words s p (bs, h, aligned) live =
    let o = in_sequence s bs p h live in
    let (q, k, (e, _, size, some_words, le, room, _)) =
      block_of s.tags s.heap_listp bs p h.laid o in
    let lo : p.lo ≡ q + wsize = ap (λ (r : Range). r.lo) e in
    let hi : p.hi ≡ (q + wsize * k) - wsize - 1 = ap (λ (r : Range). r.hi) e in
    let found : blk_size s.tags (p.lo - wsize) ≡ k =
      ap (λ b. (s.tags b).size) (omega (arith, lo)) ∙ size in
    (
      omega (arith, found, some_words),
      omega (arith, found, room, h.brk, h.first, h.low, h.small),
      omega (arith, found, lo, hi, some_words),
    )

module _ (n a : ℕ) (old p : Range) (s s' : ImplicitHeap) (inv : HeapInv s') (live : InUse s old)
    (new : IsNew implicit_allocator InUse none a n s s' p) (positive : 0 < n) where
  abbrev m : ℕ
  m = copy_size n (blk_size s'.tags (old.lo - wsize))

  abbrev s₁ : ImplicitHeap
  s₁ = record s' { bytes = copied a old.lo m s'.bytes }

  abbrev s₂ : ImplicitHeap
  s₂ = mm_free (some old.lo) s₁

  live' : InUse s' old
  live' = (new.7 old live (cc)).0

  released : HeapInv s₂ × KeepsLive implicit_allocator InUse (some old.lo) s₁ s₂
  released =
      let f = copied a old.lo m s'.bytes in
      implicit-free_law old s₁ (written-HeapInv f s' inv) (written-InUse f s' old live')

  not_old : some old.lo ≢ some p.lo
  not_old e =
      let same : old.lo ≡ p.lo = cc e in
      let (some_words, _, size) = old_words s' old inv live' in
      let apart = new.6 old live (cc) in
      ground (arith, same, apart, size, some_words, new.1, new.2, positive)

  p_in_use : InUse s₁ p
  p_in_use = written-InUse (copied a old.lo m s'.bytes) s' p new.0

  -- The copy does not reach beyond the new payload.
  others_kept : KeepsLive implicit_allocator InUse (some old.lo) s s₂
  others_kept q live_q ne =
      let (there, same) = new.7 q live_q (cc) in
      let (there₂, same₂) =
        released.1 q (written-InUse (copied a old.lo m s'.bytes) s' q there) ne in
      let (some_words, low, _) = old_words s' old inv live' in
      let most = (copy_size-bounds n (blk_size s'.tags (old.lo - wsize)) some_words low).0 in
      let apart = new.6 q live_q (cc) in
      (
        there₂,
        λ b w.
            same₂ b w
            ∙ copied-beyond a old.lo m b s'.bytes
                (ground (arith, apart, w.0, w.1, new.1, new.2, most))
            ∙ same b w,
      )

  copies : Copies implicit_allocator InUse n old s a s₂
  copies j l within =
      let (_, same) = new.7 old live (cc) in
      let (some_words, low, size) = old_words s' old inv live' in
      let enough = (copy_size-bounds n (blk_size s'.tags (old.lo - wsize)) some_words low).1 in
      (released.1 p p_in_use not_old).1 (a + j) (omega (arith, new.1), omega (arith, new.2, l))
      ∙ copied-within a old.lo m j s'.bytes (enough j l (omega (arith, size, within)))
      ∙ same (old.lo + j) (omega arith, within)

  moves : HeapInv s₂ × Moves implicit_allocator InUse n old s (some a) s₂
  moves =
      let mem = mm_free-mem (some old.lo) s₁ in
      (
        released.0,
        (
          p,
          (
            (released.1 p p_in_use not_old).0,
            new.1,
            new.2,
            new.3,
            subst (λ (x : Mem). mem_heap_lo x ≤ a) (sym mem) new.4,
            subst (λ (x : Mem). p.hi ≤ mem_heap_hi x) (sym mem) new.5,
            λ q live_q ne. new.6 q live_q (cc),
            others_kept,
          ),
          copies,
        ),
      )

returned-some :
    (s : ImplicitHeap) (o : Option (Option ℕ × ImplicitHeap)) (r : Option ℕ) (s' : ImplicitHeap)
    → returned s o ≡ done r s'
    → o ≡ some (r, s')
returned-some s none r s' e = cc
returned-some s (some (x, y)) r s' e = cc

realloc_run :
    (n p : ℕ) (s : ImplicitHeap) (r : Option ℕ × ImplicitHeap)
    → 0 < n
    → mm_malloc n s ≡ some r
    → mm_realloc (some p) n s ≡ some (moved p n r)
unfolding mm_realloc
realloc_run n p s r positive e = rw (==_false_of_ne n 0 (omega (arith, positive))) (
    ap
      (λ (o : Option (Option ℕ × ImplicitHeap)). elim o [
        | none ↦ none
        | some r ↦ some (moved p n r)
      ])
      e)

-- mm_realloc to a positive size returns, and what it gives has the old data.
pub implicit-realloc_law :
    (n : ℕ) (old : Range) (s : ImplicitHeap)
    → HeapInv s
    → InUse s old
    → 0 < n
    → n + 24 < 2 ^ 31
    → (r : Option ℕ) × (s' : ImplicitHeap) × (returned s (mm_realloc (some old.lo) n s) ≡ done r s')
      × HeapInv s'
      × Moves implicit_allocator InUse n old s r s'
unfolding moved memcpy
implicit-realloc_law n old s inv live positive low =
    let (r, s', run, inv', grant) = implicit-malloc_law n s inv positive low in
    let moved_run =
      realloc_run n old.lo s (r, s') positive (returned-some s (mm_malloc n s) r s' run) in
    after r s' (ap (returned s) moved_run) inv' grant
  where
    after :
        (r : Option ℕ) (s' : ImplicitHeap)
        → returned s (mm_realloc (some old.lo) n s) ≡ returned s (some (moved old.lo n (r, s')))
        → HeapInv s'
        → Grants implicit_allocator InUse n s r s'
        → (r : Option ℕ) × (s' : ImplicitHeap) × (returned s (mm_realloc (some old.lo) n s)
            ≡ done r s')
          × HeapInv s'
          × Moves implicit_allocator InUse n old s r s'
    after none s' run inv' grant = (none, s', run, inv', tt)
    after (some a) s' run inv' (p, new) =
        let (inv₂, moves₂) = moves n a old p s s' inv' live new positive in
        (some a, s₂ n a old p s s' inv' live new positive, run, inv₂, moves₂)
