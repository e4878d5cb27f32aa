-- ===== src/Malloc/Implicit/Granting.antt =====
-- The contract of mdriver.c for mm_malloc of mm-gback-implicit.c.
use computer_systems_project.Base.{
  ℕ, ◌+◌, ◌%◌, ◌^◌, ◌≤◌, ◌<◌, ◌≡◌, ◌≢◌, ◌∙◌, refl, sym, ap, subst, Option, none, some, List, arith,
  All,
}
use computer_systems_project.Run.{done}
use computer_systems_project.Malloc.Memlib.{mem_heap_lo, mem_heap_hi}
use computer_systems_project.Malloc.Blocks.{BoundaryTag}
use computer_systems_project.Malloc.Ranges.{Range, remove_range, remove_range-Disjoint, alignment}
use computer_systems_project.Malloc.Driver.Contract.{Grants}
use computer_systems_project.Malloc.Implicit.{ImplicitHeap, wsize, awords, mm_malloc}
use computer_systems_project.Malloc.Implicit.Spec.{
  Represents, carve, first_fit, payload, IsBlock, payloads, made_room, payload_of,
}
use computer_systems_project.Malloc.Implicit.Requests.{awords-bounds}
use computer_systems_project.Malloc.Implicit.Refinement.{Answers, refuses, mm_malloc-malloc_blocks}
use computer_systems_project.Malloc.Implicit.RoundTrip.{room_blocks}
use computer_systems_project.Malloc.Implicit.Payloads.{payloads-made_room, payloads-carve}
use computer_systems_project.Malloc.Implicit.Occurs.{
  Occurs, Occurs-Apart, Occurs-before, block_of, carve-Occurs, All-Occurs,
}
use computer_systems_project.Malloc.Implicit.Allocator.{
  implicit_allocator, returned, HeapInv, InUse, in_sequence, Disjoint-payloads,
}

-- A payload in use is aligned and lies in the heap.
pub in_heap :
    (s : ImplicitHeap) (bs : List BoundaryTag) (p : Range)
    → Represents s bs
    → s.mem.mem_start_brk % 16 ≡ 0
    → Occurs p (payloads s.heap_listp bs)
    → (p.lo % alignment ≡ 0)
      × (mem_heap_lo s.mem ≤ p.lo)
      × (p.hi ≤ mem_heap_hi s.mem)
      × (p.lo ≤ p.hi)
in_heap s bs p h aligned o =
    let (q, k, (e, _, _, some_words, le, room, same)) =
      block_of s.tags s.heap_listp bs p h.laid o in
    subst
      (λ (r : Range).
        (r.lo % alignment ≡ 0)
        × (mem_heap_lo s.mem ≤ r.lo)
        × (r.hi ≤ mem_heap_hi s.mem)
        × (r.lo ≤ r.hi))
      (sym e)
      (
        omega (arith, same, aligned, h.first),
        omega (arith, h.first, le),
        omega (arith, h.brk, room, some_words),
        omega (arith, some_words),
      )

-- What mm_malloc returned, in a heap in which room was made.
module _ (size a q : ℕ) (s s' : ImplicitHeap) (bs room : List BoundaryTag) (h : Represents s bs)
    (aligned : s'.mem.mem_start_brk % 16 ≡ 0) (rep : Represents s' (carve (awords size) room))
    (same : s'.heap_listp ≡ s.heap_listp) (bytes : s'.bytes ≡ s.bytes)
    (fit : first_fit (awords size) s.heap_listp room ≡ some q) (at : a ≡ q + wsize)
    (blocks : All IsBlock room) (kept : payloads s.heap_listp room ≡ payloads s.heap_listp bs)
    (low : size + 24 < 2 ^ 31) where
  abbrev new_payloads : List Range
  new_payloads = payloads s'.heap_listp (carve (awords size) room)

  -- The payloads but for the new one are those of before.
  others : remove_range (q + wsize) new_payloads ≡ payloads s.heap_listp bs
  others =
      ap (λ p. remove_range (q + wsize) (payloads p (carve (awords size) room))) same
      ∙ payloads-carve (awords size) s.heap_listp q room fit blocks
      ∙ kept

  was_there : (p : Range) → InUse s p → Occurs p (remove_range (q + wsize) new_payloads)
  was_there p o = subst (Occurs p) (sym others) (in_sequence s bs p h o)

  starts_elsewhere : (p : Range) → InUse s p → q + wsize ≢ p.lo
  starts_elsewhere p o e =
      All-Occurs (λ r. r.lo ≢ q + wsize) p (remove_range (q + wsize) new_payloads)
        (remove_range-Disjoint (q + wsize) new_payloads
          (Disjoint-payloads s' (carve (awords size) room) rep)).2
        (was_there p o) (sym e)

  granted : Grants implicit_allocator InUse size s (some a) s'
  granted =
      let (m, le, new) = carve-Occurs (awords size) s.heap_listp q room fit in
      let there =
        subst (λ p. Occurs (payload q m) (payloads p (carve (awords size) room))) (sym same) new in
      let (aligned_to, lo, hi, _) =
        in_heap s' (carve (awords size) room) (payload q m) rep aligned there in
      let (_, enough, _) = awords-bounds size (omega (arith, low)) in
      (
        payload q m,
        (
          (carve (awords size) room, rep, there),
          sym at,
          omega (arith, at, enough, le),
          subst (λ b. b % alignment ≡ 0) (sym at) aligned_to,
          subst (λ b. mem_heap_lo s'.mem ≤ b) (sym at) lo,
          hi,
          λ r o _.
              Occurs-Apart (payload q m) r new_payloads
                (Disjoint-payloads s' (carve (awords size) room) rep) there
                (Occurs-before (q + wsize) r new_payloads (was_there r o)) (starts_elsewhere r o),
          λ r o _. (
            (
              carve (awords size) room,
              rep,
              Occurs-before (q + wsize) r new_payloads (was_there r o),
            ),
            λ b w. ap (λ f. f b) bytes,
          ),
        ),
      )

granted_fit :
    (n : ℕ) (s : ImplicitHeap) (bs room : List BoundaryTag) (r : Option ℕ × ImplicitHeap)
    (o : Option ℕ)
    → Represents s bs
    → r.1.mem.mem_start_brk % 16 ≡ 0
    → Answers s (payload_of o, carve (awords n) room) r
    → first_fit (awords n) s.heap_listp room ≡ o
    → All IsBlock room
    → payloads s.heap_listp room ≡ payloads s.heap_listp bs
    → n + 24 < 2 ^ 31
    → Grants implicit_allocator InUse n s r.0 r.1
granted_fit n s bs room r none h aligned (at, rep, same, bytes) fit blocks kept low =
    subst (λ x. Grants implicit_allocator InUse n s x r.1) (sym at) tt
granted_fit n s bs room r (some q) h aligned (at, rep, same, bytes) fit blocks kept low =
    subst (λ x. Grants implicit_allocator InUse n s x r.1) (sym at)
      (granted n (q + wsize) q s r.1 bs room h aligned rep same bytes fit refl blocks kept low)

-- mm_malloc returns, and what it gives is new.
pub implicit-malloc_law :
    (n : ℕ) (s : ImplicitHeap)
    → HeapInv s
    → 0 < n
    → n + 24 < 2 ^ 31
    → (r : Option ℕ) × (s' : ImplicitHeap) × (returned s (mm_malloc n s) ≡ done r s')
      × HeapInv s'
      × Grants implicit_allocator InUse n s r s'
implicit-malloc_law n s (bs, h, aligned) positive low =
    let (r, run, answer) = mm_malloc-malloc_blocks n s bs (omega (arith, positive)) low h in
    let fit = first_fit (awords n) s.heap_listp bs in
    let room = made_room fit (refuses (awords n) s) (awords n) bs in
    let start : r.1.mem.mem_start_brk % 16 ≡ 0 =
      omega (arith, aligned, answer.2, h.first, answer.1.first) in
    let (blocks, _) = room_blocks n s bs h low in
    (
      r.0,
      r.1,
      ap (returned s) run,
      (carve (awords n) room, answer.1, start),
      granted_fit n s bs room r (first_fit (awords n) s.heap_listp room) h start answer refl blocks
          (payloads-made_room fit (refuses (awords n) s) (awords n) s.heap_listp bs) low,
    )
