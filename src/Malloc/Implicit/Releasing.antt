-- ===== src/Malloc/Implicit/Releasing.antt =====
-- The contract of mdriver.c for mm_free of mm-gback-implicit.c, and for writes into payloads.
use computer_systems_project.Base.{
  ℕ, ◌+◌, ◌%◌, ◌≡◌, ◌∙◌, refl, sym, ap, subst, Option, none, some, true, List,
}
use computer_systems_project.Malloc.Memlib.{Mem}
use computer_systems_project.Malloc.Blocks.{BoundaryTag}
use computer_systems_project.Malloc.Ranges.{Range, remove_range}
use computer_systems_project.Malloc.Driver.Contract.{KeepsLive}
use computer_systems_project.Malloc.Implicit.{ImplicitHeap, wsize, mm_free}
use computer_systems_project.Malloc.Implicit.Spec.{
  in_use, Represents, payloads, free_blocks, mark_free,
}
use computer_systems_project.Malloc.Implicit.Refinement.{mm_free-free_blocks}
use computer_systems_project.Malloc.Implicit.Payloads.{payloads-collapse, payloads-mark_free}
use computer_systems_project.Malloc.Implicit.Occurs.{Occurs, Occurs-after, block_of}
use computer_systems_project.Malloc.Implicit.Allocator.{
  implicit_allocator, HeapInv, InUse, in_sequence,
}

pub mm_free-mem : (p : Option ℕ) (s : ImplicitHeap) → (mm_free p s).mem ≡ s.mem
unfolding mm_free
mm_free-mem none s = refl
mm_free-mem (some p) s = refl

-- A write into payloads leaves the sequence as it is.
rewritten :
    (f : ℕ → ℕ) (s : ImplicitHeap) (bs : List BoundaryTag)
    → Represents s bs
    → Represents (record s { bytes = f }) bs
rewritten f s bs h = record {
  prologue = h.prologue;
  laid = h.laid;
  merged = h.merged;
  first = h.first;
  brk = h.brk;
  low = h.low;
  small = h.small;
}

pub written-HeapInv : (f : ℕ → ℕ) (s : ImplicitHeap) → HeapInv s → HeapInv (record s { bytes = f })
written-HeapInv f s (bs, h, aligned) = (bs, rewritten f s bs h, aligned)

pub written-InUse :
    (f : ℕ → ℕ) (s : ImplicitHeap) (p : Range) → InUse s p → InUse (record s { bytes = f }) p
written-InUse f s p (bs, h, o) = (bs, rewritten f s bs h, o)

-- mm_free of a payload in use keeps the others, and their data.
pub implicit-free_law :
    (p : Range) (s : ImplicitHeap)
    → HeapInv s
    → InUse s p
    → HeapInv (mm_free (some p.lo) s)
      × KeepsLive implicit_allocator InUse (some p.lo) s (mm_free (some p.lo) s)
implicit-free_law p s (bs, h, aligned) live =
    let o = in_sequence s bs p h live in
    let (q, k, (e, used, _, _, _, _, _)) = block_of s.tags s.heap_listp bs p h.laid o in
    subst
      (λ (r : Range).
        HeapInv (mm_free (some r.lo) s)
        × KeepsLive implicit_allocator InUse (some r.lo) s (mm_free (some r.lo) s))
      (sym e) (freed_block q k used)
  where
    freed_block :
        (q k : ℕ)
        → in_use q s.heap_listp bs ≡ true
        → let s' = mm_free (some (q + wsize)) s in
          HeapInv s' × KeepsLive implicit_allocator InUse (some (q + wsize)) s s'
    freed_block q k used =
        let s' = mm_free (some (q + wsize)) s in
        let (rep, same, bytes) = mm_free-free_blocks q s bs used h in
        let cs = free_blocks q s.heap_listp bs in
        let start : s'.mem.mem_start_brk % 16 ≡ 0 =
          ap (λ (m : Mem). m.mem_start_brk % 16) (mm_free-mem (some (q + wsize)) s) ∙ aligned in
        let left : payloads s'.heap_listp cs ≡ remove_range (q + wsize) (payloads s.heap_listp bs) =
          ap (λ a. payloads a cs) same
          ∙ payloads-collapse s.heap_listp (mark_free q s.heap_listp bs)
          ∙ payloads-mark_free q s.heap_listp bs used in
        (
          (cs, rep, start),
          λ r live' ne. (
            (
              cs,
              rep,
              subst (Occurs r) (sym left) (
                  Occurs-after (q + wsize) r (payloads s.heap_listp bs) (in_sequence s bs r h live')
                    (λ f. ne (ap some (sym f)))),
            ),
            λ b w. ap (λ g. g b) bytes,
          ),
        )
