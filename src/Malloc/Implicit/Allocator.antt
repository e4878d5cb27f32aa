-- ===== src/Malloc/Implicit/Allocator.antt =====
-- The allocator of mm-gback-implicit.c as mdriver.c calls it, its invariant, and its payloads in use.
use computer_systems_project.Base.{
  ℕ, ◌%◌, ◌≡◌, ◌∙◌, refl, sym, ap, subst, Option, none, some, List, [], ◌∷◌, arith,
}
use computer_systems_project.Run.{Outcome, done, blocked}
use computer_systems_project.Malloc.Blocks.{BoundaryTag}
use computer_systems_project.Malloc.Ranges.{Range, Disjoint}
use computer_systems_project.Malloc.Driver.{Allocator}
use computer_systems_project.Malloc.Implicit.{
  TagMap, ImplicitHeap, mm_init, mm_malloc, mm_free, mm_realloc,
}
use computer_systems_project.Malloc.Implicit.Spec.{Laid, Represents, after, payloads}
use computer_systems_project.Malloc.Implicit.Extend.{Laid-All}
use computer_systems_project.Malloc.Implicit.Payloads.{payloads-Disjoint}
use computer_systems_project.Malloc.Implicit.Occurs.{Occurs}

-- The walk of find_fit ends; were it not to end, the call would not return.
abbrev pub returned :
    ImplicitHeap → Option (Option ℕ × ImplicitHeap) → Outcome ImplicitHeap (Option ℕ)
returned s none = blocked s
returned s (some r) = done r.0 r.1

abbrev pub implicit_allocator : Allocator ImplicitHeap
implicit_allocator = record {
  mm_init = λ s. let r = mm_init s in done r.0 r.1;
  mm_malloc = λ n s. returned s (mm_malloc n s);
  mm_free = λ p s. done tt (mm_free p s);
  mm_realloc = λ p n s. returned s (mm_realloc p n s);
  mem_of = λ s. s.mem;
  with_mem = λ m s. record s { mem = m };
  bytes_of = λ s. s.bytes;
  with_bytes = λ f s. record s { bytes = f };
}

-- The tags describe one sequence only.
Laid-unique : (t : TagMap) (p : ℕ) (bs cs : List BoundaryTag) → Laid t p bs → Laid t p cs → bs ≡ cs
Laid-unique t p [] [] h k = refl
Laid-unique t p [] (c ∷ cs) h k =
    absurd (omega (arith, ap (λ (b : BoundaryTag). b.size) (sym h ∙ k.1), k.0))
Laid-unique t p (b ∷ bs) [] h k =
    absurd (omega (arith, ap (λ (b : BoundaryTag). b.size) (sym k ∙ h.1), h.0))
Laid-unique t p (b ∷ bs) (c ∷ cs) h k =
    let same : b ≡ c = sym h.1 ∙ k.1 in
    ap (λ d. d ∷ bs) same
    ∙ ap (λ ds. c ∷ ds)
        (Laid-unique t (after p b) bs cs h.3 (subst (λ d. Laid t (after p d) cs) (sym same) k.3))

abbrev pub HeapInv : ImplicitHeap → Type 0
HeapInv s = (bs : List BoundaryTag) × Represents s bs × (s.mem.mem_start_brk % 16 ≡ 0)

-- The payload of a block in use.
abbrev pub InUse : ImplicitHeap → Range → Type 0
InUse s p = (bs : List BoundaryTag) × Represents s bs × Occurs p (payloads s.heap_listp bs)

pub in_sequence :
    (s : ImplicitHeap) (bs : List BoundaryTag) (p : Range)
    → Represents s bs
    → InUse s p
    → Occurs p (payloads s.heap_listp bs)
in_sequence s bs p h (cs, k, o) =
    subst (λ ds. Occurs p (payloads s.heap_listp ds))
      (Laid-unique s.tags s.heap_listp cs bs k.laid h.laid) o

pub Disjoint-payloads :
    (s : ImplicitHeap) (bs : List BoundaryTag)
    → Represents s bs
    → Disjoint (payloads s.heap_listp bs)
Disjoint-payloads s bs h =
    payloads-Disjoint s.heap_listp bs (Laid-All s.tags s.heap_listp bs h.laid)
