-- ===== src/Malloc/Mm/Wrapping.antt =====
-- extend_heap: the size of the extension is converted to int.
use computer_systems_project.Base.{
  ℕ, ◌+◌, ◌*◌, ◌%◌, ◌^◌, ◌≤◌, ◌≡◌, refl, ap, ◌∙◌, false, some, arith, ltb, pos,
}
use computer_systems_project.LinkedList.{LinkedList}
use computer_systems_project.Run.{done}
use computer_systems_project.Malloc.Memlib.{Mem, mem_sbrk}
use computer_systems_project.Malloc.Blocks.{Heap, wsize, to_int}
use computer_systems_project.Malloc.Mm.{sbrk}

to_int-multiple : (n : ℕ) → n % 2 ^ 32 ≡ 0 → to_int n ≡ pos 0
unfolding to_int
to_int-multiple n h = rw h refl

mem_sbrk-zero : (m : Mem) → m.mem_brk ≤ m.mem_max_addr → mem_sbrk (pos 0) m ≡ (some m.mem_brk, m)
unfolding mem_sbrk
mem_sbrk-zero m low =
    let e : ltb m.mem_max_addr (m.mem_brk + 0) ≡ false = ground arith in
    rw e (ap (λ k. (some m.mem_brk, record m { mem_brk = k })) (omega arith))

module _ (L : LinkedList) where
  -- While the break is not above the largest legal address, a request for a multiple of 2^29
  -- words, which is a multiple of 2^32 bytes, is answered with the present break as the address of
  -- the new area, and the heap does not grow.
  pub sbrk-wraps :
      (words : ℕ) (s : Heap L.Handle)
      → words % 2 ^ 29 ≡ 0
      → s.mem.mem_brk ≤ s.mem.mem_max_addr
      → sbrk L (to_int (wsize * words)) s ≡ done (some s.mem.mem_brk) s
  unfolding sbrk
  sbrk-wraps words s h low =
      ap (λ z. sbrk L z s) (to_int-multiple (wsize * words) (omega (arith, h)))
      ∙ rw (mem_sbrk-zero s.mem low) refl
