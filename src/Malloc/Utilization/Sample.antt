-- ===== src/Malloc/Utilization/Sample.antt =====
-- eval_mm_util of mdriver.c with the allocator of mm-gback-implicit.c.
use computer_systems_project.Base.{
  ℕ, ◌+◌, ◌%◌, ◌≡◌, refl, sym, ap, subst, inl, inr, ◌⊎◌, Bool, List, [], ◌∷◌, arith, ℤ, pos,
}
use computer_systems_project.Run.{Outcome, done, exited, and_then, pure}
use computer_systems_project.Malloc.Memlib.{max_heap, mem_reset_brk}
use computer_systems_project.Malloc.Driver.{Driver, TraceOp}
use computer_systems_project.Malloc.Driver.Valid.{none_live}
use computer_systems_project.Malloc.Implicit.{ImplicitHeap, mm_init, chunksize}
use computer_systems_project.Malloc.Implicit.Spec.{free_block}
use computer_systems_project.Malloc.Implicit.Allocator.{implicit_allocator}
use computer_systems_project.Malloc.Implicit.Lawful.{implicit_lawful}
use computer_systems_project.Malloc.Implicit.Init.{mm_init-Represents}
use computer_systems_project.Malloc.Utilization.{Sizes, count_ops, init_or_exit, eval_mm_util}
use computer_systems_project.Malloc.Utilization.Tallies.{Tallies}
use computer_systems_project.Malloc.Utilization.Peak.{
  peak, sizes, size_of, OpsFit, Peaks, StopsRefused, count_ops-Peaks,
}

abbrev Util : Type 0
Util = Outcome (Driver ImplicitHeap) ℤ

module _ (scale : ℤ → ℤ) where
  -- The heap after mm_init, in the driver that runs the trace.
  abbrev pub from_init : Driver ImplicitHeap → Driver ImplicitHeap
  from_init d =
      let s : ImplicitHeap = record d.heap { mem = mem_reset_brk d.heap.mem } in
      record d { heap = (mm_init s).1 }

  abbrev report : Outcome (Driver ImplicitHeap) Sizes → Util
  report r = and_then r (λ z. pure z.max_total_size)

  -- The run of the operations from mm_init on stops in the first request that gets no memory, and
  -- so does the whole run, or the result is `most`.
  abbrev pub Reports : List TraceOp → Driver ImplicitHeap → ℕ → Util → Type 0
  Reports ops d most r =
      ((t : Driver ImplicitHeap) × (r ≡ exited 1 t)
        × StopsRefused implicit_lawful scale ops (sizes 0 0) (from_init d) (exited 1 t))
      ⊎ ((t : Driver ImplicitHeap) × (r ≡ done (pos most) t))

  stops-exited :
      (ops : List TraceOp) (z : Sizes) (d : Driver ImplicitHeap)
      (r : Outcome (Driver ImplicitHeap) Sizes)
      → StopsRefused implicit_lawful scale ops z d r
      → (t : Driver ImplicitHeap) × (r ≡ exited 1 t)
  stops-exited [] z d r h = absurd h
  stops-exited (op ∷ ops) z d r (inl (s, refused, e)) = (record d { heap = s }, e)
  stops-exited (op ∷ ops) z d r (inr (z', d', ran, h)) = stops-exited ops z' d' r h

  report-Reports :
      (ops : List TraceOp) (d : Driver ImplicitHeap) (most : ℕ)
      (r : Outcome (Driver ImplicitHeap) Sizes)
      → Peaks implicit_lawful scale ops (sizes 0 0) (from_init d) most r
      → Reports ops d most (report r)
  report-Reports ops d most r (inl h) =
      let (t, e) = stops-exited ops (sizes 0 0) (from_init d) r h in
      inl (
        t,
        ap report e,
        subst (StopsRefused implicit_lawful scale ops (sizes 0 0) (from_init d)) e h,
      )
  report-Reports ops d most r (inr (t, total, e)) = inr (t, ap report e)

  -- eval_mm_util with the sample allocator returns the largest number of payload bytes that are in
  -- use at one time after some operation of the trace, unless a request of an operation gets no
  -- memory after all those before it were run: then it ends the program with status 1 there. The
  -- heap starts at a multiple of 16, its largest address is 1 GB above, and the trace frees and
  -- resizes only what is in use, with sizes from 1 to 2^31 - 25.
  pub eval_mm_util-Reports :
      (ops : List TraceOp) (d : Driver ImplicitHeap)
      → d.heap.mem.mem_start_brk % 16 ≡ 0
      → d.heap.mem.mem_max_addr ≡ d.heap.mem.mem_start_brk + max_heap
      → OpsFit implicit_lawful scale none_live ops
      → Reports ops d
          (peak (size_of implicit_lawful scale) ops [] 0)
          (eval_mm_util implicit_allocator scale ops d)
  unfolding eval_mm_util mem_reset_brk
  eval_mm_util-Reports ops d aligned most fits =
      let s : ImplicitHeap = record d.heap { mem = mem_reset_brk d.heap.mem } in
      let (ok, rep, first) = mm_init-Represents s (refl, most) in
      let d' : Driver ImplicitHeap = record d { heap = (mm_init s).1 } in
      let count = count_ops implicit_allocator scale ops (sizes 0 0) in
      let largest = peak (size_of implicit_lawful scale) ops [] 0 in
      let run : Bool → Util =
        λ b. report (and_then (init_or_exit implicit_allocator scale b d') (λ _. count)) in
      let inv : implicit_lawful.Inv d'.heap =
        (free_block chunksize ∷ [], rep, omega (arith, first, rep.first, aligned)) in
      subst (Reports ops d largest) (sym (ap run ok)) (
        report-Reports ops d largest (count d') (
          count_ops-Peaks implicit_lawful scale ops none_live 0 [] d' (started d' inv) (omega arith)
            fits))
    where
      started :
          (d' : Driver ImplicitHeap)
          → implicit_lawful.Inv d'.heap
          → Tallies implicit_lawful none_live [] d'
      started d' inv = record {
        inv = inv;
        owned = λ i e. cc e;
        distinct = λ i k e f. cc e;
        sized = λ i e. cc e;
      }
