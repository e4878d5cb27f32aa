-- ===== src/Malloc/Speed/Calls.antt =====
-- The timed run of mdriver.c against the run that finds the peak of the payloads.
use computer_systems_project.Base.{
  ℕ, ◌≡◌, ◌∙◌, refl, ap, Bool, true, false, Option, none, some, List, [], ◌∷◌, ℤ, pos,
}
use computer_systems_project.Run.{Outcome, done, crash, exited, blocked, Command, and_then}
use computer_systems_project.Malloc.Memlib.{mem_reset_brk}
use computer_systems_project.Malloc.Driver.{
  OpType, alloc, free, realloc, TraceOp, Allocator, Driver, lift, at_least_zero,
}
use computer_systems_project.Malloc.Utilization.{
  minus, Sizes, count_alloc, count_realloc, count_type, count_ops, init_or_exit, eval_mm_util,
}
use computer_systems_project.Malloc.Speed.{
  keep_pointer, time_type, eval_mm_speed_inner, eval_mm_speed,
}

module _ {S : Type 0} (b : ℕ → ℕ) where
  abbrev pub with_sizes : Driver S → Driver S
  with_sizes d = record d { block_sizes = b }

  -- How a run ends, without its result, and with `b` for the sizes of the blocks.
  abbrev pub without_sizes : {B : Type 0} → Outcome (Driver S) B → Outcome (Driver S) (Unit {0})
  without_sizes (done r d) = done tt (with_sizes d)
  without_sizes crash = crash
  without_sizes (exited n d) = exited n (with_sizes d)
  without_sizes (blocked d) = blocked (with_sizes d)

  without_sizes-and_then :
      {B C : Type 0} (r : Outcome (Driver S) B) (k : B → Command (Driver S) C)
      (k' : Command (Driver S) (Unit {0}))
      → ((z : B) (d : Driver S) → without_sizes (k z d) ≡ k' (with_sizes d))
      → without_sizes (and_then r k) ≡ and_then (without_sizes r) (λ _. k')
  without_sizes-and_then (done z d) k k' same = same z d
  without_sizes-and_then crash k k' same = refl
  without_sizes-and_then (exited n d) k k' same = refl
  without_sizes-and_then (blocked d) k k' same = refl

  after_malloc :
      (index size : ℕ) (z : Sizes) (d : Driver S) (o : Outcome S (Option ℕ))
      → without_sizes (and_then (lift d o) (count_alloc index size z))
        ≡ and_then (lift (with_sizes d) o) (keep_pointer index)
  unfolding count_alloc keep_pointer
  after_malloc index size z d (done none s) = refl
  after_malloc index size z d (done (some p) s) = refl
  after_malloc index size z d crash = refl
  after_malloc index size z d (exited n s) = refl
  after_malloc index size z d (blocked s) = refl

  after_realloc :
      (index size : ℕ) (z : Sizes) (d : Driver S) (o : Outcome S (Option ℕ))
      → without_sizes (and_then (lift d o) (count_realloc index size z))
        ≡ and_then (lift (with_sizes d) o) (keep_pointer index)
  unfolding count_realloc keep_pointer
  after_realloc index size z d (done none s) = refl
  after_realloc index size z d (done (some p) s) = refl
  after_realloc index size z d crash = refl
  after_realloc index size z d (exited n s) = refl
  after_realloc index size z d (blocked s) = refl

  after_free :
      (k : Command (Driver S) Sizes) (d : Driver S) (o : Outcome S (Unit {0}))
      → ((e : Driver S) → without_sizes (k e) ≡ done tt (with_sizes e))
      → without_sizes (and_then (lift d o) (λ _. k)) ≡ lift (with_sizes d) o
  after_free k d (done tt s) same = same (record d { heap = s })
  after_free k d crash same = refl
  after_free k d (exited n s) same = refl
  after_free k d (blocked s) same = refl

  module _ (A : Allocator S) (scale : ℤ → ℤ) where
    count_type-time_type :
        (t : OpType) (index size : ℕ) (z : Sizes) (d : Driver S)
        → without_sizes (count_type A scale t index size z d)
          ≡ time_type A scale t index size (with_sizes d)
    unfolding count_type time_type
    count_type-time_type alloc index size z d =
        after_malloc index size z d (A.mm_malloc size d.heap)
    count_type-time_type realloc index size z d =
        after_realloc index size z d (A.mm_realloc (d.blocks index) size d.heap)
    count_type-time_type free index size z d =
        after_free (done (record z { total_size = minus z.total_size (d.block_sizes index) })) d
          (A.mm_free (d.blocks index) d.heap) (λ e. refl)

    count_ops-eval_mm_speed_inner :
        (ops : List TraceOp) (z : Sizes) (d : Driver S)
        → without_sizes (count_ops A scale ops z d) ≡ eval_mm_speed_inner A scale ops (with_sizes d)
    unfolding count_ops eval_mm_speed_inner
    count_ops-eval_mm_speed_inner [] z d = refl
    count_ops-eval_mm_speed_inner (op ∷ ops) z d =
        let size = at_least_zero (scale op.size) in
        without_sizes-and_then (count_type A scale op.type op.index size z d)
          (count_ops A scale ops) (eval_mm_speed_inner A scale ops)
          (λ z' d'. count_ops-eval_mm_speed_inner ops z' d')
        ∙ ap (λ r. and_then r (λ _. eval_mm_speed_inner A scale ops))
            (count_type-time_type op.type op.index size z d)

module _ {S : Type 0} (A : Allocator S) (scale : ℤ → ℤ) where
  abbrev initial : Sizes
  initial = record { total_size = pos 0; max_total_size = pos 0 }

  without_result :
      (b : ℕ → ℕ) (r : Outcome (Driver S) Sizes)
      → without_sizes b (and_then r (λ z d. done z.max_total_size d)) ≡ without_sizes b r
  without_result b (done z d) = refl
  without_result b crash = refl
  without_result b (exited n d) = refl
  without_result b (blocked d) = refl

  after_init :
      (ops : List TraceOp) (d : Driver S) (o : Outcome S Bool)
      → without_sizes d.block_sizes (
          and_then
            (and_then
              (and_then (lift d o) (init_or_exit A scale))
              (λ _. count_ops A scale ops initial))
            (λ z e. done z.max_total_size e))
        ≡ and_then
            (and_then (lift d o) (init_or_exit A scale))
            (λ _. eval_mm_speed_inner A scale ops)
  after_init ops d (done true s) =
      let b = d.block_sizes in
      let d' : Driver S = record d { heap = s } in
      without_result b (count_ops A scale ops initial d')
      ∙ count_ops-eval_mm_speed_inner b A scale ops initial d'
  after_init ops d (done false s) = refl
  after_init ops d crash = refl
  after_init ops d (exited n s) = refl
  after_init ops d (blocked s) = refl

  -- The run that is timed ends as the one that finds the peak of the payloads does, whatever the
  -- allocator is and answers: in the same way, with the same heap and the same blocks. The sizes
  -- of the blocks stay as they were, while eval_mm_util records those of the trace.
  pub eval_mm_util-eval_mm_speed :
      (ops : List TraceOp) (d : Driver S)
      → without_sizes d.block_sizes (eval_mm_util A scale ops d) ≡ eval_mm_speed A scale ops d
  unfolding eval_mm_util eval_mm_speed
  eval_mm_util-eval_mm_speed ops d =
      let s = A.with_mem (mem_reset_brk (A.mem_of d.heap)) d.heap in
      after_init ops (record d { heap = s }) (A.mm_init s)
