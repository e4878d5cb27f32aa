-- ===== src/Malloc/Speed.antt =====
-- mdriver.c: eval_mm_speed and eval_mm_speed_inner, the run of a trace that the driver times.
pub mod Calls
use computer_systems_project.Base.{
  ℕ, Bool, true, false, Option, none, some, List, [], ◌∷◌, update, ℤ,
}
use computer_systems_project.Run.{
  Outcome, done, crash, exited, blocked, Command, and_then, ◌>>=◌, ◌>>◌, pure,
}
use computer_systems_project.Malloc.Memlib.{mem_reset_brk}
use computer_systems_project.Malloc.Driver.{
  OpType, alloc, free, realloc, TraceOp, Allocator, Driver, call, at_least_zero,
}
use computer_systems_project.Malloc.Utilization.{app_error, init_or_exit}

module _ {S : Type 0} where
  -- The cases ALLOC and REALLOC after the call.
  unfoldable pub keep_pointer : ℕ → Option ℕ → Command (Driver S) (Unit {0})
  keep_pointer index none d = app_error d
  keep_pointer index (some p) d = done tt (record d { blocks = update d.blocks index (some p) })

module _ {S : Type 0} (A : Allocator S) (scale : ℤ → ℤ) where
  unfoldable pub time_type : OpType → ℕ → ℕ → Command (Driver S) (Unit {0})
  time_type alloc index size d = (call (A.mm_malloc size) >>= keep_pointer index) d
  time_type realloc index size d =
      (call (A.mm_realloc (d.blocks index) size) >>= keep_pointer index) d
  time_type free index size d = call (A.mm_free (d.blocks index)) d

  unfoldable pub eval_mm_speed_inner : List TraceOp → Command (Driver S) (Unit {0})
  eval_mm_speed_inner [] = pure tt
  eval_mm_speed_inner (op ∷ ops) =
      time_type op.type op.index (at_least_zero (scale op.size)) >> eval_mm_speed_inner ops

  unfoldable pub eval_mm_speed : List TraceOp → Command (Driver S) (Unit {0})
  eval_mm_speed ops d =
      let s = A.with_mem (mem_reset_brk (A.mem_of d.heap)) d.heap in
      (call A.mm_init >>= init_or_exit A scale >> eval_mm_speed_inner ops) (record d { heap = s })
