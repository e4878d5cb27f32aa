-- ===== src/Malloc/Utilization.antt =====
-- mdriver.c: eval_mm_util, which returns the largest number of payload bytes that were in use at
-- one time. The sums are exact where the code's int would overflow.
pub mod Tallies
pub mod Peak
pub mod Sample
use computer_systems_project.Base.{
  ℕ, suc, ◌+◌, ◌-◌, Bool, true, false, Option, none, some, List, [], ◌∷◌, ltb, leb, if◌then◌else◌,
  update, ℤ, pos, negsuc,
}
use computer_systems_project.Run.{
  Outcome, done, crash, exited, blocked, Command, and_then, ◌>>=◌, ◌>>◌, pure,
}
use computer_systems_project.Malloc.Memlib.{mem_reset_brk}
use computer_systems_project.Malloc.Driver.{
  OpType, alloc, free, realloc, TraceOp, Allocator, Driver, call, at_least_zero,
}

-- `total + n`, `total - n`, and `a > b`
unfoldable pub plus : ℤ → ℕ → ℤ
plus (pos a) n = pos (a + n)
plus (negsuc a) n = if leb n a then negsuc (a - n) else pos (n - a - 1)

unfoldable pub minus : ℤ → ℕ → ℤ
minus (pos a) n = if leb n a then pos (a - n) else negsuc (n - a - 1)
minus (negsuc a) n = negsuc (a + n)

unfoldable pub greater : ℤ → ℤ → Bool
greater (pos a) (pos b) = ltb b a
greater (pos a) (negsuc b) = true
greater (negsuc a) (pos b) = false
greater (negsuc a) (negsuc b) = ltb a b

-- total_size and max_total_size
pub record Sizes : Type 0 where
  pub total_size : ℤ
  pub max_total_size : ℤ

-- The end of the cases that allocate, with the new total.
unfoldable pub raise : ℤ → Sizes → Sizes
unfolding greater
raise total z = record {
  total_size = total;
  max_total_size = if greater total z.max_total_size then total else z.max_total_size;
}

module _ {S : Type 0} where
  abbrev pub app_error : {B : Type 0} → Command (Driver S) B
  app_error d = exited 1 d

  abbrev pub keep_block : ℕ → ℕ → ℕ → Driver S → Driver S
  keep_block index p size d = record d {
    blocks = update d.blocks index (some p);
    block_sizes = update d.block_sizes index size;
  }

  -- The case ALLOC after mm_malloc, and the case REALLOC after mm_realloc.
  unfoldable pub count_alloc : ℕ → ℕ → Sizes → Option ℕ → Command (Driver S) Sizes
  count_alloc index size z none d = app_error d
  count_alloc index size z (some p) d =
      done (raise (plus z.total_size size) z) (keep_block index p size d)

  unfoldable pub count_realloc : ℕ → ℕ → Sizes → Option ℕ → Command (Driver S) Sizes
  count_realloc index newsize z none d = app_error d
  count_realloc index newsize z (some p) d =
      let oldsize = d.block_sizes index in
      done (raise (minus (plus z.total_size newsize) oldsize) z) (keep_block index p newsize d)

module _ {S : Type 0} (A : Allocator S) (scale : ℤ → ℤ) where
  unfoldable pub count_type : OpType → ℕ → ℕ → Sizes → Command (Driver S) Sizes
  count_type alloc index size z d = (call (A.mm_malloc size) >>= count_alloc index size z) d
  count_type realloc index size z d =
      (call (A.mm_realloc (d.blocks index) size) >>= count_realloc index size z) d
  count_type free index size z d =
      (call (A.mm_free (d.blocks index))
          >> pure (record z { total_size = minus z.total_size (d.block_sizes index) }))
        d

  unfoldable pub count_ops : List TraceOp → Sizes → Command (Driver S) Sizes
  count_ops [] z = pure z
  count_ops (op ∷ ops) z =
      count_type op.type op.index (at_least_zero (scale op.size)) z >>= count_ops ops

  abbrev pub init_or_exit : Bool → Command (Driver S) (Unit {0})
  init_or_exit true = pure tt
  init_or_exit false = app_error

  unfoldable pub eval_mm_util : List TraceOp → Command (Driver S) ℤ
  eval_mm_util ops d =
      let s = A.with_mem (mem_reset_brk (A.mem_of d.heap)) d.heap in
      (call A.mm_init
          >>= init_or_exit
          >> count_ops ops (record { total_size = pos 0; max_total_size = pos 0 })
          >>= (λ z. pure z.max_total_size))
        (record d { heap = s })
