-- ===== src/Malloc/Driver.antt =====
-- mdriver.c: a trace run against an allocator, with the checks of what it returns. The allocator is
-- an argument, and so is the product with the multiplier, a double, converted to int. The arrays of
-- a trace are functions of the index.
pub mod Contract
pub mod Agreement
pub mod Renewal
pub mod Release
pub mod Steps
pub mod Resizing
pub mod Valid
pub mod Signed
use computer_systems_project.Base.{
  ℕ, zero, suc, ◌+◌, ◌-◌, ◌%◌, Bool, true, false, ◌&&◌, Option, none, some, List, [], ◌∷◌, ltb, leb,
  ◌==◌, if◌then◌else◌, update, ℤ, pos, negsuc,
}
use computer_systems_project.Run.{
  Outcome, done, crash, exited, blocked, Command, and_then, ◌>>=◌, ◌>>◌, pure, get, modify,
}
use computer_systems_project.Malloc.Memlib.{Mem, mem_reset_brk}
use computer_systems_project.Malloc.Ranges.{Range, add_range, remove_range, clear_ranges}

pub data OpType : Type 0 where
  alloc : OpType
  free : OpType
  realloc : OpType

-- traceop_t
pub record TraceOp : Type 0 where
  pub type : OpType
  pub index : ℕ
  pub size : ℤ

-- What the driver calls, on the allocator's state `S`, which has the memory in it.
pub record Allocator (S : Type 0) : Type 0 where
  pub mm_init : Command S Bool
  pub mm_malloc : ℕ → Command S (Option ℕ)
  pub mm_free : Option ℕ → Command S (Unit {0})
  pub mm_realloc : Option ℕ → ℕ → Command S (Option ℕ)
  pub mem_of : S → Mem
  pub with_mem : Mem → S → S
  pub bytes_of : S → ℕ → ℕ
  pub with_bytes : (ℕ → ℕ) → S → S

-- The arrays of the trace, the range list, and the count of errors. Every index of the trace is taken
-- to be below num_ids, the length of the arrays.
pub record Driver (S : Type 0) : Type 0 where
  pub heap : S
  pub ranges : List Range
  pub blocks : ℕ → Option ℕ
  pub block_sizes : ℕ → ℕ
  pub errors : ℕ

-- What malloc_error reports. add_range has three messages, which are one here.
pub data MallocError : Type 0 where
  init_failed : MallocError
  malloc_failed : MallocError
  realloc_failed : MallocError
  bad_payload : MallocError
  data_lost : MallocError

-- `memset(p, value, n)`
abbrev pub fill : ℕ → ℕ → ℕ → (ℕ → ℕ) → ℕ → ℕ
fill p n value bytes q = if leb p q && ltb q (p + n) then value else bytes q

-- `newp[j] == (index & 0xFF)`: a char is signed, so that a byte from 128 on is negative.
unfoldable pub same_char : ℕ → ℕ → Bool
same_char byte value = ltb byte 128 && byte == value

-- The loop that compares the data of the old block, for `n` bytes from `p` on.
unfoldable pub data_preserved : ℕ → ℕ → ℕ → (ℕ → ℕ) → Bool
unfolding same_char
data_preserved zero p value bytes = true
data_preserved (suc n) p value bytes =
    same_char (bytes p) value && data_preserved n (suc p) value bytes

-- `max(0, rsize)`
unfoldable pub at_least_zero : ℤ → ℕ
at_least_zero (pos n) = n
at_least_zero (negsuc n) = 0

module _ {S : Type 0} where
  abbrev pub lift : {B : Type 0} → Driver S → Outcome S B → Outcome (Driver S) B
  lift d (done a s) = done a (record d { heap = s })
  lift d crash = crash
  lift d (exited n s) = exited n (record d { heap = s })
  lift d (blocked s) = blocked (record d { heap = s })

  abbrev pub call : {B : Type 0} → Command S B → Command (Driver S) B
  call m d = lift d (m d.heap)

  -- malloc_error, and the end of the run
  unfoldable pub malloc_error : MallocError → Command (Driver S) (Option MallocError)
  malloc_error e d = done (some e) (record d { errors = d.errors + 1 })

module _ {S : Type 0} (A : Allocator S) (scale : ℤ → ℤ) (check : Bool) where
  unfoldable pub remember : ℕ → ℕ → ℕ → Command (Driver S) (Option MallocError)
  remember index p size d = done none (record d {
    heap = A.with_bytes (fill p size (index % 256) (A.bytes_of d.heap)) d.heap;
    blocks = update d.blocks index (some p);
    block_sizes = update d.block_sizes index size;
  })

  -- What follows add_range, if that returns 1.
  unfoldable pub checked :
      Command (Driver S) (Option MallocError)
      → Option (Bool × List Range)
      → Command (Driver S) (Option MallocError)
  checked next none d = crash
  checked next (some (false, new)) d = malloc_error bad_payload d
  checked next (some (true, new)) d = next (record d { ranges = new })

  unfoldable pub record_payload :
      ℕ → ℕ → Command (Driver S) (Option MallocError) → Command (Driver S) (Option MallocError)
  record_payload p size next d =
      checked next (add_range check (A.mem_of d.heap) p (pos size) d.ranges) d

  -- The case ALLOC, from the answer of mm_malloc on.
  unfoldable pub allocated : ℕ → ℕ → Option ℕ → Command (Driver S) (Option MallocError)
  allocated index size none = malloc_error malloc_failed
  allocated index size (some p) = record_payload p size (remember index p size)

  unfoldable pub run_alloc : ℕ → ℕ → Command (Driver S) (Option MallocError)
  run_alloc index size = call (A.mm_malloc size) >>= allocated index size

  -- The comparison of the old data, and the end of the case.
  unfoldable pub check_data : ℕ → ℕ → ℕ → Command (Driver S) (Option MallocError)
  check_data index p size d =
      let old = d.block_sizes index in
      let n = if ltb size old then size else old in
      if data_preserved n p (index % 256) (A.bytes_of d.heap)
      then remember index p size d
      else malloc_error data_lost d

  abbrev pub forget_range : Option ℕ → Driver S → Driver S
  forget_range none d = d
  forget_range (some p) d = record d { ranges = remove_range p d.ranges }

  -- The case REALLOC, from the answer of mm_realloc on.
  unfoldable pub reallocated : ℕ → ℕ → Option ℕ → Option ℕ → Command (Driver S) (Option MallocError)
  reallocated index size oldp none d = malloc_error realloc_failed d
  reallocated index size oldp (some p) d =
      record_payload p size (check_data index p size) (forget_range oldp d)

  unfoldable pub run_realloc : ℕ → ℕ → Command (Driver S) (Option MallocError)
  run_realloc index size d =
      let oldp = d.blocks index in (call (A.mm_realloc oldp size) >>= reallocated index size oldp) d

  unfoldable pub run_free : ℕ → Command (Driver S) (Option MallocError)
  run_free index d = let p = d.blocks index in (call (A.mm_free p) >> pure none) (forget_range p d)

  -- The cases of the switch.
  unfoldable pub run_type : OpType → ℕ → ℕ → Command (Driver S) (Option MallocError)
  run_type alloc index size = run_alloc index size
  run_type free index size = run_free index
  run_type realloc index size = run_realloc index size

  unfoldable pub run_op : TraceOp → Command (Driver S) (Option MallocError)
  run_op op = run_type op.type op.index (at_least_zero (scale op.size))

  abbrev pub unless_failed :
      Command (Driver S) (Option MallocError)
      → Option MallocError
      → Command (Driver S) (Option MallocError)
  unless_failed next none = next
  unless_failed next (some e) = pure (some e)

  unfoldable pub run_ops : List TraceOp → Command (Driver S) (Option MallocError)
  run_ops [] = pure none
  run_ops (op ∷ ops) = run_op op >>= unless_failed (run_ops ops)

  -- The result 1 is `none`; a return of 0 has the error that was reported.
  unfoldable pub eval_mm_valid_inner : List TraceOp → Command (Driver S) (Option MallocError)
  eval_mm_valid_inner ops d = run_ops ops (record d { ranges = clear_ranges d.ranges })

  unfoldable pub reset_heap : Command (Driver S) (Option MallocError)
  reset_heap d =
      let s = A.with_mem (mem_reset_brk (A.mem_of d.heap)) d.heap in
      and_then (call A.mm_init (record d { heap = s }))
        (λ ok. if ok then pure none else malloc_error init_failed)

  unfoldable pub eval_mm_valid : List TraceOp → Command (Driver S) (Option MallocError)
  eval_mm_valid ops = reset_heap >>= unless_failed (eval_mm_valid_inner ops)
