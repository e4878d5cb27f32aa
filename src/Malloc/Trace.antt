-- ===== src/Malloc/Trace.antt =====
-- mdriver.c: read_trace. The file is the sequence of its words, of which a number is a decimal word and
-- of another one only the first character is read. The build turns assertions off, so a request
-- with too few numbers keeps the old ones, and the header is not compared with what follows. An
-- index is taken to fit an int.
pub mod RoundTrip
use computer_systems_project.Base.{
  ℕ, zero, suc, ◌+◌, ◌-◌, ◌^◌, Option, none, some, List, [], ◌∷◌, ◌++◌, ltb, ◌==◌, if◌then◌else◌,
  length, ℤ, pos, negsuc,
}
use computer_systems_project.Run.{Outcome, done, crash, exited, blocked, Command, ◌>>=◌, ◌>>◌, pure}
use computer_systems_project.Malloc.Blocks.{to_int}
use computer_systems_project.Malloc.Driver.{OpType, alloc, free, realloc, TraceOp}

pub data Token : Type 0 where
  number : ℕ → Token
  word : ℕ → Token

-- trace_t as read_trace fills it.
pub record Trace : Type 0 where
  pub sugg_heapsize : ℕ
  pub num_ids : ℕ
  pub num_ops : ℕ
  pub weight : ℕ
  pub ops : List TraceOp

-- A run over the words that are left.
abbrev pub Reader : Type 0 → Type 0
Reader B = Command (List Token) B

-- `rc = fscanf(tracefile, "%d", &x); if (rc != 1) abort();`. What a number beyond int gives is
-- undefined.
unfoldable pub scan_d : Reader ℕ
scan_d [] = crash
scan_d (word c ∷ ts) = crash
scan_d (number n ∷ ts) = if ltb n (2 ^ 31) then done n ts else crash

-- `fscanf(tracefile, "%u", &index)`: the variable keeps its value where no number is next.
unfoldable pub scan_u : ℕ → List Token → ℕ × List Token
scan_u old [] = (old, [])
scan_u old (word c ∷ ts) = (old, word c ∷ ts)
scan_u old (number n ∷ ts) = (n, ts)

abbrev pub then_size : ℕ → ℕ × List Token → ℕ × ℕ × List Token
then_size index (size, ts) = (index, size, ts)

-- `fscanf(tracefile, "%u %u", &index, &size)`
unfoldable pub scan_uu : ℕ → ℕ → List Token → ℕ × ℕ × List Token
unfolding scan_u
scan_uu index size [] = (index, size, [])
scan_uu index size (word c ∷ ts) = (index, size, word c ∷ ts)
scan_uu index size (number n ∷ ts) = then_size n (scan_u size ts)

-- The characters a, r and f.
abbrev pub letter_a : ℕ
letter_a = 97

abbrev pub letter_r : ℕ
letter_r = 114

abbrev pub letter_f : ℕ
letter_f = 102

module _ (unset : ℤ) where
  abbrev pub op_of : OpType → ℕ → ℤ → TraceOp
  op_of type index size = record { type = type; index = index; size = size }

  -- The cases of the switch: the request, the variables index and size after it, and the words that
  -- are left, or `none` for a bogus type. `unset` is what malloc() left in a size.
  unfoldable pub read_op : ℕ → ℕ → ℕ → List Token → Option (TraceOp × ℕ × ℕ × List Token)
  unfolding scan_u scan_uu
  read_op c index size ts =
      let (i, n, ts') = scan_uu index size ts in
      let (j, ts'') = scan_u index ts in
      if c == letter_a
      then some (op_of alloc i (to_int n), i, n, ts')
      else if c == letter_r
      then some (op_of realloc i (to_int n), i, n, ts')
      else if c == letter_f
      then some (op_of free j unset, j, size, ts'')
      else none

  -- The loop: one round for each unit of fuel. `capacity` is what is left of the array ops; a write
  -- past it is a crash, and so is the end of the fuel.
  unfoldable pub read_ops : ℕ → ℕ → ℕ → ℕ → List TraceOp → Reader (List TraceOp)
  read_ops zero capacity index size ops ts = crash
  read_ops (suc rounds) capacity index size ops [] = done ops []
  read_ops (suc rounds) capacity index size ops (number n ∷ ts) = exited 1 (number n ∷ ts)
  read_ops (suc rounds) capacity index size ops (word c ∷ ts) = elim (read_op c index size ts) [
    | none ↦ exited 1 (word c ∷ ts)
    | some (op, i, n, ts') ↦
        let rest = read_ops rounds (capacity - 1) i n (ops ++ op ∷ []) ts' in
        if ltb 0 capacity then rest else crash
  ]

  abbrev pub trace_of : ℕ → ℕ → ℕ → ℕ → List TraceOp → Trace
  trace_of heapsize ids num weight ops = record {
    sugg_heapsize = heapsize;
    num_ids = ids;
    num_ops = num;
    weight = weight;
    ops = ops;
  }

  -- The elements of ops that no request has filled.
  unfoldable pub unfilled : ℕ → TraceOp → List TraceOp
  unfilled zero blank = []
  unfilled (suc n) blank = blank ∷ unfilled n blank

  -- read_trace, where `size` is what its variable size holds at first, and `blank` is what malloc()
  -- left in an element of ops.
  unfoldable pub read_trace : ℕ → TraceOp → Reader Trace
  unfolding scan_d unfilled
  read_trace size blank = do
    heapsize ← scan_d
    ids ← scan_d
    num ← scan_d
    weight ← scan_d
    ops ← (λ ts. read_ops (suc (length ts)) num 0 size [] ts)
    pure (trace_of heapsize ids num weight (ops ++ unfilled (num - length ops) blank))
