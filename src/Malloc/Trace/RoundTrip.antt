-- ===== src/Malloc/Trace/RoundTrip.antt =====
-- read_trace of mdriver.c reads back a trace that is written in its format.
use computer_systems_project.Base.{
  ℕ, ◌-◌, ◌^◌, ◌≤◌, ◌<◌, ◌≡◌, List, [], ◌∷◌, ◌++◌, leb, if◌then◌else◌, length, ℤ, pos, negsuc, All,
}
use computer_systems_project.Run.{Outcome, done, crash}
use computer_systems_project.Malloc.Driver.{OpType, alloc, free, realloc, TraceOp}
use computer_systems_project.Malloc.Trace.{Token, number, word, Trace, letter_a, letter_r, letter_f}

-- The 32 bits of an int.
abbrev pub bits : ℤ → ℕ
bits (pos n) = n
bits (negsuc n) = 2 ^ 32 - 1 - n

abbrev pub IsInt : ℤ → Type 0
IsInt (pos n) = n < 2 ^ 31
IsInt (negsuc n) = n < 2 ^ 31

-- The line of a request.
abbrev pub line : OpType → ℕ → ℤ → List Token
line alloc index size = word letter_a ∷ number index ∷ number (bits size) ∷ []
line realloc index size = word letter_r ∷ number index ∷ number (bits size) ∷ []
line free index size = word letter_f ∷ number index ∷ []

abbrev pub write_ops : List TraceOp → List Token
write_ops [] = []
write_ops (op ∷ ops) = line op.type op.index op.size ++ write_ops ops

abbrev pub write_trace : Trace → List Token
write_trace t =
    number t.sugg_heapsize ∷ number t.num_ids ∷ number t.num_ops ∷ number t.weight ∷ write_ops t.ops

module _ (unset : ℤ) where
  -- The size of a request is an int; that of a free request is not in the file.
  abbrev pub SizeRead : OpType → ℤ → Type 0
  SizeRead alloc size = IsInt size
  SizeRead realloc size = IsInt size
  SizeRead free size = size ≡ unset

  abbrev pub IsReadable : TraceOp → Type 0
  IsReadable op = SizeRead op.type op.size

  -- The requests that are read, if the array has room for all of them.
  abbrev all_read : ℕ → List TraceOp → List TraceOp → Outcome (List Token) (List TraceOp)
  all_read capacity acc ops = if leb (length ops) capacity then done (acc ++ ops) [] else crash

  -- The numbers of the header fit an int, there is room for every index, and no element of ops is
  -- left unfilled.
  pub record IsWellFormed (t : Trace) : Type 0 where
    pub heapsize : t.sugg_heapsize < 2 ^ 31
    pub ids : t.num_ids < 2 ^ 31
    pub num : t.num_ops < 2 ^ 31
    pub weight : t.weight < 2 ^ 31
    pub indices : All (λ op. op.index < t.num_ids) t.ops
    pub sizes : All IsReadable t.ops
    pub filled : t.num_ops ≤ length t.ops
