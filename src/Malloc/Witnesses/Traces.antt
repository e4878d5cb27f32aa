-- ===== src/Malloc/Witnesses/Traces.antt =====
-- The theorems on traces at concrete inputs.
use computer_systems_project.Base.{[], ◌∷◌, pos}
use computer_systems_project.Malloc.Driver.{TraceOp, alloc, free, realloc}
use computer_systems_project.Malloc.Trace.{Trace}

abbrev short_trace : Trace
short_trace = record {
  sugg_heapsize = 3000000;
  num_ids = 2;
  num_ops = 4;
  weight = 1;
  ops =
      record { type = alloc; index = 0; size = pos 512 }
      ∷ record { type = alloc; index = 1; size = pos 128 }
      ∷ record { type = realloc; index = 0; size = pos 640 }
      ∷ record { type = free; index = 1; size = pos 7 }
      ∷ [];
}

abbrev left_over : TraceOp
left_over = record { type = free; index = 9; size = pos 9 }
