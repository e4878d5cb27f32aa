-- ===== src/Malloc/Implicit/Lawful.antt =====
-- The allocator of mm-gback-implicit.c keeps the contract of mdriver.c.
use computer_systems_project.Base.{◌^◌, ◌-◌, refl, arith}
use computer_systems_project.Malloc.Driver.Contract.{Lawful}
use computer_systems_project.Malloc.Implicit.Allocator.{implicit_allocator, HeapInv, InUse}
use computer_systems_project.Malloc.Implicit.Granting.{implicit-malloc_law}
use computer_systems_project.Malloc.Implicit.Releasing.{
  written-HeapInv, written-InUse, implicit-free_law,
}
use computer_systems_project.Malloc.Implicit.Moving.{implicit-realloc_law}

abbrev pub implicit_lawful : Lawful implicit_allocator
implicit_lawful = record {
  Inv = HeapInv;
  Live = InUse;
  limit = 2 ^ 31 - 25;
  malloc_law = λ n s inv positive most. implicit-malloc_law n s inv positive (omega (arith, most));
  free_law =
      λ p s inv live. let (inv', keeps) = implicit-free_law p s inv live in (_, refl, inv', keeps);
  realloc_law = λ n old s inv live positive most.
      implicit-realloc_law n old s inv live positive (omega (arith, most));
  write_law = λ f s inv. (written-HeapInv f s inv, refl, λ q live. written-InUse f s q live, refl);
}
