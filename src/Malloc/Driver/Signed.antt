-- ===== src/Malloc/Driver/Signed.antt =====
-- The comparison of the old data in mdriver.c, for identifiers whose low byte is 128 or more.
use computer_systems_project.Base.{
  ℕ, zero, suc, ◌+◌, ◌%◌, ◌≤◌, ◌<◌, ◌≡◌, ap, Bool, false, some, arith, ltb, if◌then◌else◌, ℤ,
}
use computer_systems_project.Run.{done}
use computer_systems_project.Malloc.Driver.{
  Allocator, Driver, data_lost, same_char, data_preserved, malloc_error, remember, check_data,
}

data_preserved-signed :
    (n p v : ℕ) (bytes : ℕ → ℕ) → 0 < n → 128 ≤ v → data_preserved n p v bytes ≡ false
unfolding data_preserved same_char
data_preserved-signed zero p v bytes some_bytes high = absurd (omega (arith, some_bytes))
data_preserved-signed (suc n) p v bytes some_bytes high = ground arith

-- Where the low byte of the identifier is 128 or more, and both sizes are positive, the driver
-- reports after mm_realloc that the data is lost, whatever bytes the new payload has.
pub check_data-signed :
    {S : Type 0} (A : Allocator S) (scale : ℤ → ℤ) (check : Bool) (index p size : ℕ) (d : Driver S)
    → 128 ≤ index % 256
    → 0 < size
    → 0 < d.block_sizes index
    → check_data A scale check index p size d
      ≡ done (some data_lost) (record d { errors = d.errors + 1 })
unfolding check_data malloc_error
check_data-signed A scale check index p size d high some_bytes some_old =
    ap (λ b. if b then remember A scale check index p size d else malloc_error data_lost d)
      (data_preserved-signed (if ltb size (d.block_sizes index) then size else d.block_sizes index)
        p (index % 256) (A.bytes_of d.heap) (ground arith) high)
