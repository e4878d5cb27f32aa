-- ===== src/Malloc/Driver/Resizing.antt =====
-- The case REALLOC of eval_mm_valid_inner, against an allocator that keeps the contract.
use computer_systems_project.Base.{
  ℕ, suc, ◌+◌, ◌%◌, ◌≤◌, ◌<◌, ◌≡◌, ◌∙◌, refl, ap, Bool, true, Option, none, some, ◌∷◌, arith, ltb,
  if◌then◌else◌, update, ℤ,
}
use computer_systems_project.Run.{and_then}
use computer_systems_project.Malloc.Ranges.{Range, remove_range, remove_range-Disjoint}
use computer_systems_project.Malloc.Driver.{
  Allocator, Driver, realloc_failed, data_lost, data_preserved, lift, malloc_error, remember,
  checked, record_payload, reallocated, run_realloc, check_data,
}
use computer_systems_project.Malloc.Driver.Contract.{Lawful, IsNew, Moves, Copies}
use computer_systems_project.Malloc.Driver.Agreement.{range_of, Agrees}
use computer_systems_project.Malloc.Driver.Release.{
  data_preserved-All, rest-Covered, rest_elsewhere, not_released,
}
use computer_systems_project.Malloc.Driver.Renewal.{recorded, recorded-Agrees}
use computer_systems_project.Malloc.Driver.Steps.{Requests, Steps, accepted, Steps-by}

module _ {S : Type 0} {A : Allocator S} (L : Lawful A) (scale : ℤ → ℤ) (check : Bool) where
  -- The data is as it was filled when the payload was recorded.
  data_kept :
      (index a n m : ℕ) (old : Range) (s s' : S)
      → index % 256 < 128
      → old.lo + m ≤ suc old.hi
      → ((j : ℕ) → j < m → A.bytes_of s (old.lo + j) ≡ index % 256)
      → Copies A L.Live n old s a s'
      → data_preserved (if ltb n m then n else m) a (index % 256) (A.bytes_of s') ≡ true
  data_kept index a n m old s s' low room held copies =
      data_preserved-All (if ltb n m then n else m) a (index % 256) (A.bytes_of s') low (λ j l.
        copies j (first n m j l) (omega (arith, room, second n m j l)) ∙ held j (second n m j l))
    where
      first : (n m j : ℕ) → j < (if ltb n m then n else m) → j < n
      first n m j l = ground arith

      second : (n m j : ℕ) → j < (if ltb n m then n else m) → j < m
      second n m j l = ground arith

  realloc_granted :
      (live : ℕ → Bool) (index a n : ℕ) (old p : Range) (s' : S) (d : Driver S)
      → Agrees L live d
      → live index ≡ true
      → d.blocks index ≡ some old.lo
      → index % 256 < 128
      → old.lo + d.block_sizes index ≤ suc old.hi
      → ((j : ℕ) → j < d.block_sizes index → A.bytes_of d.heap (old.lo + j) ≡ index % 256)
      → 0 < n
      → L.Inv s'
      → IsNew A L.Live (some old.lo) a n d.heap s' p
      → Copies A L.Live n old d.heap a s'
      → Steps L scale check (update live index true) (
          record_payload A scale check a n
            (check_data A scale check index a n)
            (record d { heap = s'; ranges = remove_range old.lo d.ranges }))
  unfolding record_payload checked check_data remember
  realloc_granted live index a n old p s' d agrees l at low room held positive inv new copies =
      let rs = remove_range old.lo d.ranges in
      let d' : Driver S = record d { heap = s'; ranges = rs } in
      let m : ℕ = d.block_sizes index in
      let disjoint = (remove_range-Disjoint old.lo d.ranges agrees.disjoint).1 in
      let covered = rest-Covered L live d agrees old in
      let stay = rest_elsewhere L live d agrees old in
      let d'' : Driver S = record d' { ranges = range_of a n ∷ rs } in
      (
        none,
        recorded L index a n s' rs d,
        ap (λ r. checked A scale check (check_data A scale check index a n) r d')
              (accepted L scale check (some old.lo) a n d.heap p d' positive new disjoint covered
                stay)
            ∙ ap
                (λ b.
                  if b then remember A scale check index a n d'' else malloc_error data_lost d'')
                (data_kept index a n m old d.heap s' low room held copies),
        recorded-Agrees L live index a n (some old.lo) s' rs p d agrees positive inv new disjoint
            covered stay (λ k l' ne. not_released L live d agrees old index k l at l' ne),
      )

  pub run_realloc-Steps :
      (live : ℕ → Bool) (index n : ℕ) (d : Driver S)
      → Agrees L live d
      → live index ≡ true
      → Requests L scale check n
      → index % 256 < 128
      → Steps L scale check (update live index true) (run_realloc A scale check index n d)
  unfolding run_realloc reallocated malloc_error
  run_realloc-Steps live index n d agrees l (positive, most) low =
      let (old, lives, at, some_bytes, room, held) = agrees.owned index l in
      let (r, s', run, inv, moves) = L.realloc_law n old d.heap agrees.inv lives positive most in
      Steps-by L scale check (update live index true)
        (ap (λ b. and_then (lift d (A.mm_realloc b n d.heap)) (reallocated A scale check index n b))
            at
          ∙ ap (λ o. and_then (lift d o) (reallocated A scale check index n (some old.lo))) run)
        (answered r old s' at room held inv moves)
    where
      answered :
          (r : Option ℕ) (old : Range) (s' : S)
          → d.blocks index ≡ some old.lo
          → old.lo + d.block_sizes index ≤ suc old.hi
          → ((j : ℕ) → j < d.block_sizes index → A.bytes_of d.heap (old.lo + j) ≡ index % 256)
          → L.Inv s'
          → Moves A L.Live n old d.heap r s'
          → Steps L scale check
              (update live index true)
              (reallocated A scale check index n (some old.lo) r (record d { heap = s' }))
      answered none old s' at room held inv moves =
          (some realloc_failed, record d { heap = s'; errors = d.errors + 1 }, refl, tt)
      answered (some a) old s' at room held inv (p, new, copies) =
          realloc_granted live index a n old p s' d agrees l at low room held positive inv new
            copies
