-- ===== src/Malloc/Driver/Steps.antt =====
-- The cases ALLOC and FREE of eval_mm_valid_inner, against an allocator that keeps the contract.
use computer_systems_project.Base.{
  ℕ, ◌+◌, ◌%◌, ◌≤◌, ◌<◌, ◌≡◌, ◌≢◌, ◌∙◌, refl, ap, Bool, true, false, Option, none, some, List, [],
  ◌∷◌, arith, All, update, ℤ, pos,
}
use computer_systems_project.Run.{Outcome, done, and_then}
use computer_systems_project.Malloc.Ranges.{Range, Disjoint, add_range, remove_range}
use computer_systems_project.Malloc.Driver.{
  Allocator, Driver, TraceOp, OpType, alloc, free, realloc, MallocError, malloc_failed,
  realloc_failed, init_failed, bad_payload, data_lost, at_least_zero, lift, malloc_error, remember,
  checked, record_payload, allocated, run_alloc, run_free, forget_range,
}
use computer_systems_project.Malloc.Driver.Contract.{Lawful, IsNew, Grants}
use computer_systems_project.Malloc.Driver.Agreement.{
  range_of, Covered, Agrees, add_range-accepts, new-Apart,
}
use computer_systems_project.Malloc.Driver.Release.{free-Agrees}
use computer_systems_project.Malloc.Driver.Renewal.{recorded, recorded-Agrees}

-- The allocator gave no memory: the only failures that it can be blamed for and keep the contract.
abbrev pub OnlyRefused : Option MallocError → Type 0
OnlyRefused none = Unit
OnlyRefused (some malloc_failed) = Unit
OnlyRefused (some realloc_failed) = Unit
OnlyRefused (some init_failed) = ⊥
OnlyRefused (some bad_payload) = ⊥
OnlyRefused (some data_lost) = ⊥

module _ {S : Type 0} {A : Allocator S} (L : Lawful A) (scale : ℤ → ℤ) (check : Bool) where
  abbrev pub size_of : TraceOp → ℕ
  size_of op = at_least_zero (scale op.size)

  abbrev pub Requests : ℕ → Type 0
  Requests n = (0 < n) × (n ≤ L.limit)

  -- An operation that fits the identifiers in use, and those in use after it.
  abbrev pub OpFits : OpType → (ℕ → Bool) → ℕ → ℕ → Type 0
  OpFits alloc live index n = Requests n
  OpFits free live index n = live index ≡ true
  OpFits realloc live index n = (live index ≡ true) × Requests n × (index % 256 < 128)

  abbrev pub live_after : OpType → (ℕ → Bool) → ℕ → ℕ → Bool
  live_after alloc live index = update live index true
  live_after free live index = update live index false
  live_after realloc live index = update live index true

  -- A trace that frees and resizes only what is in use.
  abbrev pub TraceFits : (ℕ → Bool) → List TraceOp → Type 0
  TraceFits live [] = Unit
  TraceFits live (op ∷ ops) =
      OpFits op.type live op.index (size_of op) × TraceFits (live_after op.type live op.index) ops

  -- The run goes on with records that agree, or ends because there was no memory.
  abbrev pub Continues : (ℕ → Bool) → Option MallocError → Driver S → Type 0
  Continues live none d = Agrees L live d
  Continues live (some e) d = OnlyRefused (some e)

  abbrev pub Steps : (ℕ → Bool) → Outcome (Driver S) (Option MallocError) → Type 0
  Steps live r = (v : Option MallocError) × (d : Driver S) × (r ≡ done v d) × Continues live v d

  none_released : (rs : List Range) → All (λ r. none ≢ some r.lo) rs
  none_released [] = tt
  none_released (r ∷ rs) = (cc, none_released rs)

  -- add_range accepts what the contract gives, and the run goes on.
  pub accepted :
      (released : Option ℕ) (a n : ℕ) (s : S) (p : Range) (d : Driver S)
      → 0 < n
      → IsNew A L.Live released a n s d.heap p
      → Disjoint d.ranges
      → All (Covered L s) d.ranges
      → All (λ r. released ≢ some r.lo) d.ranges
      → add_range check (A.mem_of d.heap) a (pos n) d.ranges ≡ some (true, range_of a n ∷ d.ranges)
  accepted released a n s p d positive new disjoint covered stay =
      add_range-accepts check (A.mem_of d.heap) a n d.ranges positive new.3 new.4
        (omega (arith, new.5, new.2, positive))
        (new-Apart L released a n s d.heap p d.ranges positive new stay covered disjoint) disjoint

  alloc_granted :
      (live : ℕ → Bool) (index a n : ℕ) (s' : S) (p : Range) (d : Driver S)
      → Agrees L live d
      → 0 < n
      → L.Inv s'
      → IsNew A L.Live none a n d.heap s' p
      → Steps (update live index true) (
          record_payload A scale check a n
            (remember A scale check index a n)
            (record d { heap = s' }))
  unfolding record_payload checked remember
  alloc_granted live index a n s' p d agrees positive inv new =
      let d' : Driver S = record d { heap = s' } in
      let stay = none_released d.ranges in
      (
        none,
        recorded L index a n s' d.ranges d,
        ap (λ r. checked A scale check (remember A scale check index a n) r d')
            (accepted none a n d.heap p d' positive new agrees.disjoint agrees.covered stay),
        recorded-Agrees L live index a n none s' d.ranges p d agrees positive inv new
            agrees.disjoint agrees.covered stay (λ k l ne e. cc (e, (agrees.owned k l).2)),
      )

  pub Steps-by :
      (live : ℕ → Bool) {r r' : Outcome (Driver S) (Option MallocError)}
      → r ≡ r'
      → Steps live r'
      → Steps live r
  Steps-by live e (v, d, f, h) = (v, d, e ∙ f, h)

  pub run_alloc-Steps :
      (live : ℕ → Bool) (index n : ℕ) (d : Driver S)
      → Agrees L live d
      → Requests n
      → Steps (update live index true) (run_alloc A scale check index n d)
  unfolding run_alloc allocated malloc_error
  run_alloc-Steps live index n d agrees (positive, most) =
      let (r, s', run, inv, grant) = L.malloc_law n d.heap agrees.inv positive most in
      Steps-by (update live index true)
        (ap (λ o. and_then (lift d o) (allocated A scale check index n)) run)
        (answered r s' inv grant)
    where
      answered :
          (r : Option ℕ) (s' : S)
          → L.Inv s'
          → Grants A L.Live n d.heap r s'
          → Steps
              (update live index true)
              (allocated A scale check index n r (record d { heap = s' }))
      answered none s' inv grant =
          (some malloc_failed, record d { heap = s'; errors = d.errors + 1 }, refl, tt)
      answered (some a) s' inv (p, new) =
          alloc_granted live index a n s' p d agrees positive inv new

  pub run_free-Steps :
      (live : ℕ → Bool) (index : ℕ) (d : Driver S)
      → Agrees L live d
      → live index ≡ true
      → Steps (update live index false) (run_free A scale check index d)
  unfolding run_free
  run_free-Steps live index d agrees l =
      let (p, lives, at, _, _, _) = agrees.owned index l in
      let (s', run, inv, keeps) = L.free_law p d.heap agrees.inv lives in
      (
        none,
        record d { heap = s'; ranges = remove_range p.lo d.ranges },
        ap
              (λ b.
                and_then
                  (lift (forget_range A scale check b d)
                    (A.mm_free b (forget_range A scale check b d).heap))
                  (λ _ t. done none t))
              at
            ∙ ap
                (λ o.
                  and_then (lift (record d { ranges = remove_range p.lo d.ranges }) o)
                    (λ _ t. done none t))
                run,
        free-Agrees L live d agrees p index s' l at inv keeps,
      )
