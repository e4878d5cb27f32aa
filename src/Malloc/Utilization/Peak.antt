-- ===== src/Malloc/Utilization/Peak.antt =====
-- eval_mm_util of mdriver.c returns the peak of the bytes that are in use.
use computer_systems_project.Base.{
  ℕ, ◌+◌, ◌≤◌, ◌<◌, ◌≡◌, ◌∙◌, refl, sym, ap, subst, inl, inr, ◌⊎◌, Bool, true, false, Option, none,
  some, List, [], ◌∷◌, arith, ltb, if◌then◌else◌, update, Bool-cases, ℤ, pos,
}
use computer_systems_project.Run.{Outcome, done, exited, Command, and_then}
use computer_systems_project.Malloc.Ranges.{Range}
use computer_systems_project.Malloc.Driver.{
  OpType, alloc, free, realloc, TraceOp, Allocator, Driver, lift, at_least_zero,
}
use computer_systems_project.Malloc.Driver.Contract.{Lawful, Grants, Moves}
use computer_systems_project.Malloc.Utilization.{
  plus, minus, greater, Sizes, raise, keep_block, count_alloc, count_realloc, count_type, count_ops,
}
use computer_systems_project.Malloc.Utilization.Tallies.{
  drop, bytes_in, bytes_in-drop, lookup-drop, Tallies, keep_block-Tallies, drop-Tallies,
}

abbrev pub higher : ℕ → ℕ → ℕ
higher m x = if ltb m x then x else m

-- The payloads after a request.
abbrev pub held_after : OpType → ℕ → ℕ → List (ℕ × ℕ) → List (ℕ × ℕ)
held_after alloc index n held = (index, n) ∷ held
held_after realloc index n held = (index, n) ∷ drop index held
held_after free index n held = drop index held

-- The most bytes in use at one time, from `held` on.
abbrev pub peak : (TraceOp → ℕ) → List TraceOp → List (ℕ × ℕ) → ℕ → ℕ
peak size_of [] held m = m
peak size_of (op ∷ ops) held m =
    let held' = held_after op.type op.index (size_of op) held in
    peak size_of ops held' (higher m (bytes_in held'))

abbrev pub sizes : ℕ → ℕ → Sizes
sizes total most = record { total_size = pos total; max_total_size = pos most }

raise-higher : (total x m : ℕ) → raise (pos x) (sizes total m) ≡ sizes x (higher m x)
unfolding raise greater
raise-higher total x m = elim (Bool-cases (ltb m x)) [ inl e ↦ rw e refl | inr e ↦ rw e refl ]

plus-pos : (a n : ℕ) → plus (pos a) n ≡ pos (n + a)
unfolding plus
plus-pos a n = ap pos (omega arith)

minus-pos : (a n b : ℕ) → n + b ≡ a → minus (pos a) n ≡ pos b
unfolding minus
minus-pos a n b e = ground (arith, e)

higher-low : (m x : ℕ) → x ≤ m → higher m x ≡ m
higher-low m x le = ground (arith, le)

higher-most : (m x : ℕ) → x ≤ higher m x
higher-most m x = ground arith

module _ {S : Type 0} {A : Allocator S} (L : Lawful A) (scale : ℤ → ℤ) where
  abbrev pub size_of : TraceOp → ℕ
  size_of op = at_least_zero (scale op.size)

  abbrev pub Fits : OpType → (ℕ → Bool) → ℕ → ℕ → Type 0
  Fits alloc live index n = (0 < n) × (n ≤ L.limit)
  Fits realloc live index n = (live index ≡ true) × (0 < n) × (n ≤ L.limit)
  Fits free live index n = live index ≡ true

  abbrev pub live_then : OpType → (ℕ → Bool) → ℕ → ℕ → Bool
  live_then alloc live index = update live index true
  live_then realloc live index = update live index true
  live_then free live index = update live index false

  -- A trace that frees and resizes only what is in use.
  abbrev pub OpsFit : (ℕ → Bool) → List TraceOp → Type 0
  OpsFit live [] = Unit
  OpsFit live (op ∷ ops) =
      Fits op.type live op.index (size_of op) × OpsFit (live_then op.type live op.index) ops

  -- The request that an operation makes of the allocator gets no memory.
  abbrev pub Refuses : OpType → ℕ → ℕ → Driver S → S → Type 0
  Refuses alloc index n d s = A.mm_malloc n d.heap ≡ done none s
  Refuses realloc index n d s = A.mm_realloc (d.blocks index) n d.heap ≡ done none s
  Refuses free index n d s = ⊥

  -- A request gets no memory, or the totals are those of the payloads after it.
  abbrev Counts :
      OpType → ℕ → ℕ → Driver S → (ℕ → Bool) → List (ℕ × ℕ) → ℕ → Outcome (Driver S) Sizes → Type 0
  Counts t index n start live held m r =
      ((s : S) × (Refuses t index n start s) × (r ≡ exited 1 (record start { heap = s })))
      ⊎ ((d : Driver S) × (r ≡ done (sizes (bytes_in held) m) d) × Tallies L live held d)

  count_alloc-Counts :
      (live : ℕ → Bool) (index n m : ℕ) (held : List (ℕ × ℕ)) (d : Driver S)
      → Tallies L live held d
      → 0 < n
      → n ≤ L.limit
      → Counts alloc index n d
          (update live index true)
          ((index, n) ∷ held)
          (higher m (n + bytes_in held))
          (count_type A scale alloc index n (sizes (bytes_in held) m) d)
  unfolding count_type count_alloc
  count_alloc-Counts live index n m held d tallies positive most =
      let (r, s', run, inv, grant) = L.malloc_law n d.heap tallies.inv positive most in
      let z = sizes (bytes_in held) m in
      subst
        (Counts alloc index n d (update live index true) ((index, n) ∷ held)
          (higher m (n + bytes_in held)))
        (sym (ap (λ o. and_then (lift d o) (count_alloc index n z)) run))
        (answered r s' run inv grant)
    where
      answered :
          (r : Option ℕ) (s' : S)
          → A.mm_malloc n d.heap ≡ done r s'
          → L.Inv s'
          → Grants A L.Live n d.heap r s'
          → Counts alloc index n d
              (update live index true)
              ((index, n) ∷ held)
              (higher m (n + bytes_in held))
              (count_alloc index n (sizes (bytes_in held) m) r (record d { heap = s' }))
      answered none s' run inv grant = inl (s', run, refl)
      answered (some a) s' run inv (p, new) = inr (
        keep_block index a n (record d { heap = s' }),
        ap
              (λ x.
                done (raise x (sizes (bytes_in held) m))
                  (keep_block index a n (record d { heap = s' })))
              (plus-pos (bytes_in held) n)
            ∙ ap (λ x. done x (keep_block index a n (record d { heap = s' })))
                (raise-higher (bytes_in held) (n + bytes_in held) m),
        keep_block-Tallies L live index a n held held none s' p d tallies positive inv new
            (λ k l ne e. cc (e, (tallies.owned k l).2)) (λ k ne. refl),
      )

  count_realloc-Counts :
      (live : ℕ → Bool) (index n m : ℕ) (held : List (ℕ × ℕ)) (d : Driver S)
      → Tallies L live held d
      → live index ≡ true
      → 0 < n
      → n ≤ L.limit
      → Counts realloc index n d
          (update live index true)
          ((index, n) ∷ drop index held)
          (higher m (n + bytes_in (drop index held)))
          (count_type A scale realloc index n (sizes (bytes_in held) m) d)
  unfolding count_type count_realloc
  count_realloc-Counts live index n m held d tallies l positive most =
      let (old, lives, at, _) = tallies.owned index l in
      let (r, s', run, inv, moves) = L.realloc_law n old d.heap tallies.inv lives positive most in
      let z = sizes (bytes_in held) m in
      subst
        (Counts realloc index n d (update live index true) ((index, n) ∷ drop index held)
          (higher m (n + bytes_in (drop index held))))
        (sym (
          ap (λ b. and_then (lift d (A.mm_realloc b n d.heap)) (count_realloc index n z)) at
          ∙ ap (λ o. and_then (lift d o) (count_realloc index n z)) run))
        (answered r old s' at (ap (λ b. A.mm_realloc b n d.heap) at ∙ run) inv moves)
    where
      new_total : (b old rest : ℕ) → old + rest ≡ b → minus (plus (pos b) n) old ≡ pos (n + rest)
      new_total b old rest e =
          ap (λ x. minus x old) (plus-pos b n) ∙ minus-pos (n + b) old (n + rest) (omega (arith, e))

      answered :
          (r : Option ℕ) (old : Range) (s' : S)
          → d.blocks index ≡ some old.lo
          → A.mm_realloc (d.blocks index) n d.heap ≡ done r s'
          → L.Inv s'
          → Moves A L.Live n old d.heap r s'
          → Counts realloc index n d
              (update live index true)
              ((index, n) ∷ drop index held)
              (higher m (n + bytes_in (drop index held)))
              (count_realloc index n (sizes (bytes_in held) m) r (record d { heap = s' }))
      answered none old s' at run inv moves = inl (s', run, refl)
      answered (some a) old s' at run inv (p, new, _) = inr (
        keep_block index a n (record d { heap = s' }),
        ap
              (λ x.
                done (raise x (sizes (bytes_in held) m))
                  (keep_block index a n (record d { heap = s' })))
              (new_total (bytes_in held) (d.block_sizes index) (bytes_in (drop index held))
                (bytes_in-drop index (d.block_sizes index) held (tallies.sized index l)))
            ∙ ap (λ x. done x (keep_block index a n (record d { heap = s' })))
                (raise-higher (bytes_in held) (n + bytes_in (drop index held)) m),
        keep_block-Tallies L live index a n held (drop index held) (some old.lo) s' p d tallies
            positive inv new (λ k l' ne e. tallies.distinct index k l l' (λ f. ne (sym f)) (at ∙ e))
            (λ k ne. lookup-drop index k held ne),
      )

  count_free-Counts :
      (live : ℕ → Bool) (index m : ℕ) (held : List (ℕ × ℕ)) (n : ℕ) (d : Driver S)
      → Tallies L live held d
      → bytes_in held ≤ m
      → live index ≡ true
      → Counts free index n d
          (update live index false)
          (drop index held)
          (higher m (bytes_in (drop index held)))
          (count_type A scale free index n (sizes (bytes_in held) m) d)
  unfolding count_type
  count_free-Counts live index m held n d tallies le l =
      let (p, lives, at, _) = tallies.owned index l in
      let (s', run, inv, keeps) = L.free_law p d.heap tallies.inv lives in
      let size = d.block_sizes index in
      let left = bytes_in-drop index size held (tallies.sized index l) in
      let after = record d { heap = s' } in
      let then_count : Unit {0} → Command (Driver S) Sizes = λ _ t.
        done (record (sizes (bytes_in held) m) { total_size = minus (pos (bytes_in held)) size })
          t in
      inr (
        after,
        ap (λ b. and_then (lift d (A.mm_free b d.heap)) then_count) at
            ∙ ap (λ o. and_then (lift d o) then_count) run
            ∙ ap (λ x. done (record (sizes (bytes_in held) m) { total_size = x }) after)
                (minus-pos (bytes_in held) size (bytes_in (drop index held)) left)
            ∙ ap (λ x. done (sizes (bytes_in (drop index held)) x) after)
                (sym (higher-low m (bytes_in (drop index held)) (omega (arith, left, le)))),
        drop-Tallies L live index held s' p d tallies l at inv keeps,
      )

  count_type-Counts :
      (t : OpType) (live : ℕ → Bool) (index n m : ℕ) (held : List (ℕ × ℕ)) (d : Driver S)
      → Tallies L live held d
      → bytes_in held ≤ m
      → Fits t live index n
      → Counts t index n d
          (live_then t live index)
          (held_after t index n held)
          (higher m (bytes_in (held_after t index n held)))
          (count_type A scale t index n (sizes (bytes_in held) m) d)
  count_type-Counts alloc live index n m held d tallies le (positive, most) =
      count_alloc-Counts live index n m held d tallies positive most
  count_type-Counts realloc live index n m held d tallies le (l, positive, most) =
      count_realloc-Counts live index n m held d tallies l positive most
  count_type-Counts free live index n m held d tallies le l =
      count_free-Counts live index m held n d tallies le l

  -- The run ends in the first operation whose request gets no memory, with the status 1.
  abbrev pub StopsRefused : List TraceOp → Sizes → Driver S → Outcome (Driver S) Sizes → Type 0
  StopsRefused [] z d r = ⊥
  StopsRefused (op ∷ ops) z d r =
      ((s : S) × (Refuses op.type op.index (size_of op) d s)
        × (r ≡ exited 1 (record d { heap = s })))
      ⊎ ((z' : Sizes) × (d' : Driver S) × (count_type A scale op.type op.index (size_of op) z d
            ≡ done z' d')
          × StopsRefused ops z' d' r)

  -- There was no memory, or the peak is the one of the trace.
  abbrev pub Peaks : List TraceOp → Sizes → Driver S → ℕ → Outcome (Driver S) Sizes → Type 0
  Peaks ops z d most r =
      (StopsRefused ops z d r) ⊎ ((d : Driver S) × (total : ℕ) × (r ≡ done (sizes total most) d))

  later :
      (op : TraceOp) (ops : List TraceOp) (z z' : Sizes) (d d' : Driver S) (most : ℕ)
      (r : Outcome (Driver S) Sizes)
      → count_type A scale op.type op.index (size_of op) z d ≡ done z' d'
      → Peaks ops z' d' most r
      → Peaks (op ∷ ops) z d most r
  later op ops z z' d d' most r ran (inl stops) = inl (inr (z', d', ran, stops))
  later op ops z z' d d' most r ran (inr ends) = inr ends

  pub count_ops-Peaks :
      (ops : List TraceOp) (live : ℕ → Bool) (m : ℕ) (held : List (ℕ × ℕ)) (d : Driver S)
      → Tallies L live held d
      → bytes_in held ≤ m
      → OpsFit live ops
      → Peaks ops
          (sizes (bytes_in held) m)
          d
          (peak size_of ops held m)
          (count_ops A scale ops (sizes (bytes_in held) m) d)
  unfolding count_ops
  count_ops-Peaks [] live m held d tallies le fits = inr (d, bytes_in held, refl)
  count_ops-Peaks (op ∷ ops) live m held d tallies le (fits, more) =
      go_on (count_type-Counts op.type live op.index (size_of op) m held d tallies le fits)
        (λ t tallies'.
          count_ops-Peaks ops (live_then op.type live op.index) (higher m (bytes_in held')) held' t
            tallies' (higher-most m (bytes_in held')) more)
    where
      held' : List (ℕ × ℕ)
      held' = held_after op.type op.index (size_of op) held

      z : Sizes
      z = sizes (bytes_in held) m

      z' : Sizes
      z' = sizes (bytes_in held') (higher m (bytes_in held'))

      rest : Sizes → Driver S → Outcome (Driver S) Sizes
      rest = count_ops A scale ops

      first : Outcome (Driver S) Sizes
      first = count_type A scale op.type op.index (size_of op) z d

      most : ℕ
      most = peak size_of ops held' (higher m (bytes_in held'))

      go_on :
          Counts op.type op.index
            (size_of op)
            d
            (live_then op.type live op.index)
            held'
            (higher m (bytes_in held'))
            first
          → ((t : Driver S)
              → Tallies L (live_then op.type live op.index) held' t
              → Peaks ops z' t most (rest z' t))
          → Peaks (op ∷ ops) z d most (and_then first rest)
      go_on (inl (s, refused, e)) k = inl (inl (s, refused, ap (λ o. and_then o rest) e))
      go_on (inr (t, e, tallies')) k =
          later op ops z z' d t most (and_then first rest) e
            (subst (λ o. Peaks ops z' t most (and_then o rest)) (sym e) (k t tallies'))
