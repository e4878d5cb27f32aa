-- ===== src/Malloc/Driver/Release.antt =====
-- What the driver's records still say of the other payloads after one of them is released, and the
-- comparison of the data after mm_realloc.
use computer_systems_project.Base.{
  ℕ, zero, suc, ◌+◌, ◌<◌, ◌≡◌, ◌≢◌, ◌∙◌, sym, refl, subst, inl, inr, Bool, true, false, Option,
  some, List, [], ◌∷◌, arith, All, ◌==◌, update, Bool-cases,
}
use computer_systems_project.Malloc.Ranges.{Range, remove_range, remove_range-Disjoint}
use computer_systems_project.Malloc.Driver.{Allocator, Driver, data_preserved, same_char}
use computer_systems_project.Malloc.Driver.Contract.{Lawful, KeepsLive}
use computer_systems_project.Malloc.Driver.Agreement.{Covered, Holds, Agrees, keeps-Covered}

-- The loop succeeds where each byte has the value, and that is not negative as a char.
pub data_preserved-All :
    (n p v : ℕ) (bytes : ℕ → ℕ)
    → v < 128
    → ((j : ℕ) → j < n → bytes (p + j) ≡ v)
    → data_preserved n p v bytes ≡ true
unfolding data_preserved same_char
data_preserved-All zero p v bytes low h = refl
data_preserved-All (suc n) p v bytes low h =
    let first : bytes p ≡ v = subst (λ q. bytes q ≡ v) (omega arith) (h 0 (omega arith)) in
    let rest =
      data_preserved-All n (suc p) v bytes low
        (λ j l. subst (λ q. bytes q ≡ v) (omega arith) (h (suc j) (omega (arith, l)))) in
    ground (arith, first, rest)

removed-All : (P : Range → Type 0) (a : ℕ) (rs : List Range) → All P rs → All P (remove_range a rs)
unfolding remove_range
removed-All P a [] h = tt
removed-All P a (r ∷ rs) h = elim (Bool-cases (r.lo == a)) [
  | inl e ↦ rw e h.1
  | inr e ↦ rw e (h.0, removed-All P a rs h.1)
]

elsewhere-All :
    (a : ℕ) (rs : List Range) → All (λ r. r.lo ≢ a) rs → All (λ r. some a ≢ some r.lo) rs
elsewhere-All a [] h = tt
elsewhere-All a (r ∷ rs) h = (λ e. h.0 (cc e), elsewhere-All a rs h.1)

module _ {S : Type 0} {A : Allocator S} (L : Lawful A) where
  pub Holds-kept :
      (released : Option ℕ) (s s' : S) (block : Option ℕ) (m i : ℕ)
      → KeepsLive A L.Live released s s'
      → released ≢ block
      → Holds L s block m i
      → Holds L s' block m i
  Holds-kept released s s' block m i keeps ne (q, live, at, some_bytes, room, held) =
      let (live', same) = keeps q live (subst (λ b. released ≢ b) at ne) in
      (
        q,
        live',
        at,
        some_bytes,
        room,
        λ j l. same (q.lo + j) (omega arith, omega (arith, room, l)) ∙ held j l,
      )

  module _ (live : ℕ → Bool) (d : Driver S) (agrees : Agrees L live d) (p : Range) where
    pub rest-Covered : All (Covered L d.heap) (remove_range p.lo d.ranges)
    rest-Covered = removed-All (Covered L d.heap) p.lo d.ranges agrees.covered

    pub rest_elsewhere : All (λ r. some p.lo ≢ some r.lo) (remove_range p.lo d.ranges)
    rest_elsewhere =
        elsewhere-All p.lo (remove_range p.lo d.ranges)
          (remove_range-Disjoint p.lo d.ranges agrees.disjoint).2

    -- The payload of `index` is not that of another identifier.
    pub not_released :
        (index k : ℕ)
        → live index ≡ true
        → d.blocks index ≡ some p.lo
        → live k ≡ true
        → k ≢ index
        → some p.lo ≢ d.blocks k
    not_released index k l at l' ne e = agrees.distinct index k l l' (λ f. ne (sym f)) (at ∙ e)

    pub free-Agrees :
        (index : ℕ) (s' : S)
        → live index ≡ true
        → d.blocks index ≡ some p.lo
        → L.Inv s'
        → KeepsLive A L.Live (some p.lo) d.heap s'
        → Agrees L
            (update live index false)
            (record d { heap = s'; ranges = remove_range p.lo d.ranges })
    free-Agrees index s' l at inv keeps = record {
      inv = inv;
      disjoint = (remove_range-Disjoint p.lo d.ranges agrees.disjoint).1;
      covered =
          keeps-Covered L (some p.lo) d.heap s' (remove_range p.lo d.ranges) keeps rest_elsewhere
            rest-Covered;
      owned = λ i e.
          Holds-kept (some p.lo) d.heap s' (d.blocks i) (d.block_sizes i) i keeps
            (not_released index i l at (still i e) (other i e)) (agrees.owned i (still i e));
      distinct = λ i k e f. agrees.distinct i k (still i e) (still k f);
    }
      where
        other : (i : ℕ) → update live index false i ≡ true → i ≢ index
        other i e = ground arith

        still : (i : ℕ) → update live index false i ≡ true → live i ≡ true
        still i e = ground arith
