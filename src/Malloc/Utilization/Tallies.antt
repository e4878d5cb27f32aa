-- ===== src/Malloc/Utilization/Tallies.antt =====
-- The blocks and sizes that eval_mm_util of mdriver.c keeps, against an allocator that keeps the
-- contract.
use computer_systems_project.Base.{
  ℕ, ◌+◌, ◌≤◌, ◌<◌, ◌≡◌, ◌≢◌, ◌∙◌, refl, sym, ap, subst, inl, inr, Bool, true, false, Option, none,
  some, List, [], ◌∷◌, arith, ◌==◌, if◌then◌else◌, update, update_other, Bool-cases, eq_of_==,
  ne_of_==, ==_false_of_ne,
}
use computer_systems_project.Malloc.Ranges.{Range}
use computer_systems_project.Malloc.Driver.{Allocator, Driver}
use computer_systems_project.Malloc.Driver.Contract.{Lawful, KeepsLive, IsNew}
use computer_systems_project.Malloc.Utilization.{keep_block}

-- Identifiers with the sizes of their payloads, the latest first.
abbrev pub lookup : ℕ → List (ℕ × ℕ) → Option ℕ
lookup i [] = none
lookup i ((k, n) ∷ held) = if k == i then some n else lookup i held

abbrev pub drop : ℕ → List (ℕ × ℕ) → List (ℕ × ℕ)
drop i [] = []
drop i ((k, n) ∷ held) = if k == i then held else (k, n) ∷ drop i held

abbrev pub bytes_in : List (ℕ × ℕ) → ℕ
bytes_in [] = 0
bytes_in ((k, n) ∷ held) = n + bytes_in held

pub bytes_in-drop :
    (i n : ℕ) (held : List (ℕ × ℕ))
    → lookup i held ≡ some n
    → n + bytes_in (drop i held) ≡ bytes_in held
bytes_in-drop i n [] e = cc
bytes_in-drop i n ((k, m) ∷ held) e = ground (arith, bytes_in-drop i n held)

pub lookup-drop : (i k : ℕ) (held : List (ℕ × ℕ)) → k ≢ i → lookup k (drop i held) ≡ lookup k held
lookup-drop i k [] ne = refl
lookup-drop i k ((j, n) ∷ held) ne = ground (arith, lookup-drop i k held ne)

module _ {S : Type 0} {A : Allocator S} (L : Lawful A) where
  abbrev pub Owned : S → Option ℕ → Type 0
  Owned s block = (p : Range) × L.Live s p × (block ≡ some p.lo) × (p.lo ≤ p.hi)

  -- The identifiers in `live` have a payload each, of the size that is noted.
  pub record Tallies (live : ℕ → Bool) (held : List (ℕ × ℕ)) (d : Driver S) : Type 0 where
    pub inv : L.Inv d.heap
    pub owned : (i : ℕ) → live i ≡ true → Owned d.heap (d.blocks i)
    pub distinct : (i k : ℕ) → live i ≡ true → live k ≡ true → i ≢ k → d.blocks i ≢ d.blocks k
    pub sized : (i : ℕ) → live i ≡ true → lookup i held ≡ some (d.block_sizes i)

  Owned-kept :
      (released : Option ℕ) (s s' : S) (block : Option ℕ)
      → KeepsLive A L.Live released s s'
      → released ≢ block
      → Owned s block
      → Owned s' block
  Owned-kept released s s' block keeps ne (p, live, at, le) =
      (p, (keeps p live (subst (λ b. released ≢ b) at ne)).0, at, le)

  module _ (live : ℕ → Bool) (index a n : ℕ) (held rest : List (ℕ × ℕ)) (released : Option ℕ)
      (s' : S) (p : Range) (d : Driver S) (tallies : Tallies live held d) (positive : 0 < n)
      (inv : L.Inv s') (new : IsNew A L.Live released a n d.heap s' p)
      (others : (k : ℕ) → live k ≡ true → k ≢ index → released ≢ d.blocks k)
      (same_rest : (k : ℕ) → k ≢ index → lookup k rest ≡ lookup k held) where
    was_live : (i : ℕ) → (i == index) ≡ false → update live index true i ≡ true → live i ≡ true
    was_live i f e = sym (update_other live index true i (ne_of_== i index f)) ∙ e

    elsewhere : (k : ℕ) → live k ≡ true → k ≢ index → some a ≢ d.blocks k
    elsewhere k l ne e =
        let (q, live_q, at, le) = tallies.owned k l in
        let apart = new.6 q live_q (subst (λ b. released ≢ b) at (others k l ne)) in
        let here : a ≡ q.lo = cc (e, at) in ground (arith, apart, new.1, new.2, le, positive, here)

    at_index : (i : ℕ) → (i == index) ≡ true → update d.blocks index (some a) i ≡ some a
    at_index i f = ground arith

    not_index : (i : ℕ) → (i == index) ≡ false → update d.blocks index (some a) i ≡ d.blocks i
    not_index i f = update_other d.blocks index (some a) i (ne_of_== i index f)

    keep_block-Owned :
        (i : ℕ) → update live index true i ≡ true → Owned s' (update d.blocks index (some a) i)
    keep_block-Owned i e = elim (Bool-cases (i == index)) [
      | inl f ↦
          subst (Owned s') (sym (at_index i f))
            (p, new.0, ap some (sym new.1), omega (arith, new.1, new.2, positive))
      | inr f ↦
          let l = was_live i f e in
          subst (Owned s') (sym (not_index i f)) (
            Owned-kept released d.heap s' (d.blocks i) new.7 (others i l (ne_of_== i index f))
              (tallies.owned i l))
    ]

    distinct_now :
        (i k : ℕ)
        → update live index true i ≡ true
        → update live index true k ≡ true
        → i ≢ k
        → update d.blocks index (some a) i ≢ update d.blocks index (some a) k
    distinct_now i k e f ne same = elim (Bool-cases (i == index)) [
      | inl g ↦ elim (Bool-cases (k == index)) [
        | inl h ↦ ne (eq_of_== i index g ∙ sym (eq_of_== k index h))
        | inr h ↦
            elsewhere k (was_live k h f) (ne_of_== k index h)
              (sym (at_index i g) ∙ same ∙ not_index k h)
      ]
      | inr g ↦ elim (Bool-cases (k == index)) [
        | inl h ↦
            elsewhere i (was_live i g e) (ne_of_== i index g)
              (sym (at_index k h) ∙ sym same ∙ not_index i g)
        | inr h ↦
            tallies.distinct i k (was_live i g e) (was_live k h f) ne
              (sym (not_index i g) ∙ same ∙ not_index k h)
      ]
    ]

    sized_now :
        (i : ℕ)
        → update live index true i ≡ true
        → lookup i ((index, n) ∷ rest) ≡ some (update d.block_sizes index n i)
    sized_now i e = elim (Bool-cases (i == index)) [
      | inl f ↦ ground arith
      | inr f ↦ rw (==_false_of_ne index i (λ g. ne_of_== i index f (sym g))) (
          same_rest i (ne_of_== i index f)
          ∙ tallies.sized i (was_live i f e)
          ∙ ap some (sym (update_other d.block_sizes index n i (ne_of_== i index f))))
    ]

    -- A payload more, or one in place of another.
    pub keep_block-Tallies :
        Tallies
          (update live index true)
          ((index, n) ∷ rest)
          (keep_block index a n (record d { heap = s' }))
    keep_block-Tallies = record {
      inv = inv;
      owned = keep_block-Owned;
      distinct = distinct_now;
      sized = sized_now;
    }

  -- A payload less.
  pub drop-Tallies :
      (live : ℕ → Bool) (index : ℕ) (held : List (ℕ × ℕ)) (s' : S) (p : Range) (d : Driver S)
      → Tallies live held d
      → live index ≡ true
      → d.blocks index ≡ some p.lo
      → L.Inv s'
      → KeepsLive A L.Live (some p.lo) d.heap s'
      → Tallies (update live index false) (drop index held) (record d { heap = s' })
  drop-Tallies live index held s' p d tallies l at inv keeps = record {
    inv = inv;
    owned = λ i e.
        Owned-kept (some p.lo) d.heap s' (d.blocks i) keeps
          (λ f. tallies.distinct index i l (still i e) (λ g. other i e (sym g)) (at ∙ f))
          (tallies.owned i (still i e));
    distinct = λ i k e f. tallies.distinct i k (still i e) (still k f);
    sized = λ i e. lookup-drop index i held (other i e) ∙ tallies.sized i (still i e);
  }
    where
      other : (i : ℕ) → update live index false i ≡ true → i ≢ index
      other i e = ground arith

      still : (i : ℕ) → update live index false i ≡ true → live i ≡ true
      still i e = ground arith
