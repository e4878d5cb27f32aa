-- ===== src/Malloc/Driver/Renewal.antt =====
-- A payload that the allocator returned, recorded and filled by the driver.
use computer_systems_project.Base.{
  ℕ, ◌%◌, ◌<◌, ◌≡◌, ◌≢◌, ◌∙◌, sym, subst, inl, inr, Bool, true, false, Option, some, List, [], ◌∷◌,
  arith, All, ◌==◌, update, update_same, update_other, Bool-cases, eq_of_==, ne_of_==,
}
use computer_systems_project.Malloc.Ranges.{Range, Disjoint}
use computer_systems_project.Malloc.Driver.{Allocator, Driver, fill}
use computer_systems_project.Malloc.Driver.Contract.{Lawful, IsNew}
use computer_systems_project.Malloc.Driver.Agreement.{
  range_of, Covered, Holds, Agrees, keeps-Covered, new-Apart, Holds-still, Holds-new,
}

module _ {S : Type 0} {A : Allocator S} (L : Lawful A) where
  -- The driver's records after the payload at `a` is recorded for `index` and filled.
  abbrev pub recorded : ℕ → ℕ → ℕ → S → List Range → Driver S → Driver S
  recorded index a n s' rs d = record {
    heap = A.with_bytes (fill a n (index % 256) (A.bytes_of s')) s';
    ranges = range_of a n ∷ rs;
    blocks = update d.blocks index (some a);
    block_sizes = update d.block_sizes index n;
    errors = d.errors;
  }

  module _ (live : ℕ → Bool) (index a n : ℕ) (released : Option ℕ) (s' : S) (rs : List Range)
      (p : Range) (d : Driver S) (agrees : Agrees L live d) (positive : 0 < n) (inv : L.Inv s')
      (new : IsNew A L.Live released a n d.heap s' p) (disjoint : Disjoint rs)
      (covered : All (Covered L d.heap) rs) (stay : All (λ r. released ≢ some r.lo) rs)
      (others : (k : ℕ) → live k ≡ true → k ≢ index → released ≢ d.blocks k) where
    abbrev s'' : S
    s'' = A.with_bytes (fill a n (index % 256) (A.bytes_of s')) s'

    Covered-All : (ts : List Range) → All (Covered L s') ts → All (Covered L s'') ts
    Covered-All [] h = tt
    Covered-All (t ∷ ts) ((q, l, lo, hi), hs) =
        let (_, _, lives, _) = L.write_law (fill a n (index % 256) (A.bytes_of s')) s' inv in
        ((q, lives q l, lo, hi), Covered-All ts hs)

    new-Covered : Covered L s'' (range_of a n)
    new-Covered =
        let (_, _, lives, _) = L.write_law (fill a n (index % 256) (A.bytes_of s')) s' inv in
        (p, lives p new.0, new.1, omega (arith, new.2))

    was_live : (i : ℕ) → i ≢ index → update live index true i ≡ true → live i ≡ true
    was_live i ne e = sym (update_other live index true i ne) ∙ e

    keep_block-Owned :
        (i : ℕ)
        → update live index true i ≡ true
        → Holds L s'' (update d.blocks index (some a) i) (update d.block_sizes index n i) i
    keep_block-Owned i e = elim (Bool-cases (i == index)) [
      | inl f ↦
          subst
            (λ k. Holds L s'' (update d.blocks index (some a) k) (update d.block_sizes index n k) k)
            (sym (eq_of_== i index f))
            (subst (λ b. Holds L s'' b (update d.block_sizes index n index) index)
              (sym (update_same d.blocks index (some a)))
              (subst (λ m. Holds L s'' (some a) m index) (sym (update_same d.block_sizes index n))
                (Holds-new L released a n index d.heap s' p positive new inv)))
      | inr f ↦
          let ne = ne_of_== i index f in
          let l = was_live i ne e in
          subst (λ b. Holds L s'' b (update d.block_sizes index n i) i)
            (sym (update_other d.blocks index (some a) i ne))
            (subst (λ m. Holds L s'' (d.blocks i) m i)
              (sym (update_other d.block_sizes index n i ne))
              (Holds-still L released a n (index % 256) d.heap s' p (d.blocks i) (d.block_sizes i) i
                positive new inv (others i l ne) (agrees.owned i l)))
    ]

    -- The new payload is not where another identifier has its payload.
    elsewhere : (k : ℕ) → live k ≡ true → k ≢ index → some a ≢ d.blocks k
    elsewhere k l ne e =
        let (q, live_q, at, some_bytes, room, _) = agrees.owned k l in
        let apart = new.6 q live_q (subst (λ b. released ≢ b) at (others k l ne)) in
        let here : a ≡ q.lo = cc (e, at) in
        ground (arith, apart, new.1, new.2, room, some_bytes, positive, here)

    at_index : (i : ℕ) → (i == index) ≡ true → update d.blocks index (some a) i ≡ some a
    at_index i f = ground arith

    not_index : (i : ℕ) → (i == index) ≡ false → update d.blocks index (some a) i ≡ d.blocks i
    not_index i f = update_other d.blocks index (some a) i (ne_of_== i index f)

    distinct_now :
        (i k : ℕ)
        → update live index true i ≡ true
        → update live index true k ≡ true
        → i ≢ k
        → update d.blocks index (some a) i ≢ update d.blocks index (some a) k
    distinct_now i k e f ne same = elim (Bool-cases (i == index)) [
      | inl g ↦ elim (Bool-cases (k == index)) [
        | inl h ↦ ne (eq_of_== i index g ∙ sym (eq_of_== k index h))
        | inr h ↦
            let ne' = ne_of_== k index h in
            elsewhere k (was_live k ne' f) ne' (sym (at_index i g) ∙ same ∙ not_index k h)
      ]
      | inr g ↦
          let ne' = ne_of_== i index g in
          elim (Bool-cases (k == index)) [
            | inl h ↦
                elsewhere i (was_live i ne' e) ne' (sym (at_index k h) ∙ sym same ∙ not_index i g)
            | inr h ↦
                agrees.distinct i k (was_live i ne' e) (was_live k (ne_of_== k index h) f) ne
                  (sym (not_index i g) ∙ same ∙ not_index k h)
          ]
    ]

    pub recorded-Agrees : Agrees L (update live index true) (recorded index a n s' rs d)
    recorded-Agrees = record {
      inv = (L.write_law (fill a n (index % 256) (A.bytes_of s')) s' inv).0;
      disjoint = (
        omega (arith, positive),
        new-Apart L released a n d.heap s' p rs positive new stay covered disjoint,
        disjoint,
      );
      covered =
          (new-Covered, Covered-All rs (keeps-Covered L released d.heap s' rs new.7 stay covered));
      owned = keep_block-Owned;
      distinct = distinct_now;
    }
