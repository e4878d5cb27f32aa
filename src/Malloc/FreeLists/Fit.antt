-- ===== src/Malloc/FreeLists/Fit.antt =====
-- find_fit over all free lists.
use computer_systems_project.Base.{
  ℕ, ◌≤◌, ◌≡◌, refl, inl, inr, ap, Bool, true, false, not, ◌&&◌, ◌||◌, Option, none, some, List, [],
  ◌∷◌, arith, All, has, Distinct, leb, Bool-cases, subst, sym,
}
use computer_systems_project.LinkedList.{LinkedList}
use computer_systems_project.Malloc.Blocks.{FreeBlockList}
use computer_systems_project.Malloc.FreeLists.{
  Found, block, give_up, next_list, search, backwards, is_empty, find_in,
}
use computer_systems_project.Malloc.FreeLists.Search.{Right, search-Right}

module _ (L : LinkedList) (size : ℕ → ℕ) (asize : ℕ) where
  abbrev pub fits : ℕ → Bool
  fits p = leb asize (size p)

  -- A list without repetition, of blocks that are at least as large as it says.
  abbrev pub IsSized : FreeBlockList L.Handle → Type 0
  IsSized b =
      Distinct (L.items b.blocks)
      × ((p : ℕ) → has p (L.items b.blocks) ≡ true → leb b.list_size (size p) ≡ true)

  -- A list that find_fit may search.
  abbrev pub is_open : FreeBlockList L.Handle → Bool
  is_open b = not (is_empty L b.blocks) && leb asize b.list_size

  abbrev pub listed : ℕ → List (FreeBlockList L.Handle) → Bool
  listed p [] = false
  listed p (b ∷ bs) = has p (L.items b.blocks) || listed p bs

  abbrev pub Fit : List (FreeBlockList L.Handle) → Option ℕ → Type 0
  Fit bs none = All (λ b. is_open b ≡ false) bs
  Fit bs (some p) = (listed p bs ≡ true) × (asize ≤ size p)

  abbrev result : List (FreeBlockList L.Handle) → Found → Option ℕ
  result bs (block p) = some p
  result bs give_up = none
  result bs next_list = find_in L size asize bs

  find_in-closed :
      (b : FreeBlockList L.Handle) (bs : List (FreeBlockList L.Handle))
      → is_open b ≡ false
      → find_in L size asize (b ∷ bs) ≡ find_in L size asize bs
  unfolding find_in
  find_in-closed b bs e = rw e refl

  find_in-open :
      (b : FreeBlockList L.Handle) (bs : List (FreeBlockList L.Handle))
      → is_open b ≡ true
      → find_in L size asize (b ∷ bs)
        ≡ result bs (search fits none (backwards (L.items b.blocks)) (L.items b.blocks))
  unfolding find_in
  find_in-open b bs e = rw e refl

  searched :
      (b : FreeBlockList L.Handle) (items : List ℕ)
      → L.items b.blocks ≡ items
      → is_open b ≡ true
      → Distinct items
      → Right fits items (search fits none (backwards items) items)
  searched b [] e e2 d =
      absurd (ground (arith, ap (λ (l : List ℕ). elim l [ [] ↦ true | _ ∷ _ ↦ false ]) e))
  searched b (x ∷ xs) e e2 d = search-Right fits x xs d

  skip :
      (b : FreeBlockList L.Handle) (bs : List (FreeBlockList L.Handle)) (r : Option ℕ)
      → is_open b ≡ false
      → Fit bs r
      → Fit (b ∷ bs) r
  skip b bs none e h = (e, h)
  skip b bs (some p) e h = (ground arith, h.1)

  -- An open list has a block, and each of its blocks fits.
  first_fits :
      (b : FreeBlockList L.Handle) (items : List ℕ)
      → L.items b.blocks ≡ items
      → is_open b ≡ true
      → IsSized b
      → Right fits items give_up
      → ⊥
  first_fits b [] e e2 v h =
      absurd (ground (arith, ap (λ (l : List ℕ). elim l [ [] ↦ true | _ ∷ _ ↦ false ]) e))
  first_fits b (x ∷ xs) e e2 v h =
      let listed_x : has x (L.items b.blocks) ≡ true =
        subst (λ l. has x l ≡ true) (sym e) (ground arith) in
      absurd (ground (arith, v.1 x listed_x, h x (ground arith)))

  from_search :
      (b : FreeBlockList L.Handle) (bs : List (FreeBlockList L.Handle)) (r : Found)
      → is_open b ≡ true
      → IsSized b
      → Right fits (L.items b.blocks) r
      → Fit (b ∷ bs) (result bs r)
  from_search b bs (block p) e v h = (ground arith, ground arith)
  from_search b bs give_up e v h = absurd (first_fits b (L.items b.blocks) refl e v h)
  from_search b bs next_list e v h = absurd h

  -- Where each list holds blocks of at least its own size and none twice, find_fit returns a free
  -- block that is large enough, and NULL only if every list for blocks of at least the size asked
  -- for is empty.
  pub find_in-Fit :
      (bs : List (FreeBlockList L.Handle)) → All IsSized bs → Fit bs (find_in L size asize bs)
  unfolding find_in
  find_in-Fit [] v = tt
  find_in-Fit (b ∷ bs) (v, vs) = elim (Bool-cases (is_open b)) [
    | inr e ↦ rw (find_in-closed b bs e) (skip b bs _ e (find_in-Fit bs vs))
    | inl e ↦
        rw (find_in-open b bs e) (from_search b bs _ e v (searched b (L.items b.blocks) refl e v.0))
  ]
