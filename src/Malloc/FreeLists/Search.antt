-- ===== src/Malloc/FreeLists/Search.antt =====
-- The inner loop of find_fit, which walks one list from both ends until the two walks meet.
use mathlib.Core.List.{append_assoc, append-nil}
use computer_systems_project.Base.{
  ℕ, zero, suc, ◌+◌, ◌≤◌, ◌≡◌, refl, inl, inr, sym, ap, subst, ◌∙◌, Bool, true, false, Option, none,
  some, List, [], ◌∷◌, ◌++◌, arith, has, Distinct, length, length-append, Bool-cases, ◌==◌, ==_refl,
  eq_of_==, has-append,
}
use computer_systems_project.Malloc.FreeLists.{
  Found, block, give_up, next_list, search, backwards, first, same_elem,
}

-- What the search of the sequence `items` may find.
abbrev pub Right : (ℕ → Bool) → List ℕ → Found → Type 0
Right fits items (block p) = (has p items ≡ true) × (fits p ≡ true)
Right fits items give_up = (p : ℕ) → has p items ≡ true → fits p ≡ false
Right fits items next_list = ⊥

same_elem_refl : (o : Option ℕ) → same_elem o o ≡ true
same_elem_refl none = refl
same_elem_refl (some a) = ==_refl a

-- A sequence that is not empty has a last element.
split_last : (x : ℕ) (xs : List ℕ) → (m : List ℕ) × (y : ℕ) × (x ∷ xs ≡ m ++ y ∷ [])
split_last x [] = ([], x, refl)
split_last x (z ∷ xs) = let (m, y, e) = split_last z xs in (x ∷ m, y, ap (λ l. x ∷ l) e)

backwards-last : (m : List ℕ) (y : ℕ) → backwards (m ++ y ∷ []) ≡ y ∷ backwards m
backwards-last [] y = refl
backwards-last (x ∷ m) y = rw (backwards-last m y) refl

module _ (fits : ℕ → Bool) where
  -- The state in which the walks stand at the two ends of x ∷ m ++ y ∷ [].
  abbrev both_ends : ℕ → List ℕ → ℕ → List ℕ → List ℕ → Found
  both_ends x m y post rest =
      search fits (first post) (y ∷ (backwards m ++ x ∷ rest)) (x ∷ (m ++ y ∷ post))

  step :
      (x : ℕ) (w : ℕ) (m : List ℕ) (y : ℕ) (post rest : List ℕ)
      → fits y ≡ false
      → fits x ≡ false
      → (y == w) ≡ false
      → same_elem (first post) (some w) ≡ false
      → both_ends x (w ∷ m) y post rest
        ≡ search fits (some y) (backwards (w ∷ m) ++ x ∷ rest) (w ∷ (m ++ y ∷ post))
  unfolding search
  step x w m y post rest ny nx d d' = rw (ny, nx, d, d') refl

  one_left :
      (x : ℕ) (post rest : List ℕ)
      → fits x ≡ false
      → search fits (first post) (x ∷ rest) (x ∷ post) ≡ give_up
  unfolding search
  one_left x post rest nx = elim (Bool-cases (same_elem (some x) (first post))) [
    | inl e ↦ rw (nx, e) refl
    | inr e ↦ rw (nx, e, same_elem_refl (first post)) refl
  ]

  two_left :
      (x y : ℕ) (post rest : List ℕ)
      → fits y ≡ false
      → fits x ≡ false
      → both_ends x [] y post rest ≡ give_up
  unfolding search
  two_left x y post rest ny nx = rw (ny, nx, ==_refl y) refl

  hit_back :
      (x : ℕ) (m : List ℕ) (y : ℕ) (post rest : List ℕ)
      → fits y ≡ true
      → both_ends x m y post rest ≡ block y
  unfolding search
  hit_back x m y post rest hit = rw hit refl

  hit_front :
      (x : ℕ) (m : List ℕ) (y : ℕ) (post rest : List ℕ)
      → fits y ≡ false
      → fits x ≡ true
      → both_ends x m y post rest ≡ block x
  unfolding search
  hit_front x m y post rest ny hit = rw (ny, hit) refl

  -- Blocks at the two ends that do not fit.
  wider :
      (x : ℕ) (m : List ℕ) (y : ℕ) (r : Found)
      → fits x ≡ false
      → fits y ≡ false
      → Right fits m r
      → Right fits (x ∷ (m ++ y ∷ [])) r
  wider x m y (block p) nx ny (h, hit) = (ground (arith, has-append p m (y ∷ [])), hit)
  wider x m y give_up nx ny h = λ p k. ends_out p k
    where
      ends_out : (p : ℕ) → has p (x ∷ (m ++ y ∷ [])) ≡ true → fits p ≡ false
      ends_out p k = elim (Bool-cases (has p m)) [
        | inl e ↦ h p e
        | inr e ↦ elim (Bool-cases (x == p)) [
          | inl f ↦ subst (λ q. fits q ≡ false) (eq_of_== x p f) nx
          | inr f ↦
              subst (λ q. fits q ≡ false) (eq_of_== y p (ground (arith, has-append p m (y ∷ []))))
                ny
        ]
      ]
  wider x m y next_list nx ny h = absurd h

  apart :
      (x w : ℕ) (m : List ℕ) (y : ℕ) (post : List ℕ)
      → Distinct (x ∷ ((w ∷ m) ++ y ∷ post))
      → ((y == w) ≡ false)
        × (same_elem (first post) (some w) ≡ false)
        × Distinct ((w ∷ m) ++ y ∷ post)
  apart x w m y [] d = (ground (arith, has-append w m (y ∷ [])), refl, d.1)
  apart x w m y (q ∷ post) d = (
    ground (arith, has-append w m (y ∷ q ∷ post)),
    ground (arith, has-append w m (y ∷ q ∷ post)),
    d.1,
  )

  abbrev Walk : List ℕ → Type 0
  Walk mid =
      (post rest : List ℕ)
      → Distinct (mid ++ post)
      → Right fits mid (search fits (first post) (backwards mid ++ rest) (mid ++ post))

  meet_one : (x : ℕ) → Walk (x ∷ [])
  unfolding search
  meet_one x post rest d = elim (Bool-cases (fits x)) [
    | inl e ↦ rw e (ground arith, e)
    | inr e ↦ rw (one_left x post rest e) (λ p k. ground (arith, eq_of_== x p))
  ]

  meet_ends :
      (x : ℕ) (m : List ℕ) (y : ℕ) (post rest : List ℕ)
      → Distinct (x ∷ (m ++ y ∷ post))
      → ((w : ℕ) (m' : List ℕ) → m ≡ w ∷ m' → Walk m)
      → Right fits (x ∷ (m ++ y ∷ [])) (both_ends x m y post rest)
  meet_ends x m y post rest d inner = elim (Bool-cases (fits y)) [
    | inl hit ↦ rw (hit_back x m y post rest hit) (ground (arith, has-append y m (y ∷ [])), hit)
    | inr ny ↦ elim (Bool-cases (fits x)) [
      | inl hit ↦ rw (hit_front x m y post rest ny hit) (ground arith, hit)
      | inr nx ↦ go m d inner ny nx
    ]
  ]
    where
      go :
          (m : List ℕ)
          → Distinct (x ∷ (m ++ y ∷ post))
          → ((w : ℕ) (m' : List ℕ) → m ≡ w ∷ m' → Walk m)
          → fits y ≡ false
          → fits x ≡ false
          → Right fits (x ∷ (m ++ y ∷ [])) (both_ends x m y post rest)
      go [] d inner ny nx =
          rw (two_left x y post rest ny nx) (wider x [] y give_up nx ny (λ p k. cc))
      go (w ∷ m) d inner ny nx =
          let (e1, e2, d') = apart x w m y post d in
          rw (step x w m y post rest ny nx e1 e2)
            (wider x (w ∷ m) y _ nx ny (inner w m refl (y ∷ post) (x ∷ rest) d'))

  meet_all : (n : ℕ) (x : ℕ) (xs : List ℕ) → length xs ≤ n → Walk (x ∷ xs)
  meet_all n x [] low = meet_one x
  meet_all zero x (z ∷ xs) low = absurd (omega arith)
  meet_all (suc n) x (z ∷ xs) low = λ post rest d.
      let (m, y, e) = split_last z xs in
      let size : length (z ∷ xs) ≡ length m + 1 = ap length e ∙ length-append m (y ∷ []) in
      let d' : Distinct (x ∷ (m ++ y ∷ post)) =
        subst (λ l. Distinct (x ∷ l)) (append_assoc m (y ∷ []) post)
          (subst (λ l. Distinct (x ∷ (l ++ post))) e d) in
      subst
        (λ l.
          Right fits (x ∷ l)
            (search fits (first post) ((backwards l ++ x ∷ []) ++ rest) (x ∷ (l ++ post))))
        (sym e)
        (rw
          (
            backwards-last m y,
            append_assoc (backwards m) (x ∷ []) rest,
            append_assoc m (y ∷ []) post,
          )
          (meet_ends x m y post rest d'
            λ w m' e'. subst Walk (sym e') (meet_all n w m' (omega (arith, size, ap length e')))))

  -- In a list that is not empty and has no element twice, the two walks together visit every
  -- element before they meet: the search finds a block that fits if the list has one, and
  -- otherwise ends find_fit with NULL.
  pub search-Right :
      (x : ℕ) (xs : List ℕ)
      → Distinct (x ∷ xs)
      → Right fits (x ∷ xs) (search fits none (backwards (x ∷ xs)) (x ∷ xs))
  search-Right x xs d =
      subst (λ l. Right fits (x ∷ xs) (search fits none l (x ∷ xs)))
        (append-nil (backwards (x ∷ xs)))
        (subst (λ l. Right fits (x ∷ xs) (search fits none (backwards (x ∷ xs) ++ []) l))
          (append-nil (x ∷ xs))
          (meet_all (length xs) x xs (omega arith) [] []
            (subst Distinct (sym (append-nil (x ∷ xs))) d)))
