-- ===== src/Malloc/FreeLists.antt =====
-- mm.c: the free lists, from the list of the largest blocks to that of the smallest.
pub mod Search
pub mod Fit
pub mod Entry
use computer_systems_project.Base.{
  ℕ, ◌≡◌, Bool, true, false, not, ◌&&◌, ◌||◌, Option, none, some, List, [], ◌∷◌, ◌++◌, has, leb,
  ◌==◌, if◌then◌else◌,
}
use computer_systems_project.LinkedList.{LinkedList}
use computer_systems_project.Run.{done, crash, Command}
use computer_systems_project.Malloc.Blocks.{Heap, FreeBlockList, blk_size}

-- Whether two pointers to list elements are equal; `none` is the end of the list.
abbrev pub same_elem : Option ℕ → Option ℕ → Bool
same_elem none none = true
same_elem none (some b) = false
same_elem (some a) none = false
same_elem (some a) (some b) = a == b

abbrev pub first : List ℕ → Option ℕ
first [] = none
first (x ∷ xs) = some x

abbrev pub backwards : List ℕ → List ℕ
backwards [] = []
backwards (x ∷ xs) = backwards xs ++ x ∷ []

-- How the search of one list ends: with a block, with `return NULL`, or at the end of the list.
pub data Found : Type 0 where
  block : ℕ → Found
  give_up : Found
  next_list : Found

-- The inner loop of find_fit. `back` is what elem1 still visits, `front` what elem2 visits, and
-- `after` is list_next(elem1). A read of a block behind the end of the list fits nothing.
unfoldable pub search : (ℕ → Bool) → Option ℕ → List ℕ → List ℕ → Found
search fits after [] front = next_list
search fits after (e1 ∷ back) [] = give_up
search fits after (e1 ∷ back) (e2 ∷ front) =
    if fits e1
    then block e1
    else if fits e2
    then block e2
    else if same_elem (some e1) (first front) || same_elem after (first front)
    then give_up
    else search fits (some e1) back front

module _ (L : LinkedList) where
  abbrev pub is_empty : L.Handle → Bool
  is_empty l = elim (L.items l) [ [] ↦ true | _ ∷ _ ↦ false ]

  -- add_free_block, behind the test for a list of lists that is empty
  unfoldable pub insert_block :
      ℕ → ℕ → List (FreeBlockList L.Handle) → List (FreeBlockList L.Handle)
  insert_block blk size [] = []
  insert_block blk size (b ∷ bs) =
      if leb b.list_size size
      then record b { blocks = L.push_back b.blocks blk } ∷ bs
      else b ∷ insert_block blk size bs

  -- Before mm_init there are no lists: the block would be linked, and read, as a list of its own.
  unfoldable pub add_free_block : ℕ → Command (Heap L.Handle) (Unit {0})
  unfolding insert_block
  add_free_block blk s = elim s.free_blocks [
    | [] ↦ crash
    | b ∷ bs ↦ done tt (record s { free_blocks = insert_block blk (blk_size s blk) (b ∷ bs) })
  ]

  unfoldable pub take_block :
      ℕ → List (FreeBlockList L.Handle) → Option (List (FreeBlockList L.Handle))
  take_block blk [] = none
  take_block blk (b ∷ bs) = elim (has blk (L.items b.blocks)) [
    | true ↦ some (record b { blocks = L.remove b.blocks blk } ∷ bs)
    | false ↦ elim (take_block blk bs) [ none ↦ none | some rest ↦ some (b ∷ rest) ]
  ]

  -- list_remove(&blk->elem), through the links of the block; a block in no list has none.
  unfoldable pub remove_block : ℕ → Command (Heap L.Handle) (Unit {0})
  unfolding take_block
  remove_block blk s = elim (take_block blk s.free_blocks) [
    | none ↦ crash
    | some bs ↦ done tt (record s { free_blocks = bs })
  ]

  -- The outer loop of find_fit. list_prev(e) of an element is never the end of the list, so the
  -- second test of the code does not open a list that the first leaves out.
  unfoldable pub find_in : (ℕ → ℕ) → ℕ → List (FreeBlockList L.Handle) → Option ℕ
  unfolding search
  find_in size asize [] = none
  find_in size asize (b ∷ bs) =
      if not (is_empty b.blocks) && leb asize b.list_size
      then (elim (search (λ p. leb asize (size p)) none (backwards (L.items b.blocks))
          (L.items b.blocks)) [
            | block p ↦ some p
            | give_up ↦ none
            | next_list ↦ find_in size asize bs
          ])
      else find_in size asize bs

  unfoldable pub find_fit : ℕ → Command (Heap L.Handle) (Option ℕ)
  unfolding find_in
  find_fit asize s = done (find_in (blk_size s) asize s.free_blocks) s
