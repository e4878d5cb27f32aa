-- ===== src/LinkedList.antt =====
-- The doubly linked lists of list.h, which both programs take from the Pintos system, behind
-- an interface: the operations that the programs call, and what list.h documents of them. A list
-- element is embedded in the object that it links, so an element is the object's pointer.
use computer_systems_project.Base.{ℕ, ◌≡◌, refl, true, false, List, [], ◌∷◌, ◌++◌, has, erase}

pub record LinkedList : Type 1 where
  pub Handle : Type 0
  -- What a walk from list_begin to list_end by list_next visits.
  pub items : Handle → List ℕ
  -- list_init, list_push_back, list_remove
  pub empty : Handle
  pub push_back : Handle → ℕ → Handle
  pub remove : Handle → ℕ → Handle
  pub items-empty : items empty ≡ []
  -- An element that is in the list must not be inserted again.
  pub items-push_back :
      (l : Handle) (e : ℕ) → has e (items l) ≡ false → items (push_back l e) ≡ items l ++ e ∷ []
  -- Removal is documented for an element that is in the list.
  pub items-remove :
      (l : Handle) (e : ℕ) → has e (items l) ≡ true → items (remove l e) ≡ erase e (items l)

-- The sequence itself meets the interface.
abbrev pub sequence : LinkedList
sequence = record {
  Handle = List ℕ;
  items = λ l. l;
  empty = [];
  push_back = λ l e. l ++ e ∷ [];
  remove = λ l e. erase e l;
  items-empty = refl;
  items-push_back = λ l e h. refl;
  items-remove = λ l e h. refl;
}
