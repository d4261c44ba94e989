-- ===== src/Timer/Tree.antt =====
-- The ordered tree of src/agc_rbtree.c, a copy of nginx's, with the comparison for timers: its
-- clients take it as a parameter, seen as the list of its nodes in order.
use common_framework.Base.{
  ℕ, ◌≤◌, ◌<◌, ◌≡◌, refl, ap, Bool, true, false, ◌||◌, Option, none, some, List, [], ◌∷◌, ltb, ◌==◌,
  if◌then◌else◌, All,
}

-- The node of a timer stands in its event, which a number identifies.
pub record Timer : Type 0 where
  pub event : ℕ
  pub key : ℕ

-- Behind all timers with the same or a smaller key.
abbrev pub insert_sorted : Timer → List Timer → List Timer
insert_sorted x [] = x ∷ []
insert_sorted x (y ∷ l) =
    let later = insert_sorted x l in if ltb x.key y.key then x ∷ y ∷ l else y ∷ later

abbrev pub remove_event : ℕ → List Timer → List Timer
remove_event event [] = []
remove_event event (y ∷ l) =
    let later = remove_event event l in if event == y.event then l else y ∷ later

abbrev pub has_event : ℕ → List Timer → Bool
has_event event [] = false
has_event event (y ∷ l) = (event == y.event) || has_event event l

abbrev pub first_timer : List Timer → Option Timer
first_timer [] = none
first_timer (y ∷ l) = some y

abbrev pub Sorted : List Timer → Type 0
Sorted [] = Unit
Sorted (x ∷ l) = All (λ y. x.key ≤ y.key) l × Sorted l

-- Keys whose signed differences do not overflow.
abbrev pub Fits : Timer → Type 0
Fits x = x.key < 9223372036854775808

pub record TreeOps : Type 1 where
  pub Tree : Type 0
  pub empty : Tree
  pub insert : Timer → Tree → Tree
  -- `none`: the node is not in the tree, and what happens is not defined.
  pub delete : ℕ → Tree → Option Tree
  -- agc_rbtree_min, `none` on the sentinel.
  pub min : Tree → Option Timer
  pub inorder : Tree → List Timer
  pub inorder-empty : inorder empty ≡ []
  pub inorder-insert :
      (x : Timer) (t : Tree)
      → Fits x
      → All Fits (inorder t)
      → Sorted (inorder t)
      → inorder (insert x t) ≡ insert_sorted x (inorder t)
  pub delete_there :
      (event : ℕ) (t : Tree)
      → has_event event (inorder t) ≡ true
      → (t' : Tree) × (delete event t ≡ some t') × (inorder t' ≡ remove_event event (inorder t))
  pub delete_missing :
      (event : ℕ) (t : Tree) → has_event event (inorder t) ≡ false → delete event t ≡ none
  pub min-inorder : (t : Tree) → min t ≡ first_timer (inorder t)

abbrev pub delete_if : Bool → ℕ → List Timer → Option (List Timer)
delete_if true event l = some (remove_event event l)
delete_if false event l = none

-- A sorted list: the parameter's laws can be met.
abbrev pub sorted_list : TreeOps
sorted_list = record {
  Tree = List Timer;
  empty = [];
  insert = insert_sorted;
  delete = λ event l. delete_if (has_event event l) event l;
  min = first_timer;
  inorder = λ l. l;
  inorder-empty = refl;
  inorder-insert = λ x t fits all sorted. refl;
  delete_there = λ event l there. (remove_event event l, ap (λ b. delete_if b event l) there, refl);
  delete_missing = λ event l missing. ap (λ b. delete_if b event l) missing;
  min-inorder = λ t. refl;
}
