-- ===== src/Event/Queue.antt =====
-- The bounded queues of APR that src/agc_apr.c passes on as agc_queue_create, agc_queue_trypush and
-- agc_queue_trypop. They are not part of the repository: their clients take them as a parameter.
use common_framework.Base.{
  ℕ, ◌<◌, ◌≡◌, refl, ◌≢◌, Option, none, some, List, [], ◌∷◌, ◌++◌, arith, ltb, if◌then◌else◌,
  lt→ltb, length,
}

pub record QueueOps (A : Type 0) : Type 1 where
  pub Queue : Type 0
  -- agc_queue_create with the given capacity.
  pub create : ℕ → Queue
  -- `none`: the queue is full, respectively empty.
  pub trypush : A → Queue → Option Queue
  pub trypop : Queue → Option (A × Queue)
  -- What is in the queue, oldest first, and how much fits.
  pub contents : Queue → List A
  pub capacity : Queue → ℕ
  pub contents-create : (n : ℕ) → contents (create n) ≡ []
  pub capacity-create : (n : ℕ) → capacity (create n) ≡ n
  pub contents-trypush :
      (a : A) (q q' : Queue) → trypush a q ≡ some q' → contents q' ≡ contents q ++ a ∷ []
  pub capacity-trypush : (a : A) (q q' : Queue) → trypush a q ≡ some q' → capacity q' ≡ capacity q
  pub trypush_room : (a : A) (q : Queue) → length (contents q) < capacity q → trypush a q ≢ none
  pub contents-trypop :
      (a : A) (q q' : Queue) → trypop q ≡ some (a, q') → contents q ≡ a ∷ contents q'
  pub capacity-trypop : (a : A) (q q' : Queue) → trypop q ≡ some (a, q') → capacity q' ≡ capacity q
  pub trypop_none : (q : Queue) → trypop q ≡ none → contents q ≡ []

-- A list with a bound: the parameter's laws can be met.
pub record Bounded (A : Type 0) : Type 0 where
  pub items : List A
  pub limit : ℕ

module _ {A : Type 0} where
  abbrev pub push_bounded : A → Bounded A → Option (Bounded A)
  push_bounded a q =
      if ltb (length q.items) q.limit then some (record q { items = q.items ++ a ∷ [] }) else none

  abbrev pub pop_items : List A → ℕ → Option (A × Bounded A)
  pop_items [] n = none
  pop_items (a ∷ l) n = some (a, record { items = l; limit = n })

  pub pop_items-some :
      (l : List A) (n : ℕ) (a : A) (q : Bounded A)
      → pop_items l n ≡ some (a, q)
      → (l ≡ a ∷ q.items) × (q.limit ≡ n)
  pop_items-some [] n a q e = cc
  pop_items-some (x ∷ l) n a q e = ground arith

  pub pop_items-none : (l : List A) (n : ℕ) → pop_items l n ≡ none → l ≡ []
  pop_items-none [] n e = refl
  pop_items-none (x ∷ l) n e = cc

  pub push_bounded-some :
      (a : A) (q q' : Bounded A)
      → push_bounded a q ≡ some q'
      → (q'.items ≡ q.items ++ a ∷ []) × (q'.limit ≡ q.limit)
  push_bounded-some a q q' e = ground arith

  pub push_bounded-room :
      (a : A) (q : Bounded A) → length q.items < q.limit → push_bounded a q ≢ none
  push_bounded-room a q h = rw (lt→ltb (length q.items) q.limit h) (λ e. cc)

  abbrev pub bounded_queue : QueueOps A
  bounded_queue = record {
    Queue = Bounded A;
    create = λ n. record { items = []; limit = n };
    trypush = push_bounded;
    trypop = λ q. pop_items q.items q.limit;
    contents = λ q. q.items;
    capacity = λ q. q.limit;
    contents-create = λ n. refl;
    capacity-create = λ n. refl;
    contents-trypush = λ a q q' e. (push_bounded-some a q q' e).0;
    capacity-trypush = λ a q q' e. (push_bounded-some a q q' e).1;
    trypush_room = push_bounded-room;
    contents-trypop = λ a q q' e. (pop_items-some q.items q.limit a q' e).0;
    capacity-trypop = λ a q q' e. (pop_items-some q.items q.limit a q' e).1;
    trypop_none = λ q e. pop_items-none q.items q.limit e;
  }
