-- ===== src/Media/Sockets/Counts.antt =====
-- The reference counts of the nodes in server_list_v2 against the sockets that sessions hold.
use mathlib.Core.Option
use common_framework.Base.{
  ℕ, ◌+◌, ◌-◌, ◌≤◌, ◌≡◌, refl, subst, inl, inr, Bool, true, false, Option, none, some, List, [],
  ◌∷◌, ◌++◌, arith, leb, ◌==◌, if◌then◌else◌, leb→le, leb→lt, ==→eq, Bool-cases, some_inj, All,
}
use common_framework.Media.Types.{GtpSock, GtpNodeV2}
use common_framework.Media.Sockets.{drop_ref, del_ref_loop, find_and_ref}

-- The references that the list counts for a socket, and that a path holds on it.
abbrev pub refs : ℕ → List GtpNodeV2 → ℕ
refs p [] = 0
refs p (n ∷ rest) = (if n.sock.pointer == p then n.ref else 0) + refs p rest

abbrev pub uses : ℕ → Option GtpSock → ℕ
uses p none = 0
uses p (some sock) = if sock.pointer == p then 1 else 0

abbrev pub Positive : List GtpNodeV2 → Type 0
Positive l = All (λ n. 1 ≤ n.ref) l

pub refs-append : (p : ℕ) (xs ys : List GtpNodeV2) → refs p (xs ++ ys) ≡ refs p xs + refs p ys
refs-append p [] ys = omega arith
refs-append p (n ∷ xs) ys = omega (arith, refs-append p xs ys)

-- The second list of nodes has one reference more, on the socket.
abbrev pub Gains : List GtpNodeV2 → GtpSock × List GtpNodeV2 → Type 0
Gains l r = ((p : ℕ) → refs p r.1 ≡ refs p l + uses p (some r.0)) × Positive r.1

head_counts :
    (n : GtpNodeV2) (rest : List GtpNodeV2)
    → Positive (n ∷ rest)
    → Gains (n ∷ rest) (n.sock, record n { ref = n.ref + 1 } ∷ rest)
head_counts n rest (positive, others) = (λ p. ground arith, (omega arith, others))

behind_counts :
    (n : GtpNodeV2) (rest : List GtpNodeV2) (r : GtpSock × List GtpNodeV2)
    → 1 ≤ n.ref
    → Gains rest r
    → Gains (n ∷ rest) (r.0, n ∷ r.1)
behind_counts n rest r positive (count, others) = (λ p. omega (arith, count p), (positive, others))

find_counts :
    (n : GtpNodeV2) (rest : List GtpNodeV2) (b : Bool) (later : Option (GtpSock × List GtpNodeV2))
    (r : GtpSock × List GtpNodeV2)
    → Positive (n ∷ rest)
    → ((s : GtpSock × List GtpNodeV2) → later ≡ some s → Gains rest s)
    → (if b
        then some (n.sock, record n { ref = n.ref + 1 } ∷ rest)
        else Option.map (λ f. (f.0, n ∷ f.1)) later)
      ≡ some r
    → Gains (n ∷ rest) r
find_counts n rest true later r positive ih e =
    subst (Gains (n ∷ rest)) (some_inj e) (head_counts n rest positive)
find_counts n rest false none r positive ih e = cc
find_counts n rest false (some s) r positive ih e =
    subst (Gains (n ∷ rest)) (some_inj e) (behind_counts n rest s positive.0 (ih s refl))

pub find_and_ref-Gains :
    (test : GtpNodeV2 → Bool) (l : List GtpNodeV2) (r : GtpSock × List GtpNodeV2)
    → Positive l
    → find_and_ref test l ≡ some r
    → Gains l r
unfolding find_and_ref
find_and_ref-Gains test [] r positive e = cc
find_and_ref-Gains test (n ∷ rest) r positive e =
    find_counts n rest (test n) (find_and_ref test rest) r positive
      (λ s e'. find_and_ref-Gains test rest s positive.1 e') e

-- The first list of nodes has one reference more, on the socket.
abbrev pub Drops : ℕ → List GtpNodeV2 → List GtpNodeV2 → Type 0
Drops pointer l l' =
    ((p : ℕ) → refs p l' + (if pointer == p then 1 else 0) ≡ refs p l) × Positive l'

drop_last : (b : Bool) (r t : ℕ) → r ≡ 1 → t + (if b then 1 else 0) ≡ (if b then r else 0) + t
drop_last true r t e = omega arith
drop_last false r t e = omega arith

drop_more :
    (b : Bool) (r t : ℕ)
    → 1 ≤ r
    → (if b then r - 1 else 0) + t + (if b then 1 else 0) ≡ (if b then r else 0) + t
drop_more true r t l = omega arith
drop_more false r t l = omega arith

drop_ref-Drops :
    (n : GtpNodeV2) (rest : List GtpNodeV2)
    → Positive (n ∷ rest)
    → Drops n.sock.pointer (n ∷ rest) (drop_ref n rest).0
drop_ref-Drops n rest (positive, others) = elim (Bool-cases (leb (n.ref - 1) 0)) [
  | inl last ↦
      let one : n.ref ≡ 1 = omega (arith, leb→le (n.ref - 1) 0 last) in
      rw last (λ p. drop_last (n.sock.pointer == p) n.ref (refs p rest) one, others)
  | inr more ↦
      let left = leb→lt (n.ref - 1) 0 more in
      rw more (
        λ p. drop_more (n.sock.pointer == p) n.ref (refs p rest) positive,
        (omega (arith, left), others),
      )
]

behind-Drops :
    (pointer : ℕ) (n : GtpNodeV2) (rest rest' : List GtpNodeV2)
    → 1 ≤ n.ref
    → Drops pointer rest rest'
    → Drops pointer (n ∷ rest) (n ∷ rest')
behind-Drops pointer n rest rest' positive (count, others) =
    (λ p. omega (arith, count p), (positive, others))

refs_later :
    (pointer : ℕ) (n : GtpNodeV2) (rest : List GtpNodeV2)
    → (n.sock.pointer == pointer) ≡ false
    → 1 ≤ refs pointer (n ∷ rest)
    → 1 ≤ refs pointer rest
refs_later pointer n rest differ l = let l' = rw differ at l in omega arith

pub del_ref_loop-Drops :
    (pointer : ℕ) (l : List GtpNodeV2)
    → Positive l
    → 1 ≤ refs pointer l
    → Drops pointer l (del_ref_loop pointer l).0
unfolding del_ref_loop
del_ref_loop-Drops pointer [] positive counted = absurd (omega arith)
del_ref_loop-Drops pointer (n ∷ rest) positive counted =
    elim (Bool-cases (n.sock.pointer == pointer)) [
      | inl here ↦ rw here (
          subst (λ q. Drops q (n ∷ rest) (drop_ref n rest).0) (==→eq n.sock.pointer pointer here)
            (drop_ref-Drops n rest positive))
      | inr differ ↦
          let ih =
            del_ref_loop-Drops pointer rest positive.1 (refs_later pointer n rest differ counted) in
          rw differ (behind-Drops pointer n rest _ positive.0 ih)
    ]
