-- ===== src/Media/Lbo/Hash.antt =====
-- agc_hash_set and agc_hash_get pass on to the hash tables of APR, which are not part of the repository.
use common_framework.Base.{
  ℕ, ◌≡◌, refl, sym, ap, ◌∙◌, ◌≢◌, inl, inr, Bool, true, false, ◌&&◌, Option, none, some, List, [],
  ◌∷◌, ◌==◌, if◌then◌else◌, ==→eq, ==_refl, Bool-cases,
}

-- The bytes of a key, of length key_len.
abbrev pub Key : Type 0
Key = List ℕ

-- The same length and bytes.
abbrev pub same_key : Key → Key → Bool
same_key [] [] = true
same_key [] (b ∷ l) = false
same_key (a ∷ k) [] = false
same_key (a ∷ k) (b ∷ l) = (a == b) && same_key k l

-- The tables as the documentation of apr_hash has them: a key leads to the value last set for it.
pub record HashOps : Type 1 where
  pub Table : Type 0
  pub empty : Table
  pub put : Key → Key → Table → Table
  pub get : Key → Table → Option Key
  pub get-empty : (k : Key) → get k empty ≡ none
  pub get-put_same : (k v : Key) (t : Table) → get k (put k v t) ≡ some v
  pub get-put_other : (k l v : Key) (t : Table) → k ≢ l → get k (put l v t) ≡ get k t

pub same_key-eq : (k l : Key) → same_key k l ≡ true → k ≡ l
same_key-eq [] [] e = refl
same_key-eq [] (b ∷ l) e = cc
same_key-eq (a ∷ k) [] e = cc
same_key-eq (a ∷ k) (b ∷ l) e = elim (Bool-cases (a == b)) [
  | inl same ↦
      let tail : same_key k l ≡ true = sym (ap (λ x. x && same_key k l) same) ∙ e in
      rw (==→eq a b same, same_key-eq k l tail) refl
  | inr ne ↦ let bad = sym (ap (λ x. x && same_key k l) ne) ∙ e in absurd (cc)
]

pub same_key_refl : (k : Key) → same_key k k ≡ true
same_key_refl [] = refl
same_key_refl (a ∷ k) = rw (==_refl a, same_key_refl k) refl

pub same_key_ne : (k l : Key) → k ≢ l → same_key k l ≡ false
same_key_ne k l ne = elim (Bool-cases (same_key k l)) [
  | inl e ↦ absurd (ne (same_key-eq k l e))
  | inr e ↦ e
]

-- A table as a function: the parameter's laws can be met.
abbrev pub Lookup : Type 0
Lookup = Key → Option Key

abbrev pub hash_tables : HashOps
hash_tables = record {
  Table = Lookup;
  empty = λ k. none;
  put = λ l v t k. if same_key k l then some v else t k;
  get = λ k t. t k;
  get-empty = λ k. refl;
  get-put_same = λ k v t. rw (same_key_refl k) refl;
  get-put_other = λ k l v t ne. rw (same_key_ne k l ne) refl;
}
