-- ===== src/Media/Sessions/Laws.antt =====
-- What media_add_media_sig_sess, media_find_media_sig_sess_by_teid and media_find_media_sig_sess_by_id
-- of media_context.c do with the table.
use common_framework.Base.{
  ℕ, zero, suc, ◌+◌, ◌*◌, ◌≤◌, ◌<◌, ◌≡◌, refl, sym, ◌∙◌, subst, ◌⊎◌, inl, inr, Option, none, some,
  List, [], ◌∷◌, arith, ◌==◌, ==→eq, ==→ne, Bool-cases, some_inj, length, get_elem?, set,
  length-set, get_elem?-set_self, get_elem?-set_ne, lt_of_get_elem?,
}
use common_framework.Media.Types.{GtpNode, GtpPath, SigSess, Context}
use common_framework.Media.Sessions.{
  or_else, local_if, Search, free, full, outside, Added, created, refused, crashed, new_sess, store,
  add_found, add_search, add_media_sig_sess, gtp_node_n3_v4_first,
}
use common_framework.Media.Sessions.FreeId.{SearchResult, search_id-SearchResult}

-- The identifier of a session and the TEIDs of its four paths belong to its place in the table.
pub record Owns (id : ℕ) (sess : SigSess) : Type 0 where
  pub id_eq : sess.sess_id ≡ id
  pub gnb_eq : sess.gnb.local_teid ≡ id * 4
  pub upf_eq : sess.upf.local_teid ≡ id * 4 + 1
  pub gnbv6_eq : sess.gnbv6.local_teid ≡ id * 4 + 2
  pub upfv6_eq : sess.upfv6.local_teid ≡ id * 4 + 3

abbrev pub OwnsEntry : ℕ → Option SigSess → Type 0
OwnsEntry id none = Unit
OwnsEntry id (some sess) = Owns id sess

abbrev pub OwnsFrom : ℕ → List (Option SigSess) → Type 0
OwnsFrom id [] = Unit
OwnsFrom id (e ∷ rest) = OwnsEntry id e × OwnsFrom (suc id) rest

OwnsFrom-get_elem? :
    (first i : ℕ) (table : List (Option SigSess)) (e : Option SigSess)
    → OwnsFrom first table
    → get_elem? table i ≡ some e
    → OwnsEntry (first + i) e
OwnsFrom-get_elem? first i [] e owns there = cc
OwnsFrom-get_elem? first zero (x ∷ rest) e (own, others) there =
    let same : first ≡ first + 0 = omega arith in
    subst (λ k. OwnsEntry k e) same (subst (OwnsEntry first) (some_inj there) own)
OwnsFrom-get_elem? first (suc i) (x ∷ rest) e (own, others) there =
    let same : suc first + i ≡ first + suc i = omega arith in
    subst (λ k. OwnsEntry k e) same (OwnsFrom-get_elem? (suc first) i rest e others there)

pub OwnsFrom-set :
    (first i : ℕ) (table : List (Option SigSess)) (e : Option SigSess)
    → OwnsFrom first table
    → OwnsEntry (first + i) e
    → OwnsFrom first (set table i e)
OwnsFrom-set first i [] e owns own = owns
OwnsFrom-set first zero (x ∷ rest) e (old, others) own =
    let same : first + 0 ≡ first = omega arith in (subst (λ k. OwnsEntry k e) same own, others)
OwnsFrom-set first (suc i) (x ∷ rest) e (old, others) own =
    let same : first + suc i ≡ suc first + i = omega arith in
    (old, OwnsFrom-set (suc first) i rest e others (subst (λ k. OwnsEntry k e) same own))

-- The invariant of the table.
pub record TableOk (max : ℕ) (c : Context) : Type 0 where
  pub size : length c.session_list ≡ max
  pub next : c.next_sess_id < max
  pub owns : OwnsFrom 0 c.session_list

pub zero_add : (n : ℕ) → n ≡ 0 + n
zero_add n = omega arith

pub TableOk-Owns :
    (max id : ℕ) (c : Context) (sess : SigSess)
    → TableOk max c
    → get_elem? c.session_list id ≡ some (some sess)
    → Owns id sess
TableOk-Owns max id c sess ok there =
    subst (λ k. Owns k sess) (sym (zero_add id))
      (OwnsFrom-get_elem? 0 id c.session_list (some sess) ok.owns there)

local_teid-local_if :
    (o : Option GtpNode) (path : GtpPath) → (local_if o path).local_teid ≡ path.local_teid
local_teid-local_if none path = refl
local_teid-local_if (some n) path = refl

module _ (max : ℕ) (several : 2 ≤ max) (small : max * 4 ≤ 4294967296) where
  new_sess-Owns :
      (raw : SigSess) (now id : ℕ) (v4 upf_v4 : GtpNode) (v6 upf_v6 : Option GtpNode)
      → id < max
      → Owns id (new_sess max raw now id v4 upf_v4 v6 upf_v6)
  unfolding new_sess
  new_sess-Owns raw now id v4 upf_v4 v6 upf_v6 below = record {
    id_eq = refl;
    gnb_eq = omega arith;
    upf_eq = omega arith;
    gnbv6_eq = local_teid-local_if v6 _ ∙ omega arith;
    upfv6_eq = local_teid-local_if upf_v6 _ ∙ omega arith;
  }

  -- The session has a place that was free, and the entry at `j` is as before or the new one.
  abbrev pub IsCreated : ℕ → Context → Context → SigSess → Type 0
  IsCreated j c c' sess =
      ((1 ≤ sess.sess_id) × (sess.sess_id < max))
      × (get_elem? c.session_list sess.sess_id ≡ some none)
      × (get_elem? c'.session_list sess.sess_id ≡ some (some sess))
      × ((j ≡ sess.sess_id) ⊎ (get_elem? c'.session_list j ≡ get_elem? c.session_list j))
      × TableOk max c'

  abbrev pub AddResult : ℕ → Context → Added → Type 0
  AddResult j c (created c' sess) = IsCreated j c c' sess
  AddResult j c (refused c') =
      ((sess : SigSess) × (get_elem? c.session_list j ≡ some (some sess)))
      × (c'.session_list ≡ c.session_list)
      × TableOk max c'
  AddResult j c crashed = ⊥

  store-IsCreated :
      (j id : ℕ) (c : Context) (sess : SigSess)
      → TableOk max c
      → (1 ≤ id) × (id < max)
      → get_elem? c.session_list id ≡ some none
      → Owns id sess
      → AddResult j c (store max c id sess)
  store-IsCreated j id c sess ok bounds was own =
      let e = own.id_eq in
      let other : (j ≡ id)
          ⊎ (get_elem? (set c.session_list id (some sess)) j ≡ get_elem? c.session_list j) =
        elim (Bool-cases (j == id)) [
          | inl same ↦ inl (==→eq j id same)
          | inr differ ↦
              inr
                (get_elem?-set_ne c.session_list id j (some sess) (λ x. ==→ne j id differ (sym x)))
        ] in
      simp e (
        bounds,
        was,
        get_elem?-set_self c.session_list id (some sess)
            (lt_of_get_elem? c.session_list id none was),
        other,
        record {
          size = length-set c.session_list id (some sess) ∙ ok.size;
          next = bounds.1;
          owns =
              OwnsFrom-set 0 id c.session_list (some sess) ok.owns
                (subst (λ k. Owns k sess) (zero_add id) own);
        },
      )

  add_found-AddResult :
      (raw : SigSess) (now j : ℕ) (c : Context) (v4 upf_v4 : GtpNode) (v6 upf_v6 : Option GtpNode)
      (r : Search)
      → TableOk max c
      → SearchResult max several small j c.session_list r
      → AddResult j c (add_found max raw now c (some v4) (some upf_v4) v6 upf_v6 r)
  unfolding add_found
  add_found-AddResult raw now j c v4 upf_v4 v6 upf_v6 (free id) ok (bounds, was) =
      store-IsCreated j id c (new_sess max raw now id v4 upf_v4 v6 upf_v6) ok bounds was
        (new_sess-Owns raw now id v4 upf_v4 v6 upf_v6 bounds.1)
  add_found-AddResult raw now j c v4 upf_v4 v6 upf_v6 (full id) ok (below, taken) =
      (taken, refl, record { size = ok.size; next = below; owns = ok.owns })
  add_found-AddResult raw now j c v4 upf_v4 v6 upf_v6 outside ok h = h

  add_found-or_else :
      (raw : SigSess) (now j : ℕ) (c : Context) (v4 : GtpNode) (upf_v4 v6 upf_v6 : Option GtpNode)
      (r : Search)
      → TableOk max c
      → SearchResult max several small j c.session_list r
      → AddResult j c (add_found max raw now c (some v4) (or_else upf_v4 (some v4)) v6 upf_v6 r)
  add_found-or_else raw now j c v4 none v6 upf_v6 r ok h =
      add_found-AddResult raw now j c v4 v4 v6 upf_v6 r ok h
  add_found-or_else raw now j c v4 (some n) v6 upf_v6 r ok h =
      add_found-AddResult raw now j c v4 n v6 upf_v6 r ok h

  add_search-AddResult :
      (raw : SigSess) (now j : ℕ) (c : Context) (v4 : GtpNode) (upf_v4 v6 upf_v6 : Option GtpNode)
      → TableOk max c
      → 1 ≤ j
      → j < max
      → AddResult j c (add_search max raw now c (some v4) upf_v4 v6 upf_v6)
  unfolding add_search
  add_search-AddResult raw now j c v4 upf_v4 v6 upf_v6 ok l u =
      let searched =
        search_id-SearchResult max several small c.next_sess_id j c.session_list ok.size ok.next l
          u in
      add_found-or_else raw now j c v4 upf_v4 v6 (or_else upf_v6 v6) _ ok searched

  -- If a node of N3 with an IPv4 address is configured, media_add_media_sig_sess keeps the invariant
  -- of the table and either makes a session at a place from 1 to MAX_MEDIA_SESSIONS - 1 that was free
  -- and leaves the other places, or returns NULL with the table as it was, and then all these places
  -- are taken.
  pub add_media_sig_sess-AddResult :
      (raw : SigSess) (now j : ℕ) (c : Context) (v4 : GtpNode)
      → TableOk max c
      → gtp_node_n3_v4_first c ≡ some v4
      → 1 ≤ j
      → j < max
      → AddResult j c (add_media_sig_sess max raw now c)
  unfolding add_media_sig_sess
  add_media_sig_sess-AddResult raw now j c v4 ok node l u =
      rw node (add_search-AddResult raw now j c v4 _ _ _ ok l u)
