-- ===== src/Media/Sessions/Lookup.antt =====
-- Lookup of sessions by media_find_media_sig_sess_by_teid and media_find_media_sig_sess_by_id of
-- media_context.c.
use common_framework.Base.{
  ℕ, ◌+◌, ◌*◌, ◌/◌, ◌≡◌, refl, sym, ap, ◌∙◌, ◌↔◌, ◌⊎◌, inl, inr, false, Option, some, arith, leb,
  Bool-cases, some_inj, get_elem?, lt_of_get_elem?,
}
use common_framework.Media.Types.{SigSess, Context}
use common_framework.Media.Sessions.{find_media_sig_sess_by_id, find_media_sig_sess_by_teid}
use common_framework.Media.Sessions.Laws.{Owns, TableOk-Owns, TableOk}

-- The TEID is that of one of the session's four paths.
abbrev pub IsTeidOf : ℕ → SigSess → Type 0
IsTeidOf teid sess =
    (teid ≡ sess.gnb.local_teid)
    ⊎ ((teid ≡ sess.upf.local_teid)
        ⊎ ((teid ≡ sess.gnbv6.local_teid) ⊎ (teid ≡ sess.upfv6.local_teid)))

quarters :
    (id teid : ℕ)
    → teid / 4 ≡ id
    → (teid ≡ id * 4) ⊎ ((teid ≡ id * 4 + 1) ⊎ ((teid ≡ id * 4 + 2) ⊎ (teid ≡ id * 4 + 3)))
quarters id teid e = ground arith

IsTeidOf-Owns : (id teid : ℕ) (sess : SigSess) → Owns id sess → teid / 4 ≡ id → IsTeidOf teid sess
IsTeidOf-Owns id teid sess own e = elim (quarters id teid e) [
  | inl q ↦ inl (q ∙ sym own.gnb_eq)
  | inr (inl q) ↦ inr (inl (q ∙ sym own.upf_eq))
  | inr (inr (inl q)) ↦ inr (inr (inl (q ∙ sym own.gnbv6_eq)))
  | inr (inr (inr q)) ↦ inr (inr (inr (q ∙ sym own.upfv6_eq)))
]

Owns-IsTeidOf : (id teid : ℕ) (sess : SigSess) → Owns id sess → IsTeidOf teid sess → teid / 4 ≡ id
Owns-IsTeidOf id teid sess own (inl e) = let g = own.gnb_eq in omega arith
Owns-IsTeidOf id teid sess own (inr (inl e)) = let g = own.upf_eq in omega arith
Owns-IsTeidOf id teid sess own (inr (inr (inl e))) = let g = own.gnbv6_eq in omega arith
Owns-IsTeidOf id teid sess own (inr (inr (inr e))) = let g = own.upfv6_eq in omega arith

module _ (max : ℕ) where
  pub by_id_found :
      (id : ℕ) (c : Context) (sess : SigSess)
      → find_media_sig_sess_by_id max id c ≡ some (some sess)
      → get_elem? c.session_list id ≡ some (some sess)
  unfolding find_media_sig_sess_by_id
  by_id_found id c sess e = elim (Bool-cases (leb max id)) [
    | inl out ↦ let e' = rw out at e in let e'' = some_inj e' in cc
    | inr inside ↦ rw inside at e
  ]

  pub found_by_id :
      (id : ℕ) (c : Context) (e : Option SigSess)
      → TableOk max c
      → get_elem? c.session_list id ≡ some e
      → find_media_sig_sess_by_id max id c ≡ some e
  unfolding find_media_sig_sess_by_id
  found_by_id id c e ok there =
      let below = lt_of_get_elem? c.session_list id e there in
      let size = ok.size in let inside : leb max id ≡ false = ground arith in rw inside there

  by_teid :
      (teid : ℕ) (c : Context)
      → find_media_sig_sess_by_teid max teid c ≡ find_media_sig_sess_by_id max (teid / 4) c
  unfolding find_media_sig_sess_by_id find_media_sig_sess_by_teid
  by_teid teid c = refl

  -- On a table that keeps the invariant, media_find_media_sig_sess_by_teid finds a session exactly
  -- for the TEIDs of its four paths while media_find_media_sig_sess_by_id finds it by its
  -- identifier.
  pub find_by_teid-IsTeidOf :
      (teid : ℕ) (c : Context) (sess : SigSess)
      → TableOk max c
      → (find_media_sig_sess_by_teid max teid c ≡ some (some sess))
        ↔ (IsTeidOf teid sess × (find_media_sig_sess_by_id max sess.sess_id c ≡ some (some sess)))
  find_by_teid-IsTeidOf teid c sess ok = (
    λ e.
        let there = by_id_found (teid / 4) c sess (sym (by_teid teid c) ∙ e) in
        let own = TableOk-Owns max (teid / 4) c sess ok there in
        let id_eq : teid / 4 ≡ sess.sess_id = omega (arith, own.id_eq) in
        (
          IsTeidOf-Owns (teid / 4) teid sess own refl,
          ap (λ k. find_media_sig_sess_by_id max k c) (sym id_eq)
              ∙ found_by_id (teid / 4) c (some sess) ok there,
        ),
    λ (is_teid, e).
        let there = by_id_found sess.sess_id c sess e in
        let own = TableOk-Owns max sess.sess_id c sess ok there in
        by_teid teid c
        ∙ (ap (λ k. find_media_sig_sess_by_id max k c)
              (Owns-IsTeidOf sess.sess_id teid sess own is_teid)
            ∙ e),
  )
