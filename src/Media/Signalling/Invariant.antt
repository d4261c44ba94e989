-- ===== src/Media/Signalling/Invariant.antt =====
-- The handlers of media_sig_path.c keep the invariant of the session table.
use common_framework.Base.{
  ℕ, ◌*◌, ◌≤◌, ◌≡◌, refl, inl, inr, Bool, true, false, Option, none, some, List, [], arith, Status,
  ltb, ◌==◌, if◌then◌else◌, Bool-cases, length,
}
use common_framework.Base.CString.{CString}
use common_framework.Media.Types.{Bytes, SigSess, Context}
use common_framework.Media.Sockets.{Nodes, upf_gtp_open}
use common_framework.Media.Sessions.{
  Added, created, refused, crashed, add_media_sig_sess, find_media_sig_sess_by_id, nodes_of,
}
use common_framework.Media.Signalling.{
  type, media_sessid, sig_sessid, sig_hostname, upf_teid, upf_ipaddr, gnb_teid, gnb_ipaddr, Request,
  World, atoui, Message, Handled, done, aborted, stored, with_routing, routing_text,
}
use common_framework.Media.Types.{GtpNode}
use common_framework.Media.Sessions.{gtp_node_n3_v4_first}
use common_framework.Media.Sessions.Laws.{
  TableOk, TableOk-Owns, AddResult, add_media_sig_sess-AddResult,
}
use common_framework.Media.Sessions.Lookup.{by_id_found}
use common_framework.Media.Signalling.Handlers.{
  put_back, remove_sess, with_upf, finish_upf_setup, upf_setup_added, handle_upf_setup_req,
  with_found, finish_upf_update, handle_upf_update_req, finish_gnb_setup, handle_gnb_setup_req,
  handle_check_sess_req, handle_sess_release_req, event_callback,
}
use common_framework.Media.Signalling.Changes.{
  KeepsTable, Consistent, Consistent-SameTeids, Owns-Consistent, stored-TableOk,
  remove_sess-TableOk, need_keeps, either_way, with_upf-SameTeids, with_gnb-SameTeids,
  upf_gtp_open-Consistent, gnb_gtp_open-Consistent, put_back-TableOk,
}

module _ (max : ℕ) (w : World) where
  open w use {atol, to_addr4, to_addr6, sent, raw, now, stale, created_sock, created_sock_v6}

  with_routing_keeps :
      (sess : SigSess) (h : Handled) → KeepsTable max h → KeepsTable max (with_routing sess h)
  with_routing_keeps sess h k = elim (Bool-cases (ltb (length (routing_text sess)) 255)) [
    | inl fits ↦ rw fits k
    | inr over ↦ rw over tt
  ]

  finish_upf_setup_keeps :
      (sess : SigSess) (c : Context)
      → TableOk max c
      → Consistent sess
      → KeepsTable max (finish_upf_setup max w sess c)
  unfolding finish_upf_setup
  finish_upf_setup_keeps sess c ok own =
      let ok' = stored-TableOk max sess c ok own in
      let opened = upf_gtp_open stale created_sock created_sock_v6 sess (nodes_of c) in
      with_routing_keeps sess _ (
        either_way max w sent (put_back (stored sess c) opened)
          (remove_sess max w sess (stored sess c)) _ _
          (put_back-TableOk max w (stored sess c) opened ok'
            (upf_gtp_open-Consistent max w sess (nodes_of c) own))
          (remove_sess-TableOk max w sess (stored sess c) ok'))

  finish_upf_update_keeps :
      (sess : SigSess) (c : Context)
      → TableOk max c
      → Consistent sess
      → KeepsTable max (finish_upf_update max w sess c)
  unfolding finish_upf_update
  finish_upf_update_keeps sess c ok own =
      let ok' = stored-TableOk max sess c ok own in
      with_routing_keeps sess _ (
        either_way max w sent (stored sess c) (remove_sess max w sess (stored sess c)) _ _ ok'
          (remove_sess-TableOk max w sess (stored sess c) ok'))

  finish_gnb_setup_keeps :
      (ms : List Message) (opened : SigSess × Nodes × Status) (c : Context)
      → TableOk max c
      → Consistent opened.0
      → KeepsTable max (finish_gnb_setup max w ms opened c)
  unfolding finish_gnb_setup
  finish_gnb_setup_keeps ms opened c ok own =
      let ok' = put_back-TableOk max w c opened ok own in
      with_routing_keeps opened.0 _ (
        either_way max w sent (put_back c opened) (remove_sess max w opened.0 (put_back c opened)) _
          _ ok' (remove_sess-TableOk max w opened.0 (put_back c opened) ok'))

  with_found_keeps :
      (id : ℕ) (c : Context) (missing : Handled) (next : SigSess → Handled)
      → TableOk max c
      → KeepsTable max missing
      → ((sess : SigSess) → Consistent sess → KeepsTable max (next sess))
      → KeepsTable max (with_found max w (find_media_sig_sess_by_id max id c) missing next)
  with_found_keeps id c missing next ok h k = go (find_media_sig_sess_by_id max id c) refl
    where
      go :
          (o : Option (Option SigSess))
          → find_media_sig_sess_by_id max id c ≡ o
          → KeepsTable max (with_found max w o missing next)
      go none e = tt
      go (some none) e = h
      go (some (some sess)) e =
          let there = by_id_found max id c sess e in
          k sess (Owns-Consistent id sess (TableOk-Owns max id c sess ok there))

  if_keeps :
      (b : Bool) (x y : Handled)
      → KeepsTable max x
      → KeepsTable max y
      → KeepsTable max (if b then x else y)
  if_keeps true x y kx ky = kx
  if_keeps false x y kx ky = ky

  sess_update :
      (id teid : ℕ) (addr : Bytes) (addr_v6 : Option Bytes) (sess : SigSess) (hostname : CString)
      → Consistent sess
      → Consistent (
          with_upf max w teid addr addr_v6
            (record sess { sig_sess_id = id; sig_gateway_name = hostname }))
  sess_update id teid addr addr_v6 sess hostname own =
      let named : Consistent (record sess { sig_sess_id = id; sig_gateway_name = hostname }) =
        Consistent-SameTeids sess _ own
          (record { id = refl; gnb = refl; upf = refl; gnbv6 = refl; upfv6 = refl }) in
      Consistent-SameTeids _ _ named (with_upf-SameTeids max w teid addr addr_v6 _)

  upf_setup_added_keeps :
      (several : 2 ≤ max) (small : max * 4 ≤ 4294967296) (req : Request) (sig_id teid : ℕ)
      (addr : Bytes) (addr_v6 : Option Bytes) (c : Context) (a : Added)
      → AddResult max several small 1 c a
      → KeepsTable max (upf_setup_added max w req sig_id teid addr addr_v6 c a)
  unfolding upf_setup_added
  upf_setup_added_keeps several small req sig_id teid addr addr_v6 c crashed h = tt
  upf_setup_added_keeps several small req sig_id teid addr addr_v6 c (refused c')
        (taken, same, ok) =
      ok
  upf_setup_added_keeps several small req sig_id teid addr addr_v6 c (created c' sess)
        (bounds, was, is, others, ok) =
      let own = Owns-Consistent sess.sess_id sess (TableOk-Owns max sess.sess_id c' sess ok is) in
      need_keeps max c' (req sig_hostname) _ ok (λ hostname.
        if_keeps (ltb (length hostname) 255) _ aborted
          (finish_upf_setup_keeps _ c' ok (sess_update sig_id teid addr addr_v6 sess hostname own))
          tt)

  handle_upf_setup_req_keeps :
      (several : 2 ≤ max) (small : max * 4 ≤ 4294967296) (req : Request) (c : Context)
      (v4 : GtpNode)
      → TableOk max c
      → gtp_node_n3_v4_first c ≡ some v4
      → KeepsTable max (handle_upf_setup_req max w req c)
  unfolding handle_upf_setup_req
  handle_upf_setup_req_keeps several small req c v4 ok node =
      need_keeps max c (req sig_sessid) _ ok (λ sig_id.
        need_keeps max c (req upf_ipaddr) _ ok (λ addr.
          need_keeps max c (req upf_teid) _ ok (λ teid.
            upf_setup_added_keeps several small req _ _ _ _ c (add_media_sig_sess max raw now c) (
              add_media_sig_sess-AddResult max several small raw now 1 c v4 ok node (omega arith)
                (omega arith)))))

  handle_upf_update_req_keeps :
      (req : Request) (c : Context)
      → TableOk max c
      → KeepsTable max (handle_upf_update_req max w req c)
  unfolding handle_upf_update_req
  handle_upf_update_req_keeps req c ok = need_keeps max c (req sig_sessid) _ ok (λ sig_id.
      need_keeps max c (req media_sessid) _ ok (λ id.
        with_found_keeps (atoui (atol id)) c aborted _ ok tt (λ sess own.
          need_keeps max c (req upf_ipaddr) _ ok (λ addr.
            need_keeps max c (req upf_teid) _ ok (λ teid.
              finish_upf_update_keeps _ c ok
                (Consistent-SameTeids sess _ own (with_upf-SameTeids max w _ _ _ sess)))))))

  handle_gnb_setup_req_keeps :
      (req : Request) (c : Context)
      → TableOk max c
      → KeepsTable max (handle_gnb_setup_req max w req c)
  unfolding handle_gnb_setup_req
  handle_gnb_setup_req_keeps req c ok = need_keeps max c (req sig_sessid) _ ok (λ sig_id.
      need_keeps max c (req media_sessid) _ ok (λ id.
        with_found_keeps (atoui (atol id)) c (done c [] false) _ ok ok (λ sess own.
          if_keeps (atoui (atol sig_id) == sess.sig_sess_id) _ (done c [] false)
            (need_keeps max c (req gnb_ipaddr) _ ok (λ addr.
              need_keeps max c (req gnb_teid) _ ok (λ teid. finish_gnb_setup_keeps _ _ c ok (
                gnb_gtp_open-Consistent max w _ (nodes_of c)
                  (Consistent-SameTeids sess _ own (with_gnb-SameTeids max w _ _ _ _ sess))))))
            ok)))

  handle_check_sess_req_keeps :
      (req : Request) (c : Context)
      → TableOk max c
      → KeepsTable max (handle_check_sess_req max w req c)
  unfolding handle_check_sess_req
  handle_check_sess_req_keeps req c ok = need_keeps max c (req sig_sessid) _ ok (λ sig_id.
      need_keeps max c (req media_sessid) _ ok (λ id.
        with_found_keeps (atoui (atol id)) c aborted _ ok tt
          (λ sess own. with_routing_keeps sess _ ok)))

  handle_sess_release_req_keeps :
      (req : Request) (c : Context)
      → TableOk max c
      → KeepsTable max (handle_sess_release_req max w req c)
  unfolding handle_sess_release_req
  handle_sess_release_req_keeps req c ok = need_keeps max c (req sig_sessid) _ ok (λ sig_id.
      need_keeps max c (req media_sessid) _ ok (λ id.
        with_found_keeps (atoui (atol id)) c (done c [] false) _ ok ok (λ sess own.
          if_keeps (atoui (atol sig_id) == sess.sig_sess_id) _ (done c [] false)
            (with_routing_keeps sess _ (remove_sess-TableOk max w sess c ok)) ok)))

  -- Whatever request comes in, if media_sig_path_event_callback does not crash, the session table keeps
  -- its invariant: MAX_MEDIA_SESSIONS entries, a next identifier within them, and each session
  -- with the identifier and the four local TEIDs of its place. A node of N3 with an IPv4 address
  -- is configured.
  pub event_callback-KeepsTable :
      (several : 2 ≤ max) (small : max * 4 ≤ 4294967296) (req : Request) (c : Context)
      (v4 : GtpNode)
      → TableOk max c
      → gtp_node_n3_v4_first c ≡ some v4
      → KeepsTable max (event_callback max w req c)
  unfolding event_callback
  event_callback-KeepsTable several small req c v4 ok node =
      need_keeps max c (req type) _ ok (λ kind.
        let k = atoui (atol kind) in
        if_keeps (k == 0) _ _ (handle_upf_setup_req_keeps several small req c v4 ok node) (
          if_keeps (k == 2) _ _ (handle_gnb_setup_req_keeps req c ok) (
            if_keeps (k == 4) _ _ (handle_check_sess_req_keeps req c ok) (
              if_keeps (k == 6) _ _ (handle_sess_release_req_keeps req c ok)
                (if_keeps (k == 9) _ _ (handle_upf_update_req_keeps req c ok) ok)))))
