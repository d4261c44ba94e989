-- ===== src/Media/Signalling/Requests.antt =====
-- Single requests to the handlers of media_sig_path.c: a missing host name, and updates.
use common_framework.Base.{ℕ, ◌*◌, ◌≤◌, ◌≡◌, refl, subst, true, none, some, [], arith, get_elem?}
use common_framework.Base.CString.{CString}
use common_framework.Media.Types.{SigSess, Context}
use common_framework.Media.Sessions.{created, add_media_sig_sess, find_media_sig_sess_by_id}
use common_framework.Media.Signalling.{
  media_sessid, sig_sessid, sig_hostname, upf_teid, upf_ipaddr, upf_ipaddr_v6, Request, World,
  atoui, done,
}
use common_framework.Media.Types.{GtpNode}
use common_framework.Media.Sessions.{gtp_node_n3_v4_first}
use common_framework.Media.Sessions.Laws.{TableOk, AddResult, add_media_sig_sess-AddResult}
use common_framework.Media.Signalling.Handlers.{upf_setup_added, handle_upf_setup_req}
use common_framework.Media.Sessions.Laws.{IsCreated}

module _ (max : ℕ) (w : World) where
  open w use {atol, to_addr4, to_addr6, sent, raw, now, stale, created_sock, created_sock_v6}

  -- An upf setup request that lacks only the host name, where media_add_media_sig_sess makes a
  -- session: the handler destroys the event, sends nothing and leaves the new session in the table,
  -- at a place that was free.
  pub handle_upf_setup_req-no_hostname :
      (several : 2 ≤ max) (small : max * 4 ≤ 4294967296) (req : Request) (c c' : Context)
      (sess : SigSess) (v4 : GtpNode) (sig_text addr_text teid_text : CString)
      → TableOk max c
      → gtp_node_n3_v4_first c ≡ some v4
      → req sig_sessid ≡ some sig_text
      → req upf_ipaddr ≡ some addr_text
      → req upf_teid ≡ some teid_text
      → req sig_hostname ≡ none
      → add_media_sig_sess max raw now c ≡ created c' sess
      → (handle_upf_setup_req max w req c ≡ done c' [] true)
        × (get_elem? c.session_list sess.sess_id ≡ some none)
        × (get_elem? c'.session_list sess.sess_id ≡ some (some sess))
  unfolding handle_upf_setup_req upf_setup_added
  handle_upf_setup_req-no_hostname several small req c c' sess v4 sig_text addr_text teid_text ok
        node sig_there addr_there teid_there missing made =
      let result =
        add_media_sig_sess-AddResult max several small raw now 1 c v4 ok node (omega arith)
          (omega arith) in
      let is_created : IsCreated max several small 1 c c' sess =
        subst (AddResult max several small 1 c) made result in
      let (bounds, was, now_there, others, kept) = is_created in
      (rw (sig_there, addr_there, teid_there, made, missing) refl, was, now_there)

  -- A complete update request for a session of the table.
  pub record AsksUpdate (req : Request) (c : Context) (sess : SigSess) : Type 0 where
    pub sig_text : CString
    pub media_text : CString
    pub addr_text : CString
    pub teid_text : CString
    pub addr6_text : CString
    pub sig_there : req sig_sessid ≡ some sig_text
    pub media_there : req media_sessid ≡ some media_text
    pub addr_there : req upf_ipaddr ≡ some addr_text
    pub teid_there : req upf_teid ≡ some teid_text
    pub addr6_there : req upf_ipaddr_v6 ≡ some addr6_text
    pub known : find_media_sig_sess_by_id max (atoui (atol media_text)) c ≡ some (some sess)
