-- ===== src/Media/Signalling/References.antt =====
-- The references on sockets that media_sig_handle_gnb_setup_req of media_sig_path.c leaves.
use mathlib.Core.Option
use common_framework.Base.{
  ℕ, ◌+◌, ◌<◌, ◌≡◌, refl, ap, ◌∙◌, true, false, some, List, [], ◌∷◌, ◌++◌, arith, ◌==◌, ==_refl,
  length, get_elem?, set,
}
use common_framework.Base.CString.{CString}
use common_framework.Media.Types.{SigSess, Context}
use common_framework.Media.Sockets.{gnb_gtp_open}
use common_framework.Media.Sessions.{find_media_sig_sess_by_id, nodes_of}
use common_framework.Media.Signalling.{
  media_sessid, sig_sessid, gnb_teid, gnb_ipaddr, gnb_teid_v6, gnb_ipaddr_v6, Request, World, atoui,
  Message, response, handover, done, gnb_setup_response,
}
use common_framework.Media.Sessions.Laws.{TableOk, TableOk-Owns}
use common_framework.Media.Sessions.Lookup.{by_id_found}
use common_framework.Media.Signalling.Changes.{routing_fits}
use common_framework.Media.Signalling.Handlers.{
  teid_or_zero, put_back, with_gnb, finish_gnb_setup, handle_gnb_setup_req,
}
use common_framework.Media.Sockets.{Opened, gtp_open}
use common_framework.Media.Sockets.Counts.{refs, uses, Positive}
use common_framework.Media.Sockets.Opening.{GainsBoth, gtp_open-GainsBoth}
use common_framework.Media.Sessions.Removal.{held, held-set, Counted}

-- A setup request of a gNB for a session of the table, complete and with the right identifier.
pub record AsksGnbSetup (max : ℕ) (w : World) (req : Request) (c : Context) (sess : SigSess)
    : Type 0 where
  pub sig_text : CString
  pub media_text : CString
  pub addr_text : CString
  pub teid_text : CString
  pub sig_there : req sig_sessid ≡ some sig_text
  pub media_there : req media_sessid ≡ some media_text
  pub addr_there : req gnb_ipaddr ≡ some addr_text
  pub teid_there : req gnb_teid ≡ some teid_text
  pub known : find_media_sig_sess_by_id max (atoui (w.atol media_text)) c ≡ some (some sess)
  pub same_id : atoui (w.atol sig_text) ≡ sess.sig_sess_id

module _ (max : ℕ) (w : World) where
  open w use {atol, to_addr4, to_addr6, sent, raw, now, stale, created_sock, created_sock_v6}

  -- The session with the request's address, and what media_gnb_gtp_open makes of it.
  abbrev asked :
      (req : Request) (c : Context) (sess : SigSess) → AsksGnbSetup max w req c sess → SigSess
  asked req c sess a =
      with_gnb max w (atoui (atol a.teid_text)) (teid_or_zero w (req gnb_teid_v6))
        (to_addr4 a.addr_text) (Option.map to_addr6 (req gnb_ipaddr_v6)) sess

  handle_gnb_setup_req-asked :
      (req : Request) (c : Context) (sess : SigSess) (a : AsksGnbSetup max w req c sess)
      → handle_gnb_setup_req max w req c
        ≡ finish_gnb_setup max w
            (handover stale sess)
            (gnb_gtp_open stale created_sock created_sock_v6 (asked req c sess a) (nodes_of c))
            c
  unfolding handle_gnb_setup_req
  handle_gnb_setup_req-asked req c sess a =
      let same : (atoui (atol a.sig_text) == sess.sig_sess_id) ≡ true =
        ap (λ k. k == sess.sig_sess_id) a.same_id ∙ ==_refl sess.sig_sess_id in
      rw (a.sig_there, a.media_there, a.known, same, a.addr_there, a.teid_there) refl

  gnb_gtp_open-counts :
      (p id : ℕ) (c : Context) (sess sess' : SigSess)
      → Counted c.server_list_v2 c.session_list
      → get_elem? c.session_list id ≡ some (some sess)
      → sess'.sess_id ≡ id
      → sess'.upf.sock ≡ sess.upf.sock
      → sess'.upfv6.sock ≡ sess.upfv6.sock
      → (let c' = put_back c (gnb_gtp_open stale created_sock created_sock_v6 sess' (nodes_of c)) in
          (refs p c'.server_list_v2
            ≡ held p c'.session_list + (uses p sess.gnb.sock + uses p sess.gnbv6.sock))
          × Positive c'.server_list_v2)
  unfolding gnb_gtp_open
  gnb_gtp_open-counts p id c sess sess' (count, positive) there same_id same_upf same_upfv6 =
      let o : Opened =
        gtp_open stale created_sock created_sock_v6 sess'.gnb sess'.gnbv6 (nodes_of c) in
      let (gained, positive') : GainsBoth (nodes_of c) o.sock o.sockv6 o.nodes =
        gtp_open-GainsBoth stale created_sock created_sock_v6 sess'.gnb sess'.gnbv6 (nodes_of c)
          positive in
      let opened : SigSess = record sess' {
        gnb = record sess'.gnb { sock = o.sock };
        gnbv6 = record sess'.gnbv6 { sock = o.sockv6 };
      } in
      let changed = held-set p id c.session_list (some sess) (some opened) there in
      let moved : held p (set c.session_list sess'.sess_id (some opened))
          ≡ held p (set c.session_list id (some opened)) =
        ap (λ k. held p (set c.session_list k (some opened))) same_id in
      let u = ap (uses p) same_upf in
      let u6 = ap (uses p) same_upfv6 in
      (omega (arith, changed, gained p, count p, moved), positive')

  -- media_sig_handle_gnb_setup_req on a complete request for a session, where the gateway's name leaves
  -- room in routing[255], the response is sent and the nodes counted the references of all sessions on sockets: afterwards the nodes count more
  -- references on a socket than the sessions hold, by those that the session held on it for its
  -- gNB before. Without such a reference the counts agree again.
  pub handle_gnb_setup_req-refs :
      (p : ℕ) (req : Request) (c : Context) (sess : SigSess)
      → AsksGnbSetup max w req c sess
      → TableOk max c
      → Counted c.server_list_v2 c.session_list
      → sent ≡ true
      → length sess.sig_gateway_name < 245
      → (c' : Context) × (ms : List Message) × (handle_gnb_setup_req max w req c ≡ done c' ms false)
        × (refs p c'.server_list_v2
            ≡ held p c'.session_list + (uses p sess.gnb.sock + uses p sess.gnbv6.sock))
  unfolding finish_gnb_setup with_gnb gnb_gtp_open
  handle_gnb_setup_req-refs p req c sess a ok counted yes_sent short =
      let there = by_id_found max _ c sess a.known in
      let own = TableOk-Owns max _ c sess ok there in
      let opened =
        gnb_gtp_open stale created_sock created_sock_v6 (asked req c sess a) (nodes_of c) in
      (
        put_back c opened,
        handover stale sess ++ (response (gnb_setup_response opened.0) ∷ []),
        handle_gnb_setup_req-asked req c sess a ∙ rw (routing_fits sess short, yes_sent) refl,
        (gnb_gtp_open-counts p _ c sess (asked req c sess a) counted there own.id_eq refl refl).0,
      )
