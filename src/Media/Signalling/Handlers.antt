-- ===== src/Media/Signalling/Handlers.antt =====
-- media_sig_handle_upf_setup_req, media_sig_handle_upf_update_req, media_sig_handle_gnb_setup_req,
-- media_sig_handle_check_sess_req, media_sig_handle_sess_release_req and media_sig_path_event_callback
-- of media_sig_path.c.
use mathlib.Core.Option
use common_framework.Base.{
  ℕ, false, Option, none, some, List, [], ◌∷◌, ◌++◌, Status, ltb, ◌==◌, if◌then◌else◌, length,
}
use common_framework.Base.CString.{CString}
use common_framework.Media.Types.{Bytes, SigSess, Context}
use common_framework.Media.Sockets.{Nodes, upf_gtp_open, gnb_gtp_open}
use common_framework.Media.Sessions.{
  Added, created, refused, crashed, add_media_sig_sess, find_media_sig_sess_by_id,
  remove_media_sig_sess, nodes_of, with_nodes,
}
use common_framework.Media.Signalling.{
  type, media_sessid, sig_sessid, sig_hostname, upf_teid, upf_ipaddr, upf_ipaddr_v6, gnb_teid,
  gnb_ipaddr, gnb_teid_v6, gnb_ipaddr_v6, Request, sess_check_rsp, sess_release_rsp, upf_update_rsp,
  World, atoui, Message, response, handover, Handled, done, aborted, sockaddr_in_len,
  upf_setup_response, gnb_setup_response, error_response, need, with_routing, remote_to, remote_if,
  stored, sends,
}

-- What a teid in an optional header is read as: 0 without the header.
abbrev pub teid_or_zero : World → Option CString → ℕ
teid_or_zero w none = 0
teid_or_zero w (some value) = atoui (World.atol w value)

-- media_upf_gtp_open and media_gnb_gtp_open on a session of the table.
abbrev pub put_back : Context → SigSess × Nodes × Status → Context
put_back c (sess, ns, status) = stored sess (with_nodes ns c)

module _ (max : ℕ) (w : World) where
  open w use {atol, to_addr4, to_addr6, sent, raw, now, stale, created_sock, created_sock_v6}

  abbrev pub remove_sess : SigSess → Context → Context
  remove_sess sess c = (remove_media_sig_sess max sess c).0

  -- The fields that an upf request sets. The IPv6 path gets the TEID of the IPv4 path.
  unfoldable pub with_upf : (teid : ℕ) (addr : Bytes) (addr_v6 : Option Bytes) → SigSess → SigSess
  with_upf teid addr addr_v6 sess = record sess {
    upf = remote_to teid addr sockaddr_in_len sess.upf;
    upfv6 = remote_if teid addr_v6 sess.upfv6;
  }

  -- The end of media_sig_handle_upf_setup_req, from its response on.
  unfoldable pub finish_upf_setup : SigSess → Context → Handled
  finish_upf_setup sess c = with_routing sess (
      if sent
      then done
          (put_back (stored sess c)
            (upf_gtp_open stale created_sock created_sock_v6 sess (nodes_of c)))
          (response (upf_setup_response sess) ∷ []) false
      else done (remove_sess sess (stored sess c)) [] false)

  -- The session is in the table before the header with the host name is read. strcpy has room for 254
  -- bytes of it.
  unfoldable pub upf_setup_added :
      Request
      → (sig_id teid : ℕ) (addr : Bytes) (addr_v6 : Option Bytes) → Context
      → Added
      → Handled
  upf_setup_added req sig_id teid addr addr_v6 c crashed = aborted
  upf_setup_added req sig_id teid addr addr_v6 c (refused c') = done c' [] false
  upf_setup_added req sig_id teid addr addr_v6 c (created c' sess) =
      need c' (req sig_hostname) (λ hostname.
        if ltb (length hostname) 255
        then finish_upf_setup
            (with_upf teid addr addr_v6
              (record sess { sig_sess_id = sig_id; sig_gateway_name = hostname }))
            c'
        else aborted)

  -- media_sig_handle_upf_setup_req
  unfoldable pub handle_upf_setup_req : Request → Context → Handled
  handle_upf_setup_req req c = need c (req sig_sessid) (λ sig_id. need c (req upf_ipaddr) (λ addr.
      need c (req upf_teid) (λ teid.
        upf_setup_added req (atoui (atol sig_id)) (atoui (atol teid)) (to_addr4 addr)
          (Option.map to_addr6 (req upf_ipaddr_v6)) c (add_media_sig_sess max raw now c))))

  -- What is done with the session that media_find_media_sig_sess_by_id gives, or without one.
  abbrev pub with_found :
      Option (Option SigSess) → (missing : Handled) → (SigSess → Handled) → Handled
  with_found none missing next = aborted
  with_found (some none) missing next = missing
  with_found (some (some sess)) missing next = next sess

  unfoldable pub finish_upf_update : SigSess → Context → Handled
  finish_upf_update sess c = with_routing sess (
      if sent
      then done (stored sess c) (response (error_response sess upf_update_rsp 0) ∷ []) false
      else done (remove_sess sess (stored sess c)) [] false)

  -- media_sig_handle_upf_update_req. Without a session the log line reads the null pointer.
  unfoldable pub handle_upf_update_req : Request → Context → Handled
  handle_upf_update_req req c = need c (req sig_sessid) (λ sig_id. need c (req media_sessid) (λ id.
      with_found (find_media_sig_sess_by_id max (atoui (atol id)) c) aborted (λ sess.
        need c (req upf_ipaddr) (λ addr. need c (req upf_teid) (λ teid.
          finish_upf_update
            (with_upf (atoui (atol teid)) (to_addr4 addr) (Option.map to_addr6 (req upf_ipaddr_v6))
              sess)
            c)))))

  -- The fields that a gnb request sets.
  unfoldable pub with_gnb :
      (teid teid_v6 : ℕ) (addr : Bytes) (addr_v6 : Option Bytes) → SigSess → SigSess
  with_gnb teid teid_v6 addr addr_v6 sess = record sess {
    gnb = remote_to teid addr sockaddr_in_len sess.gnb;
    gnbv6 = remote_if teid_v6 addr_v6 sess.gnbv6;
  }

  -- The end of media_sig_handle_gnb_setup_req, from media_gnb_gtp_open on.
  unfoldable pub finish_gnb_setup : List Message → SigSess × Nodes × Status → Context → Handled
  finish_gnb_setup marked opened c = with_routing opened.0 (
      if sent
      then done (put_back c opened) (marked ++ (response (gnb_setup_response opened.0) ∷ [])) false
      else done (remove_sess opened.0 (put_back c opened)) marked false)

  -- media_sig_handle_gnb_setup_req
  unfoldable pub handle_gnb_setup_req : Request → Context → Handled
  handle_gnb_setup_req req c = need c (req sig_sessid) (λ sig_id. need c (req media_sessid) (λ id.
      with_found (find_media_sig_sess_by_id max (atoui (atol id)) c) (done c [] false) (λ sess.
        if atoui (atol sig_id) == sess.sig_sess_id
        then need c (req gnb_ipaddr) (λ addr. need c (req gnb_teid) (λ teid.
          finish_gnb_setup (handover stale sess)
            (gnb_gtp_open stale created_sock created_sock_v6
              (with_gnb (atoui (atol teid)) (teid_or_zero w (req gnb_teid_v6)) (to_addr4 addr)
                (Option.map to_addr6 (req gnb_ipaddr_v6)) sess)
              (nodes_of c))
            c))
        else done c [] false)))

  -- media_sig_handle_check_sess_req. Without a session the log line reads the null pointer.
  unfoldable pub handle_check_sess_req : Request → Context → Handled
  handle_check_sess_req req c = need c (req sig_sessid) (λ sig_id. need c (req media_sessid) (λ id.
      with_found (find_media_sig_sess_by_id max (atoui (atol id)) c) aborted (λ sess.
        with_routing sess (done c (sends sent (error_response sess sess_check_rsp 0)) false))))

  -- media_sig_handle_sess_release_req
  unfoldable pub handle_sess_release_req : Request → Context → Handled
  handle_sess_release_req req c = need c (req sig_sessid) (λ sig_id.
      need c (req media_sessid) (λ id.
        with_found (find_media_sig_sess_by_id max (atoui (atol id)) c) (done c [] false) (λ sess.
          if atoui (atol sig_id) == sess.sig_sess_id
          then with_routing sess (
              done (remove_sess sess c) (sends sent (error_response sess sess_release_rsp 0)) false)
          else done c [] false)))

  -- The switch of media_sig_path_event_callback over MEDIA_SIG_EVENT_TYPE.
  abbrev pub by_type : (type : ℕ) → Request → Context → Handled
  by_type kind req c =
      if kind == 0
      then handle_upf_setup_req req c
      else if kind == 2
      then handle_gnb_setup_req req c
      else if kind == 4
      then handle_check_sess_req req c
      else if kind == 6
      then handle_sess_release_req req c
      else if kind == 9
      then handle_upf_update_req req c
      else done c [] false

  -- media_sig_path_event_callback
  unfoldable pub event_callback : Request → Context → Handled
  event_callback req c = need c (req type) (λ kind. by_type (atoui (atol kind)) req c)
