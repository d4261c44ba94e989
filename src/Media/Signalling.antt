-- ===== src/Media/Signalling.antt =====
-- The handlers of src/mod/gateways/mod_media/media_sig_path.c for the requests of the signalling
-- gateway. An event is what agc_event_get_header returns for its headers.
pub mod Handlers
pub mod Changes
pub mod Invariant
pub mod References
pub mod Requests
mod Tests
use common_framework.Base.{
  ℕ, ◌%◌, ◌^◌, Bool, true, false, ◌||◌, Option, none, some, List, [], ◌∷◌, ◌++◌, ltb, ◌==◌,
  if◌then◌else◌, length, set,
}
use common_framework.Base.CString.{CString, lit}
use common_framework.Base.Int.{ℤ, pos, negsuc}
use common_framework.Media.Types.{Bytes, memcpy, GtpPath, SigSess, Context}
use common_framework.Media.Routing.{send_n3_end_mark}

-- The names of headers, MEDIA_SIG_EVENT_HEADER_* and EVENT_HEADER_ROUTING.
pub data HeaderName : Type 0 where
  type errcode media_sessid sig_sessid sig_hostname routingkey : HeaderName
  upf_teid upf_ipaddr upf_teid_v6 upf_ipaddr_v6 : HeaderName
  gnb_teid gnb_ipaddr gnb_teid_v6 gnb_ipaddr_v6 : HeaderName
  to_upf_teid to_upf_ipaddr to_upf_teid_v6 to_upf_ipaddr_v6 : HeaderName
  to_gnb_teid to_gnb_ipaddr to_gnb_teid_v6 to_gnb_ipaddr_v6 : HeaderName

abbrev pub Request : Type 0
Request = HeaderName → Option CString

-- MEDIA_SIG_EVENT_TYPE as far as the handlers use it.
abbrev pub upf_setup_rsp : ℕ
upf_setup_rsp = 1

abbrev pub gnb_setup_rsp : ℕ
gnb_setup_rsp = 3

abbrev pub sess_check_rsp : ℕ
sess_check_rsp = 5

abbrev pub sess_release_rsp : ℕ
sess_release_rsp = 7

abbrev pub upf_update_rsp : ℕ
upf_update_rsp = 10

-- The value of a header of a response: "%u", inet_ntop of an address, or a text that is itself the format
-- of agc_event_add_header.
pub data Value : Type 0 where
  number : ℕ → Value
  ip_text : Bytes → Value
  format : CString → Value

abbrev pub Response : Type 0
Response = List (HeaderName × Value)

-- What a handler asks of the libraries and the system: atol; the socket addresses that inet_pton and the
-- assignments around it leave; whether a response is built and fired; malloc's memory and the
-- time for a new session; and what agc_gtp_open_v2 gets.
pub record World : Type 0 where
  pub atol : CString → ℤ
  pub to_addr4 : CString → Bytes
  pub to_addr6 : CString → Bytes
  pub sent : Bool
  pub raw : SigSess
  pub now : ℕ
  pub stale : Bytes
  pub created_sock : Option ℕ
  pub created_sock_v6 : Option ℕ

-- agc_atoui behind atol
abbrev pub atoui : ℤ → ℕ
atoui (pos n) = n % 2 ^ 32
atoui (negsuc n) = 0

-- A response, or the end marker of GTP-U with the path it goes to and its length.
pub data Message : Type 0 where
  response : Response → Message
  end_marker : GtpPath → Bytes → ℕ → Message

-- What a handler ends with: the context, the messages it sent, and whether it destroyed the event; or
-- a crash, which also stands for a write behind an array.
pub data Handled : Type 0 where
  done : Context → List Message → (event_destroyed : Bool) → Handled
  aborted : Handled

-- The text that sprintf writes to routing[255].
abbrev pub routing_text : SigSess → CString
routing_text sess = sess.sig_gateway_name ++ lit ".media2sig"

abbrev pub routing : SigSess → Value
routing sess = format (routing_text sess)

-- A function that sends a response, from its sprintf on: with its zero, the text must fit in the array.
abbrev pub with_routing : SigSess → Handled → Handled
with_routing sess rest = if ltb (length (routing_text sess)) 255 then rest else aborted

abbrev pub sockaddr_in_len : ℕ
sockaddr_in_len = 16

abbrev pub sockaddr_in6_len : ℕ
sockaddr_in6_len = 28

-- The headers of media_sig_path_send_upf_setup_rsp, media_sig_path_send_gnb_setup_rsp and
-- media_sig_path_send_error_rsp.
unfoldable pub upf_setup_response : SigSess → Response
upf_setup_response sess =
    ((type, number upf_setup_rsp)
      ∷ (media_sessid, number sess.sess_id)
      ∷ (sig_sessid, number sess.sig_sess_id)
      ∷ (to_upf_teid, number sess.upf.local_teid)
      ∷ (to_gnb_teid, number sess.gnb.local_teid)
      ∷ (errcode, number 0)
      ∷ (to_upf_ipaddr, ip_text sess.upf.local_addr)
      ∷ (to_gnb_ipaddr, ip_text sess.gnb.local_addr)
      ∷ (routingkey, routing sess)
      ∷ [])
    ++ (if (sess.upfv6.local_addrlen == 0) || (sess.gnbv6.local_addrlen == 0)
        then []
        else (to_upf_teid_v6, number sess.upfv6.local_teid)
          ∷ (to_gnb_teid_v6, number sess.gnbv6.local_teid)
          ∷ (to_upf_ipaddr_v6, ip_text sess.upfv6.local_addr)
          ∷ (to_gnb_ipaddr_v6, ip_text sess.gnbv6.local_addr)
          ∷ [])

unfoldable pub gnb_setup_response : SigSess → Response
gnb_setup_response sess =
    (type, number gnb_setup_rsp)
    ∷ (media_sessid, number sess.sess_id)
    ∷ (sig_sessid, number sess.sig_sess_id)
    ∷ (errcode, number 0)
    ∷ (routingkey, routing sess)
    ∷ []

unfoldable pub error_response : SigSess → (kind code : ℕ) → Response
error_response sess kind code =
    (type, number kind)
    ∷ (media_sessid, number sess.sess_id)
    ∷ (sig_sessid, number sess.sig_sess_id)
    ∷ (errcode, number code)
    ∷ (routingkey, routing sess)
    ∷ []

-- MEDIA_SIG_EVENT_GET_HEADER: without the header the event is destroyed and the handler returns.
abbrev pub need : Context → Option CString → (CString → Handled) → Handled
need c none next = done c [] true
need c (some value) next = next value

-- The remote end of a path.
abbrev pub remote_to : (teid : ℕ) (addr : Bytes) (addrlen : ℕ) → GtpPath → GtpPath
remote_to teid addr addrlen path = record path {
  remote_teid = teid;
  remote_addrlen = addrlen;
  remote_addr = memcpy addrlen addr path.remote_addr;
}

abbrev pub remote_if : (teid : ℕ) → Option Bytes → GtpPath → GtpPath
remote_if teid none path = path
remote_if teid (some addr) path = remote_to teid addr sockaddr_in6_len path

abbrev pub stored : SigSess → Context → Context
stored sess c = record c { session_list = set c.session_list sess.sess_id (some sess) }

abbrev pub sends : Bool → Response → List Message
sends true r = response r ∷ []
sends false r = []

abbrev pub marker : Option (GtpPath × Bytes × ℕ) → List Message
marker none = []
marker (some (path, bytes, len)) = end_marker path bytes len ∷ []

-- The old gNB of a session that has one gets an end marker.
unfoldable pub handover : Bytes → SigSess → List Message
handover stale sess = if sess.gnb.remote_teid == 0 then [] else marker (send_n3_end_mark stale sess)
