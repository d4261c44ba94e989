-- ===== src/Media/Routing.antt =====
-- Packets of GTP-U in src/mod/gateways/mod_media/media_gtp_path.c: media_gtp_path_recv_cb with
-- media_gtp_packet_filter, and media_gtp_send_n3_end_mark. A buffer is the whole array that it stands
-- in, with what lies behind the packet.
pub mod Laws
pub mod Filter
mod Tests
use common_framework.Base.{
  ℕ, zero, suc, ◌+◌, ◌-◌, ◌*◌, ◌/◌, ◌%◌, ◌^◌, Bool, true, false, not, ◌||◌, Option, none, some,
  List, [], ◌∷◌, Status, success, status_false, memerr, generr, ltb, ◌==◌, if◌then◌else◌, set,
}
use common_framework.Media.Types.{Bytes, memcpy, GtpPath, SigSess, Context}
use common_framework.Media.Sessions.{find_media_sig_sess_by_teid}
use common_framework.Media.Echo.{handle_echo_req}

-- The four bytes of ntohl in a header and of htonl.
unfoldable pub read_teid : Bytes → ℕ
read_teid buf = ((buf 4 * 256 + buf 5) * 256 + buf 6) * 256 + buf 7

unfoldable pub with_teid : ℕ → Bytes → Bytes
with_teid teid buf i =
    if i == 4
    then (teid / 2 ^ 24) % 256
    else if i == 5
    then (teid / 2 ^ 16) % 256
    else if i == 6
    then (teid / 2 ^ 8) % 256
    else if i == 7
    then teid % 256
    else buf i

abbrev pub bytes_at : Bytes → (start number : ℕ) → List ℕ
bytes_at buf start zero = []
bytes_at buf start (suc n) = buf start ∷ bytes_at buf (suc start) n

-- What media_gtp_packet_filter ends with: a memcpy with a negative length or beyond buf_send, or a
-- status, the session and the key given to agc_hash_set.
pub data Filtered : Type 0 where
  fault : Filtered
  answered : Status → SigSess → Option (List ℕ) → Filtered

-- GTPV2C_HEADER_LEN and the extension header.
unfoldable pub gtp_header_len : Bytes → ℕ
gtp_header_len buf = 12 + (if (buf 0 / 4) % 2 == 1 then buf 12 * 4 else 0)

abbrev pub status_of : Bool → Status
status_of true = success
status_of false = status_false

-- The part under `sess->qos_flow_id == 0`, for the version in the copy of the packet, and the write
-- to the TUN device, which succeeds or not.
abbrev pub learn_by : (version : ℕ) (written : Bool) (send : Bytes) → SigSess → Filtered
learn_by version written send sess =
    if version == 4
    then (let addr = memcpy 4 (λ i. send (12 + i)) sess.ue_addr in
        answered (status_of written) (record sess { ue_addr = addr }) (some (bytes_at addr 0 4)))
    else if version == 6
    then (let addr = memcpy 16 (λ i. send (8 + i)) sess.ue_addr in
        answered (status_of written) (record sess { ue_addr = addr }) (some (bytes_at addr 0 16)))
    else answered status_false sess none

unfoldable pub learn : (written : Bool) (buf send : Bytes) → SigSess → Filtered
learn written buf send sess =
    if sess.qos_flow_id == 0
    then learn_by (send 0 / 16) written send (record sess { qos_flow_id = buf 14 })
    else answered (status_of written) sess none

-- char buf_send[1500]
abbrev pub buf_send_size : ℕ
buf_send_size = 1500

-- The rest of the filter for the destination's offset and length. `lbo` tells whether lbo_ip_table has a
-- key, and `stale` is what buf_send holds before the copy.
unfoldable pub filter_to :
    (lbo : List ℕ → Bool) (written : Bool) (stale buf : Bytes)
    → (len header offset key_len : ℕ) → SigSess
    → Filtered
filter_to lbo written stale buf len header offset key_len sess =
    if ltb len header || ltb (header + buf_send_size) len
    then fault
    else if lbo (bytes_at buf (header + offset) key_len)
    then learn written buf (memcpy (len - header) (λ i. buf (header + i)) stale) sess
    else answered status_false sess none

-- media_gtp_packet_filter
unfoldable pub packet_filter :
    (lbo : List ℕ → Bool) (written : Bool) (stale buf : Bytes) (len : ℕ) → SigSess → Filtered
packet_filter lbo written stale buf len sess =
    let header = gtp_header_len buf in
    let version = buf header / 16 in
    if version == 4
    then filter_to lbo written stale buf len header 16 4 sess
    else if version == 6
    then filter_to lbo written stale buf len header 24 16 sess
    else answered status_false sess none

-- What media_gtp_path_recv_cb does with a packet: nothing, an answer to an echo request, a message for
-- agc_gtp_add_message with its length and the path it goes to, a packet for the TUN device, or a crash.
pub data Received : Type 0 where
  ignored crashed : Received
  echo : Option (List ℕ) → Received
  passed : GtpPath → Bytes → ℕ → Context → Received
  taken : Context → Received

-- Writes to a session are seen through the table.
abbrev pub changed : SigSess → Option (List ℕ) → Context → Context
changed sess none c = record c { session_list = set c.session_list sess.sess_id (some sess) }
changed sess (some key) c = record c {
  session_list = set c.session_list sess.sess_id (some sess);
  ue_ip_table = (key, sess.sess_id) ∷ c.ue_ip_table;
}

abbrev pub forward : GtpPath → (buf : Bytes) (len : ℕ) → Context → Received
forward path buf len c = passed path (with_teid path.remote_teid buf) len c

-- The branches for local_teid of gnb and gnbv6. Only what the filter does not take is passed on.
abbrev pub forward_filtered :
    Filtered → (SigSess → GtpPath) → (buf : Bytes) (len : ℕ) → Context → Received
forward_filtered fault path buf len c = crashed
forward_filtered (answered success sess key) path buf len c = taken (changed sess key c)
forward_filtered (answered status_false sess key) path buf len c =
    forward (path sess) buf len (changed sess key c)
forward_filtered (answered memerr sess key) path buf len c =
    forward (path sess) buf len (changed sess key c)
forward_filtered (answered generr sess key) path buf len c =
    forward (path sess) buf len (changed sess key c)

unfoldable pub route :
    (lbo : List ℕ → Bool) (written : Bool) (stale buf : Bytes) (len teid : ℕ)
    → SigSess
    → Context
    → Received
route lbo written stale buf len teid sess c =
    if teid == sess.gnb.local_teid
    then forward_filtered (packet_filter lbo written stale buf len sess) SigSess.upf buf len c
    else if teid == sess.upf.local_teid
    then forward sess.gnb buf len c
    else if teid == sess.gnbv6.local_teid
    then forward_filtered (packet_filter lbo written stale buf len sess) SigSess.upfv6 buf len c
    else if teid == sess.upfv6.local_teid
    then forward sess.gnbv6 buf len c
    else ignored

abbrev pub route_found : (SigSess → Received) → Option (Option SigSess) → Received
route_found to none = crashed
route_found to (some none) = ignored
route_found to (some (some sess)) = to sess

-- media_gtp_path_recv_cb. No packet stands for a null buffer or a negative length.
unfoldable pub recv_cb :
    (max_sessions : ℕ) (lbo : List ℕ → Bool) (written : Bool) (stale : Bytes)
    (packet : Option (Bytes × ℕ))
    → Context
    → Received
recv_cb max_sessions lbo written stale none c = ignored
recv_cb max_sessions lbo written stale (some (buf, len)) c =
    if buf 1 == 1
    then echo (handle_echo_req stale (buf 0) (buf 1))
    else if (buf 1 == 255) || (buf 1 == 254)
    then route_found (λ sess. route lbo written stale buf len (read_teid buf) sess c)
        (find_media_sig_sess_by_teid max_sessions (read_teid buf) c)
    else ignored

-- media_gtp_send_n3_end_mark: the message and the path it goes to.
abbrev pub end_mark : (stale : Bytes) → ℕ → Bytes
end_mark stale teid = with_teid teid (λ i.
    if i == 0
    then 48
    else if i == 1
    then 254
    else if i == 2
    then 0
    else if i == 3
    then 0
    else stale i)

unfoldable pub send_n3_end_mark : (stale : Bytes) → SigSess → Option (GtpPath × Bytes × ℕ)
send_n3_end_mark stale sess =
    if not (sess.gnb.remote_teid == 0)
    then some (sess.gnb, end_mark stale sess.gnb.remote_teid, 8)
    else if not (sess.gnbv6.remote_teid == 0)
    then some (sess.gnbv6, end_mark stale sess.gnbv6.remote_teid, 8)
    else none
