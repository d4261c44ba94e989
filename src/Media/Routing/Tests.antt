-- ===== src/Media/Routing/Tests.antt =====
-- Packets from a gNB.
use common_framework.Base.{
  ℕ, ◌≡◌, refl, inl, inr, Bool, true, false, some, List, arith, ◌==◌, if◌then◌else◌,
}
use common_framework.Media.Types.{Bytes}
use common_framework.Media.Sample.{blank, sess, context, context-TableOk}
use common_framework.Media.Sessions.{find_media_sig_sess_by_id, find_media_sig_sess_by_teid}
use common_framework.Media.Routing.{
  read_teid, with_teid, passed, recv_cb, route, fault, gtp_header_len, filter_to, packet_filter,
}
use common_framework.Media.Routing.Laws.{gnb_side, Switched, recv_cb-Switched}
use common_framework.Media.Routing.Filter.{plain, Answer, packet_filter-Answer}

-- Version 1, G-PDU, and the IP version 4 behind 12 bytes.
abbrev packet : ℕ → Bytes
packet teid i =
    if i == 0
    then 48
    else if i == 1
    then 255
    else if i == 7
    then teid
    else if i == 12
    then 69
    else 0

abbrev nothing_local : List ℕ → Bool
nothing_local key = false

-- A packet of the gNB, which the filter leaves to the UPF; the byte 20 is outside the TEID.
recv_cb-Switched_example :
    Switched nothing_local true blank
      (packet 8)
      60
      12
      gnb_side
      20
      sess
      context
      (recv_cb 4 nothing_local true blank (some (packet 8, 60)) context)
unfolding read_teid find_media_sig_sess_by_id
recv_cb-Switched_example =
    recv_cb-Switched nothing_local true blank (packet 8) 60 12 4 20 gnb_side sess context
      context-TableOk refl (inl refl) refl (plain refl) (omega arith) (inr (omega arith))

recv_cb_runs :
    recv_cb 4 nothing_local true blank (some (packet 8, 60)) context
    ≡ passed sess.upf (with_teid 1000 (packet 8)) 60 context
unfolding recv_cb read_teid find_media_sig_sess_by_teid packet_filter filter_to gtp_header_len route
recv_cb_runs = refl

packet_filter-Answer_example :
    Answer nothing_local true blank
      (packet 8)
      60
      12
      sess
      (packet_filter nothing_local true blank (packet 8) 60 sess)
packet_filter-Answer_example =
    packet_filter-Answer nothing_local true blank (packet 8) 60 12 sess (plain refl)

-- A packet that is longer than buf_send, and one that is shorter than its header.
packet_filter_overflows :
    (packet_filter nothing_local true blank (packet 8) 1513 sess ≡ fault)
    × (packet_filter nothing_local true blank (packet 8) 8 sess ≡ fault)
unfolding packet_filter filter_to gtp_header_len
packet_filter_overflows = (refl, refl)
