-- ===== src/Media/Sockets/Tests.antt =====
-- A session whose two IPv4 paths share a socket.
use common_framework.Base.{◌≡◌, none, some, [], arith}
use common_framework.Media.Sample.{blank, sess, context}
use common_framework.Media.Sockets.{Nodes, upf_gtp_open, gnb_gtp_open, upf_gtp_close, gnb_gtp_close}
use common_framework.Media.Sockets.Counts.{refs}
use common_framework.Media.Sockets.Opening.{gtp_close-gtp_open}

abbrev nodes : Nodes
nodes = record { list = context.server_list_v2; closed = [] }

gtp_close-gtp_open_example :
    (let r = upf_gtp_open blank (some 600) none sess nodes in
      refs 500 (upf_gtp_close r.0 r.1).list ≡ refs 500 nodes.list)
    × (let r = gnb_gtp_open blank (some 600) none sess nodes in
        refs 500 (gnb_gtp_close r.0 r.1).list ≡ refs 500 nodes.list)
gtp_close-gtp_open_example =
    gtp_close-gtp_open blank (some 600) none sess nodes 500 (omega arith, tt)
