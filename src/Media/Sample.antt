-- ===== src/Media/Sample.antt =====
-- A gateway with room for four places in its table, one IPv4 node and one session.
use common_framework.Base.{ℕ, refl, Option, none, some, List, [], ◌∷◌, arith}
use common_framework.Media.Types.{Bytes, ipv4, n3, GtpNode, GtpSock, GtpPath, SigSess, Context}
use common_framework.Media.Sessions.Laws.{Owns, TableOk}
use common_framework.Media.Sessions.Removal.{Counted}

abbrev pub blank : Bytes
blank i = 0

abbrev pub node : GtpNode
node = record { addr = λ i. 10; addrlen = 16; ip_type = ipv4; interface_type = n3 }

abbrev pub path : (local_teid remote_teid : ℕ) → Option GtpSock → GtpPath
path local_teid remote_teid sock = record {
  remote_teid = remote_teid;
  local_teid = local_teid;
  local_addr = λ i. 10;
  local_addrlen = 16;
  remote_addr = λ i. 20;
  remote_addrlen = 16;
  sock = sock;
}

abbrev pub no_path : (local_teid : ℕ) → GtpPath
no_path local_teid = record {
  remote_teid = 0;
  local_teid = local_teid;
  local_addr = blank;
  local_addrlen = 0;
  remote_addr = blank;
  remote_addrlen = 0;
  sock = none;
}

abbrev pub sock : GtpSock
sock = record { pointer = 500; local_addr = λ i. 10; remote_addr = λ i. 20 }

abbrev pub raw : SigSess
raw = record {
  sess_id = 0;
  sig_sess_id = 0;
  sig_gateway_name = [];
  upf = no_path 0;
  gnb = no_path 0;
  upfv6 = no_path 0;
  gnbv6 = no_path 0;
  ue_addr = blank;
  qos_flow_id = 0;
  last_act_time = 0;
}

-- The session at place 2, with sockets towards the UPF and the gNB.
abbrev pub sess : SigSess
sess = record {
  sess_id = 2;
  sig_sess_id = 77;
  sig_gateway_name = [];
  upf = path 9 1000 (some sock);
  gnb = path 8 2000 (some sock);
  upfv6 = no_path 11;
  gnbv6 = no_path 10;
  ue_addr = blank;
  qos_flow_id = 0;
  last_act_time = 0;
}

abbrev pub table : List (Option SigSess)
table = none ∷ none ∷ some sess ∷ none ∷ []

abbrev pub context : Context
context = record {
  next_sess_id = 2;
  server_list = node ∷ [];
  server_list_v2 = record { ref = 2; sock = sock } ∷ [];
  session_list = table;
  closed = [];
  releasing = [];
  ue_ip_table = [];
}

pub sess-Owns : Owns 2 sess
sess-Owns = record { id_eq = refl; gnb_eq = refl; upf_eq = refl; gnbv6_eq = refl; upfv6_eq = refl }

pub context-TableOk : TableOk 4 context
context-TableOk = record {
  size = refl;
  next = omega arith;
  owns = (tt, (tt, (sess-Owns, (tt, tt))));
}

pub context-Counted : Counted context.server_list_v2 context.session_list
context-Counted = (λ p. ground arith, (omega arith, tt))
