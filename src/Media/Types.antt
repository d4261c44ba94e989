-- ===== src/Media/Types.antt =====
-- The data of src/mod/gateways/mod_media/media_context.h and agc_gtp_path.h: nodes, paths, sessions and
-- the context of the media gateway. A socket is given by its pointer and what it is connected to.
use common_framework.Base.{ℕ, zero, suc, Bool, true, Option, List, ◌==◌, ◌&&◌, ltb, if◌then◌else◌}

-- The bytes from an address on: agc_std_sockaddr_t and message buffers.
abbrev pub Bytes : Type 0
Bytes = ℕ → ℕ

-- memcpy of `n` bytes, and the test memcmp(a, b, n) == 0.
abbrev pub memcpy : ℕ → (source target : Bytes) → Bytes
memcpy n source target i = if ltb i n then source i else target i

abbrev pub same_bytes : ℕ → Bytes → Bytes → Bool
same_bytes zero a b = true
same_bytes (suc n) a b = same_bytes n a b && (a n == b n)

-- media_gtp_ip_t and media_interface_t
pub data GtpIp : Type 0 where
  ipv4 ipv6 : GtpIp

pub data Interface : Type 0 where
  n3 n3_upf : Interface

-- agc_gtp_sock_t: its address in memory and the two ends of the connection.
pub record GtpSock : Type 0 where
  pub pointer : ℕ
  pub local_addr : Bytes
  pub remote_addr : Bytes

-- media_gtp_node_t
pub record GtpNode : Type 0 where
  pub addr : Bytes
  pub addrlen : ℕ
  pub ip_type : GtpIp
  pub interface_type : Interface

-- media_gtp_node_v2_t. The list holds no node with a null socket: media_add_gtp_node_v2 refuses it.
pub record GtpNodeV2 : Type 0 where
  pub ref : ℕ
  pub sock : GtpSock

-- media_gtp_path_t
pub record GtpPath : Type 0 where
  pub remote_teid : ℕ
  pub local_teid : ℕ
  pub local_addr : Bytes
  pub local_addrlen : ℕ
  pub remote_addr : Bytes
  pub remote_addrlen : ℕ
  pub sock : Option GtpSock

-- media_sig_sess_t
pub record SigSess : Type 0 where
  pub sess_id : ℕ
  pub sig_sess_id : ℕ
  pub sig_gateway_name : List ℕ
  pub upf : GtpPath
  pub gnb : GtpPath
  pub upfv6 : GtpPath
  pub gnbv6 : GtpPath
  pub ue_addr : Bytes
  pub qos_flow_id : ℕ
  pub last_act_time : ℕ

-- media_context_t. A session is reached through session_list only, so the list holds the sessions
-- themselves. `closed` holds the sockets that agc_gtp_close was called on, and `releasing` the
-- sessions with a timer that will free them; `ue_ip_table` holds what agc_hash_set was called with, the
-- latest first.
pub record Context : Type 0 where
  pub next_sess_id : ℕ
  pub server_list : List GtpNode
  pub server_list_v2 : List GtpNodeV2
  pub session_list : List (Option SigSess)
  pub closed : List ℕ
  pub releasing : List ℕ
  pub ue_ip_table : List (List ℕ × ℕ)
