-- ===== src/Media/Sockets.antt =====
-- The sockets of sessions: the counted nodes of src/mod/gateways/mod_media/media_context.c and their
-- use by media_gtp_path.c. What agc_gtp_open_v2 stores as the socket is an argument, none if it fails.
pub mod Counts
pub mod Opening
mod Tests
use mathlib.Core.Option
use common_framework.Base.{
  ℕ, ◌+◌, ◌-◌, Bool, ◌&&◌, Option, none, some, List, [], ◌∷◌, ◌++◌, map, Status, success,
  status_false, leb, ◌==◌, if◌then◌else◌,
}
use common_framework.Media.Types.{Bytes, memcpy, same_bytes, GtpSock, GtpNodeV2, GtpPath, SigSess}

-- The list server_list_v2 and the sockets that agc_gtp_close was called on.
pub record Nodes : Type 0 where
  pub list : List GtpNodeV2
  pub closed : List ℕ

-- media_add_gtp_node_v2 after its test for a null socket
abbrev pub node_v2 : GtpSock → GtpNodeV2
node_v2 sock = record { ref = 1; sock = sock }

unfoldable pub add_gtp_node_v2 : Option GtpSock → Nodes → Nodes × Status
add_gtp_node_v2 none ns = (ns, status_false)
add_gtp_node_v2 (some sock) ns = (record ns { list = ns.list ++ (node_v2 sock ∷ []) }, success)

-- The body of the loop of media_del_gtp_node_ref_v2 on the node that it looks for, with
-- media_remove_gtp_node_v2. A node of the list has at least one reference, so nothing goes below 0.
abbrev pub drop_ref : GtpNodeV2 → List GtpNodeV2 → List GtpNodeV2 × List ℕ
drop_ref n rest =
    if leb (n.ref - 1) 0
    then (rest, n.sock.pointer ∷ [])
    else (record n { ref = n.ref - 1 } ∷ rest, [])

abbrev pub behind : GtpNodeV2 → List GtpNodeV2 × List ℕ → List GtpNodeV2 × List ℕ
behind n (rest, closed) = (n ∷ rest, closed)

-- The loop of media_del_gtp_node_ref_v2: the list after it and the sockets closed.
unfoldable pub del_ref_loop : ℕ → List GtpNodeV2 → List GtpNodeV2 × List ℕ
del_ref_loop pointer [] = ([], [])
del_ref_loop pointer (n ∷ rest) =
    let later = behind n (del_ref_loop pointer rest) in
    if n.sock.pointer == pointer then drop_ref n rest else later

abbrev pub with_loop : Nodes → List GtpNodeV2 × List ℕ → Nodes
with_loop ns (list, closed) = record { list = list; closed = closed ++ ns.closed }

-- media_del_gtp_node_ref_v2
unfoldable pub del_gtp_node_ref_v2 : Option GtpSock → Nodes → Nodes × Status
del_gtp_node_ref_v2 none ns = (ns, status_false)
del_gtp_node_ref_v2 (some sock) ns = (with_loop ns (del_ref_loop sock.pointer ns.list), success)

-- The tests of media_gtp_node_find on a node.
abbrev pub connects :
    (local : Bytes) (local_len : ℕ) (remote : Bytes) (remote_len : ℕ) → GtpNodeV2 → Bool
connects local local_len remote remote_len n =
    same_bytes local_len n.sock.local_addr local && same_bytes remote_len n.sock.remote_addr remote

-- media_gtp_node_find and, on the node found, media_add_gtp_node_ref_v2: the socket of the node and
-- the list with the reference.
unfoldable pub find_and_ref :
    (GtpNodeV2 → Bool) → List GtpNodeV2 → Option (GtpSock × List GtpNodeV2)
find_and_ref p [] = none
find_and_ref p (n ∷ rest) =
    let later = Option.map (λ found. (found.0, n ∷ found.1)) (find_and_ref p rest) in
    if p n then some (n.sock, record n { ref = n.ref + 1 } ∷ rest) else later

-- What is stored by agc_gtp_open_v2; `created` is the address of the new socket unless a call of the
-- system fails, and `stale` what its memory holds, zeros as agc_memory_alloc gives it.
unfoldable pub gtp_open_v2 : (stale : Bytes) (created : Option ℕ) → GtpPath → Option GtpSock
gtp_open_v2 stale none path = none
gtp_open_v2 stale (some pointer) path = some (record {
  pointer = pointer;
  local_addr = memcpy path.local_addrlen path.local_addr stale;
  remote_addr = memcpy path.remote_addrlen path.remote_addr stale;
})

-- How a path gets its socket: one of the list with one more reference, a new one, or none.
pub data Acquired : Type 0 where
  found opened : GtpSock → Nodes → Acquired
  failed : Acquired

abbrev pub acquire_opened : Nodes → Option GtpSock → Acquired
acquire_opened ns none = failed
acquire_opened ns (some sock) = opened sock ((add_gtp_node_v2 (some sock) ns).0)

abbrev pub acquire_found : Nodes → Option GtpSock → Option (GtpSock × List GtpNodeV2) → Acquired
acquire_found ns new (some (sock, list)) = found sock (record ns { list = list })
acquire_found ns new none = acquire_opened ns new

unfoldable pub acquire : (stale : Bytes) (created : Option ℕ) → GtpPath → Nodes → Acquired
acquire stale created path ns = acquire_found ns (gtp_open_v2 stale created path) (
    find_and_ref (connects path.local_addr path.local_addrlen path.remote_addr path.remote_addrlen)
      ns.list)

-- The sockets that a session's two paths in one direction get, the list after it and the status.
pub record Opened : Type 0 where
  pub sock : Option GtpSock
  pub sockv6 : Option GtpSock
  pub nodes : Nodes
  pub status : Status

abbrev pub opened_v6 : GtpSock → Nodes → Acquired → Opened
opened_v6 sock ns (found sockv6 ns') = record {
  sock = some sock;
  sockv6 = some sockv6;
  nodes = ns';
  status = success;
}
opened_v6 sock ns (opened sockv6 ns') = record {
  sock = some sock;
  sockv6 = some sockv6;
  nodes = ns';
  status = success;
}
opened_v6 sock ns failed = record { sock = some sock; sockv6 = none; nodes = ns; status = success }

-- A path that finds its IPv4 socket in the list returns before the IPv6 part.
abbrev pub opened_v4 : (Nodes → Acquired) → Nodes → Acquired → Opened
opened_v4 acquire_v6 ns (found sock ns') = record {
  sock = some sock;
  sockv6 = none;
  nodes = ns';
  status = success;
}
opened_v4 acquire_v6 ns (opened sock ns') = opened_v6 sock ns' (acquire_v6 ns')
opened_v4 acquire_v6 ns failed = record {
  sock = none;
  sockv6 = none;
  nodes = ns;
  status = status_false;
}

unfoldable pub gtp_open :
    (stale : Bytes) (created created_v6 : Option ℕ) (path pathv6 : GtpPath) → Nodes → Opened
gtp_open stale created created_v6 path pathv6 ns =
    opened_v4 (acquire stale created_v6 pathv6) ns (acquire stale created path ns)

-- media_upf_gtp_open and media_gnb_gtp_open: the session, the list and the status.
unfoldable pub upf_gtp_open :
    (stale : Bytes) (created created_v6 : Option ℕ) → SigSess → Nodes → SigSess × Nodes × Status
upf_gtp_open stale created created_v6 sess ns =
    let r = gtp_open stale created created_v6 sess.upf sess.upfv6 ns in
    (
      record sess {
        upf = record sess.upf { sock = r.sock };
        upfv6 = record sess.upfv6 { sock = r.sockv6 };
      },
      r.nodes,
      r.status,
    )

unfoldable pub gnb_gtp_open :
    (stale : Bytes) (created created_v6 : Option ℕ) → SigSess → Nodes → SigSess × Nodes × Status
gnb_gtp_open stale created created_v6 sess ns =
    let r = gtp_open stale created created_v6 sess.gnb sess.gnbv6 ns in
    (
      record sess {
        gnb = record sess.gnb { sock = r.sock };
        gnbv6 = record sess.gnbv6 { sock = r.sockv6 };
      },
      r.nodes,
      r.status,
    )

-- media_upf_gtp_close and media_gnb_gtp_close. The test for a null socket before the second call is
-- the one that media_del_gtp_node_ref_v2 makes.
unfoldable pub gtp_close : (sock sockv6 : Option GtpSock) → Nodes → Nodes
gtp_close sock sockv6 ns = (del_gtp_node_ref_v2 sockv6 ((del_gtp_node_ref_v2 sock ns).0)).0

unfoldable pub upf_gtp_close : SigSess → Nodes → Nodes
upf_gtp_close sess ns = gtp_close sess.upf.sock sess.upfv6.sock ns

unfoldable pub gnb_gtp_close : SigSess → Nodes → Nodes
gnb_gtp_close sess ns = gtp_close sess.gnb.sock sess.gnbv6.sock ns
