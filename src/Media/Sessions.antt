-- ===== src/Media/Sessions.antt =====
-- The session table of src/mod/gateways/mod_media/media_context.c: allocation, lookup and removal of
-- sessions, and the lists of configured nodes. `max_sessions` is MAX_MEDIA_SESSIONS.
pub mod FreeId
pub mod Laws
pub mod Lookup
pub mod Removal
mod Tests
use common_framework.Base.{
  ℕ, zero, suc, ◌+◌, ◌-◌, ◌*◌, ◌/◌, ◌%◌, ◌^◌, Bool, true, false, not, ◌&&◌, Option, none, some,
  List, [], ◌∷◌, Status, success, status_false, leb, ◌==◌, if◌then◌else◌, get_elem?, set,
}
use common_framework.Media.Types.{
  memcpy, GtpIp, ipv4, ipv6, Interface, n3, n3_upf, GtpNode, GtpPath, SigSess, Context,
}
use common_framework.Media.Sockets.{Nodes, upf_gtp_close, gnb_gtp_close}

abbrev pub is_v4 : GtpIp → Bool
is_v4 ipv4 = true
is_v4 ipv6 = false

abbrev pub is_n3 : Interface → Bool
is_n3 n3 = true
is_n3 n3_upf = false

-- The first node of the list that a test accepts.
abbrev pub first_node : (GtpNode → Bool) → List GtpNode → Option GtpNode
first_node p [] = none
first_node p (n ∷ rest) = let later = first_node p rest in if p n then some n else later

unfoldable pub gtp_node_n3_v4_first : Context → Option GtpNode
gtp_node_n3_v4_first c = first_node (λ n. is_n3 n.interface_type && is_v4 n.ip_type) c.server_list

unfoldable pub gtp_node_n3_v6_first : Context → Option GtpNode
gtp_node_n3_v6_first c =
    first_node (λ n. is_n3 n.interface_type && not (is_v4 n.ip_type)) c.server_list

unfoldable pub gtp_node_n3_upf_v4_first : Context → Option GtpNode
gtp_node_n3_upf_v4_first c =
    first_node (λ n. not (is_n3 n.interface_type) && is_v4 n.ip_type) c.server_list

unfoldable pub gtp_node_n3_upf_v6_first : Context → Option GtpNode
gtp_node_n3_upf_v6_first c =
    first_node (λ n. not (is_n3 n.interface_type) && not (is_v4 n.ip_type)) c.server_list

abbrev pub or_else : Option GtpNode → Option GtpNode → Option GtpNode
or_else none other = other
or_else (some n) other = some n

-- local_addrlen and local_addr of a path from a node.
abbrev pub local_from : GtpNode → GtpPath → GtpPath
local_from n path = record path {
  local_addrlen = n.addrlen;
  remote_addrlen = 0;
  sock = none;
  local_addr = memcpy n.addrlen n.addr path.local_addr;
}

abbrev pub local_if : Option GtpNode → GtpPath → GtpPath
local_if none path = path
local_if (some n) path = local_from n path

-- What the search for an identifier ends with. `outside` is an access outside the table.
pub data Search : Type 0 where
  free full : ℕ → Search
  outside : Search

pub data Added : Type 0 where
  created : Context → SigSess → Added
  refused : Context → Added
  crashed : Added

abbrev pub nodes_of : Context → Nodes
nodes_of c = record { list = c.server_list_v2; closed = c.closed }

abbrev pub with_nodes : Nodes → Context → Context
with_nodes ns c = record c { server_list_v2 = ns.list; closed = ns.closed }

-- What media_remove_media_sig_sess does to a session with a valid identifier.
abbrev pub removed_sess : SigSess → Context → Context
removed_sess sess c = record (with_nodes (gnb_gtp_close sess (upf_gtp_close sess (nodes_of c))) c) {
  session_list = set c.session_list sess.sess_id none;
  releasing = sess.sess_id ∷ c.releasing;
}

module _ (max_sessions : ℕ) where
  -- MEDIA_SESS_NEXT_ID(id, 1, MAX_MEDIA_SESSIONS - 1)
  unfoldable pub next_id : ℕ → ℕ
  next_id id = if id == max_sessions - 1 then 1 else (id + 1) % 2 ^ 32

  -- What a round does with the entry of the table at the identifier.
  abbrev pub search_at : (id : ℕ) → Option (Option SigSess) → Search → Search
  search_at id none later = outside
  search_at id (some none) later = free id
  search_at id (some (some sess)) later = later

  -- The loop of media_add_media_sig_sess with so many rounds left before `count` is
  -- MAX_MEDIA_SESSIONS.
  unfoldable pub search_id : ℕ → List (Option SigSess) → ℕ → Search
  search_id zero table id = full id
  search_id (suc rounds) table id =
      search_at (next_id id) (get_elem? table (next_id id)) (search_id rounds table (next_id id))

  -- The fields that media_add_media_sig_sess sets; `raw` is what malloc's memory holds. gnb and upf
  -- get their addresses from the nodes.
  unfoldable pub new_sess :
      (raw : SigSess) (now id : ℕ) → (v4 upf_v4 : GtpNode) (v6 upf_v6 : Option GtpNode) → SigSess
  new_sess raw now id v4 upf_v4 v6 upf_v6 = record raw {
    sess_id = id;
    last_act_time = now;
    qos_flow_id = 0;
    ue_addr = λ i. 0;
    gnb = local_from v4 (record raw.gnb { local_teid = (id * 4) % 2 ^ 32; remote_teid = 0 });
    upf =
        local_from upf_v4 (record raw.upf { local_teid = (id * 4 + 1) % 2 ^ 32; remote_teid = 0 });
    gnbv6 = local_if v6 (record raw.gnbv6 {
      local_teid = (id * 4 + 2) % 2 ^ 32;
      remote_teid = 0;
      local_addrlen = 0;
      remote_addrlen = 0;
    });
    upfv6 = local_if upf_v6 (record raw.upfv6 {
      local_teid = (id * 4 + 3) % 2 ^ 32;
      remote_teid = 0;
      local_addrlen = 0;
      remote_addrlen = 0;
    });
  }

  abbrev pub store : Context → ℕ → SigSess → Added
  store c id sess =
      created (record c { next_sess_id = id; session_list = set c.session_list id (some sess) })
        sess

  -- The rest of media_add_media_sig_sess behind the loop: it reads the IPv4 node of N3 without a test.
  unfoldable pub add_found :
      (raw : SigSess) (now : ℕ) → Context → (v4 upf_v4 v6 upf_v6 : Option GtpNode) → Search → Added
  add_found raw now c v4 upf_v4 v6 upf_v6 outside = crashed
  add_found raw now c v4 upf_v4 v6 upf_v6 (full id) = refused (record c { next_sess_id = id })
  add_found raw now c none upf_v4 v6 upf_v6 (free id) = crashed
  add_found raw now c (some v4) none v6 upf_v6 (free id) = crashed
  add_found raw now c (some v4) (some upf_v4) v6 upf_v6 (free id) =
      store c id (new_sess raw now id v4 upf_v4 v6 upf_v6)

  -- The nodes towards the UPF default to those of N3.
  unfoldable pub add_search :
      (raw : SigSess) (now : ℕ) → Context → (v4 upf_v4 v6 upf_v6 : Option GtpNode) → Added
  add_search raw now c v4 upf_v4 v6 upf_v6 =
      add_found raw now c v4 (or_else upf_v4 v4) v6 (or_else upf_v6 v6)
        (search_id max_sessions c.session_list c.next_sess_id)

  abbrev pub add_with :
      (raw : SigSess) (now : ℕ) → Context → (v4 upf_v4 v6 upf_v6 : Option GtpNode) → Added
  add_with raw now c none upf_v4 none upf_v6 = refused c
  add_with raw now c none upf_v4 (some v6) upf_v6 =
      add_search raw now c none upf_v4 (some v6) upf_v6
  add_with raw now c (some v4) upf_v4 v6 upf_v6 = add_search raw now c (some v4) upf_v4 v6 upf_v6

  -- media_add_media_sig_sess
  unfoldable pub add_media_sig_sess : (raw : SigSess) (now : ℕ) → Context → Added
  add_media_sig_sess raw now c =
      add_with raw now c (gtp_node_n3_v4_first c) (gtp_node_n3_upf_v4_first c)
        (gtp_node_n3_v6_first c) (gtp_node_n3_upf_v6_first c)

  -- media_find_media_sig_sess_by_id and media_find_media_sig_sess_by_teid: the outer `none` is an
  -- access outside the table.
  unfoldable pub find_media_sig_sess_by_id : ℕ → Context → Option (Option SigSess)
  find_media_sig_sess_by_id id c =
      if leb max_sessions id then some none else get_elem? c.session_list id

  unfoldable pub find_media_sig_sess_by_teid : ℕ → Context → Option (Option SigSess)
  find_media_sig_sess_by_teid teid c =
      if leb max_sessions (teid / 4) then some none else get_elem? c.session_list (teid / 4)

  -- media_remove_media_sig_sess. agc_event_create_callback returns success only, so the branch for its
  -- error is never taken.
  unfoldable pub remove_media_sig_sess : SigSess → Context → Context × Status
  remove_media_sig_sess sess c =
      if leb max_sessions sess.sess_id then (c, status_false) else (removed_sess sess c, success)
