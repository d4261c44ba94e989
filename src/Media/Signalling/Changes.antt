-- ===== src/Media/Signalling/Changes.antt =====
-- Sessions and the table under the assignments of the handlers in media_sig_path.c.
use common_framework.Base.{
  ℕ, ◌<◌, ◌≡◌, refl, sym, ◌∙◌, subst, Bool, true, false, Option, none, some, List, arith, Status,
  success, status_false, ltb, leb, if◌then◌else◌, lt→ltb, length, length-append, length-set,
}
use common_framework.Base.CString.{CString, lit}
use common_framework.Media.Types.{Bytes, GtpPath, SigSess, Context}
use common_framework.Media.Sockets.{Nodes, upf_gtp_open, gnb_gtp_open}
use common_framework.Media.Sessions.{remove_media_sig_sess, with_nodes}
use common_framework.Media.Signalling.{
  World, Message, Handled, done, aborted, need, remote_if, stored, routing_text,
}
use common_framework.Media.Sessions.{removed_sess}
use common_framework.Media.Sessions.Laws.{Owns, OwnsFrom-set, TableOk, zero_add}
use common_framework.Media.Sessions.Removal.{removed_sess-TableOk}
use common_framework.Media.Signalling.Handlers.{put_back, remove_sess, with_upf, with_gnb}

-- The invariant holds after a handler that does not crash.
abbrev pub KeepsTable : ℕ → Handled → Type 0
KeepsTable max (done c sent destroyed) = TableOk max c
KeepsTable max aborted = Unit

-- A gateway's name of less than 245 bytes leaves room in routing[255].
pub routing_fits :
    (sess : SigSess)
    → length sess.sig_gateway_name < 245
    → ltb (length (routing_text sess)) 255 ≡ true
routing_fits sess short =
    let sum = length-append sess.sig_gateway_name (lit ".media2sig") in lt→ltb _ _ (omega arith)

-- The second session has the identifiers and local TEIDs of the first.
pub record SameTeids (sess sess' : SigSess) : Type 0 where
  pub id : sess'.sess_id ≡ sess.sess_id
  pub gnb : sess'.gnb.local_teid ≡ sess.gnb.local_teid
  pub upf : sess'.upf.local_teid ≡ sess.upf.local_teid
  pub gnbv6 : sess'.gnbv6.local_teid ≡ sess.gnbv6.local_teid
  pub upfv6 : sess'.upfv6.local_teid ≡ sess.upfv6.local_teid

-- A session is consistent with its own identifier.
abbrev pub Consistent : SigSess → Type 0
Consistent sess = Owns sess.sess_id sess

pub Consistent-SameTeids :
    (sess sess' : SigSess) → Consistent sess → SameTeids sess sess' → Consistent sess'
Consistent-SameTeids sess sess' own same =
    subst (λ k. Owns k sess') (sym same.id)
      (record {
        id_eq = same.id;
        gnb_eq = same.gnb ∙ own.gnb_eq;
        upf_eq = same.upf ∙ own.upf_eq;
        gnbv6_eq = same.gnbv6 ∙ own.gnbv6_eq;
        upfv6_eq = same.upfv6 ∙ own.upfv6_eq;
      })

pub Owns-Consistent : (id : ℕ) (sess : SigSess) → Owns id sess → Consistent sess
Owns-Consistent id sess own = subst (λ k. Owns k sess) (sym own.id_eq) own

pub stored-TableOk :
    (max : ℕ) (sess : SigSess) (c : Context)
    → TableOk max c
    → Consistent sess
    → TableOk max (stored sess c)
stored-TableOk max sess c ok own = record {
  size = length-set c.session_list sess.sess_id (some sess) ∙ ok.size;
  next = ok.next;
  owns =
      OwnsFrom-set 0 sess.sess_id c.session_list (some sess) ok.owns
        (subst (λ k. Owns k sess) (zero_add sess.sess_id) own);
}

pub nodes_TableOk :
    (max : ℕ) (ns : Nodes) (c : Context) → TableOk max c → TableOk max (with_nodes ns c)
nodes_TableOk max ns c ok = record { size = ok.size; next = ok.next; owns = ok.owns }

local_teid-remote_if :
    (teid : ℕ) (o : Option Bytes) (path : GtpPath)
    → (remote_if teid o path).local_teid ≡ path.local_teid
local_teid-remote_if teid none path = refl
local_teid-remote_if teid (some addr) path = refl

remove_either :
    (max : ℕ) (sess : SigSess) (c : Context) (b : Bool)
    → TableOk max c
    → TableOk max
        (if◌then◌else◌ {A = Context × Status} b (c, status_false) (removed_sess sess c, success)).0
remove_either max sess c true ok = ok
remove_either max sess c false ok = removed_sess-TableOk max sess c ok

pub remove_sess-TableOk :
    (max : ℕ) (w : World) (sess : SigSess) (c : Context)
    → TableOk max c
    → TableOk max (remove_sess max w sess c)
unfolding remove_media_sig_sess
remove_sess-TableOk max w sess c ok = remove_either max sess c (leb max sess.sess_id) ok

pub need_keeps :
    (max : ℕ) (c : Context) (o : Option CString) (next : CString → Handled)
    → TableOk max c
    → ((s : CString) → KeepsTable max (next s))
    → KeepsTable max (need c o next)
need_keeps max c none next ok h = ok
need_keeps max c (some s) next ok h = h s

module _ (max : ℕ) (w : World) where
  open w use {atol, to_addr4, to_addr6, sent, raw, now, stale, created_sock, created_sock_v6}

  -- The end of the three handlers that store a session and remove it if the response is not sent.
  pub either_way :
      (b : Bool) (kept dropped : Context) (ms ms' : List Message)
      → TableOk max kept
      → TableOk max dropped
      → KeepsTable max (if b then done kept ms false else done dropped ms' false)
  either_way true kept dropped ms ms' ok ok' = ok
  either_way false kept dropped ms ms' ok ok' = ok'

  pub with_upf-SameTeids :
      (teid : ℕ) (addr : Bytes) (addr_v6 : Option Bytes) (sess : SigSess)
      → SameTeids sess (with_upf max w teid addr addr_v6 sess)
  unfolding with_upf
  with_upf-SameTeids teid addr addr_v6 sess = record {
    id = refl;
    gnb = refl;
    upf = refl;
    gnbv6 = refl;
    upfv6 = local_teid-remote_if teid addr_v6 sess.upfv6;
  }

  pub with_gnb-SameTeids :
      (teid teid_v6 : ℕ) (addr : Bytes) (addr_v6 : Option Bytes) (sess : SigSess)
      → SameTeids sess (with_gnb max w teid teid_v6 addr addr_v6 sess)
  unfolding with_gnb
  with_gnb-SameTeids teid teid_v6 addr addr_v6 sess = record {
    id = refl;
    gnb = refl;
    upf = refl;
    gnbv6 = local_teid-remote_if teid_v6 addr_v6 sess.gnbv6;
    upfv6 = refl;
  }

  pub upf_gtp_open-Consistent :
      (sess : SigSess) (ns : Nodes)
      → Consistent sess
      → Consistent (upf_gtp_open stale created_sock created_sock_v6 sess ns).0
  unfolding upf_gtp_open
  upf_gtp_open-Consistent sess ns own =
      Consistent-SameTeids sess _ own
        (record { id = refl; gnb = refl; upf = refl; gnbv6 = refl; upfv6 = refl })

  pub gnb_gtp_open-Consistent :
      (sess : SigSess) (ns : Nodes)
      → Consistent sess
      → Consistent (gnb_gtp_open stale created_sock created_sock_v6 sess ns).0
  unfolding gnb_gtp_open
  gnb_gtp_open-Consistent sess ns own =
      Consistent-SameTeids sess _ own
        (record { id = refl; gnb = refl; upf = refl; gnbv6 = refl; upfv6 = refl })

  pub put_back-TableOk :
      (c : Context) (r : SigSess × Nodes × Status)
      → TableOk max c
      → Consistent r.0
      → TableOk max (put_back c r)
  put_back-TableOk c (sess, ns, status) ok own =
      stored-TableOk max sess (with_nodes ns c) (nodes_TableOk max ns c ok) own
