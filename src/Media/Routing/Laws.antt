-- ===== src/Media/Routing/Laws.antt =====
-- How media_gtp_path_recv_cb of media_gtp_path.c switches packets between the paths of a session.
use common_framework.Base.{
  ℕ, ◌/◌, ◌%◌, ◌^◌, ◌<◌, ◌≡◌, refl, sym, ap, ◌∙◌, subst, ◌⊎◌, inl, inr, Bool, true, false, ◌||◌,
  some, List, arith, success, status_false, memerr, generr, ◌==◌, if◌then◌else◌, ne→==, ==_refl,
}
use common_framework.Media.Types.{Bytes, GtpPath, SigSess, Context}
use common_framework.Media.Sessions.{find_media_sig_sess_by_id}
use common_framework.Media.Sessions.Laws.{Owns, TableOk, TableOk-Owns}
use common_framework.Media.Sessions.Lookup.{IsTeidOf, find_by_teid-IsTeidOf, by_id_found}
use common_framework.Media.Routing.{
  read_teid, with_teid, packet_filter, Received, forward, forward_filtered, route, recv_cb, ignored,
  echo, crashed, taken, passed, Filtered, fault, answered,
}
use common_framework.Media.Routing.Filter.{
  SamePaths, HeaderLen, InRange, OutOfRange, IsIp, NotIp, NotLocal, destination, Answer,
  packet_filter-Answer,
}

-- The four paths of a session.
pub data Side : Type 0 where
  gnb_side upf_side gnbv6_side upfv6_side : Side

abbrev pub path_of : Side → SigSess → GtpPath
path_of gnb_side sess = sess.gnb
path_of upf_side sess = sess.upf
path_of gnbv6_side sess = sess.gnbv6
path_of upfv6_side sess = sess.upfv6

-- The path on the other side of the session.
abbrev pub other_path : Side → SigSess → GtpPath
other_path gnb_side sess = sess.upf
other_path upf_side sess = sess.gnb
other_path gnbv6_side sess = sess.upfv6
other_path upfv6_side sess = sess.gnbv6

abbrev pub from_gnb : Side → Bool
from_gnb gnb_side = true
from_gnb upf_side = false
from_gnb gnbv6_side = true
from_gnb upfv6_side = false

user_packet :
    (type : ℕ)
    → (type ≡ 255) ⊎ (type ≡ 254)
    → ((type == 1) ≡ false) × ((type == 255) || (type == 254) ≡ true)
user_packet type (inl e) = rw e (refl, refl)
user_packet type (inr e) = rw e (refl, refl)

-- A 32-bit TEID that is written into the header of a packet is read from it again, and any byte
-- outside the header's TEID, which has the offsets 4 to 7, stays as it was.
pub read_teid-with_teid :
    (teid i : ℕ) (buf : Bytes)
    → teid < 4294967296
    → (i < 4) ⊎ (7 < i)
    → (read_teid (with_teid teid buf) ≡ teid) × (with_teid teid buf i ≡ buf i)
unfolding read_teid with_teid
read_teid-with_teid teid i buf below outside_teid = (omega arith, bytes)
  where
    bytes :
        (if i == 4
          then (teid / 2 ^ 24) % 256
          else if i == 5
          then (teid / 2 ^ 16) % 256
          else if i == 6
          then (teid / 2 ^ 8) % 256
          else if i == 7
          then teid % 256
          else buf i)
        ≡ buf i
    bytes =
        rw
          (
            ne→== i 4 (ground arith),
            ne→== i 5 (ground arith),
            ne→== i 6 (ground arith),
            ne→== i 7 (ground arith),
          )
          refl

module _ (lbo : List ℕ → Bool) (written : Bool) (stale buf : Bytes) (len : ℕ) where
  -- What is done with a packet that comes in for a path: from a gNB the filter has it first, and what it
  -- does not take goes out on the path to the UPF, and from a UPF it goes to the gNB.
  abbrev pub switched : Side → SigSess → Context → Received
  switched gnb_side sess c =
      forward_filtered (packet_filter lbo written stale buf len sess) SigSess.upf buf len c
  switched upf_side sess c = forward sess.gnb buf len c
  switched gnbv6_side sess c =
      forward_filtered (packet_filter lbo written stale buf len sess) SigSess.upfv6 buf len c
  switched upfv6_side sess c = forward sess.gnbv6 buf len c

  route-switched :
      (id teid : ℕ) (side : Side) (sess : SigSess) (c : Context)
      → Owns id sess
      → teid ≡ (path_of side sess).local_teid
      → route lbo written stale buf len teid sess c ≡ switched side sess c
  unfolding route
  route-switched id teid gnb_side sess c own e =
      let same : (teid == sess.gnb.local_teid) ≡ true =
        ap (λ t. t == sess.gnb.local_teid) e ∙ ==_refl sess.gnb.local_teid in
      rw same refl
  route-switched id teid upf_side sess c own e =
      let ngnb : (teid == sess.gnb.local_teid) ≡ false =
        ne→== teid sess.gnb.local_teid (omega (arith, e, own.gnb_eq, own.upf_eq)) in
      let same : (teid == sess.upf.local_teid) ≡ true =
        ap (λ t. t == sess.upf.local_teid) e ∙ ==_refl sess.upf.local_teid in
      rw (ngnb, same) refl
  route-switched id teid gnbv6_side sess c own e =
      let ngnb : (teid == sess.gnb.local_teid) ≡ false =
        ne→== teid sess.gnb.local_teid (omega (arith, e, own.gnb_eq, own.gnbv6_eq)) in
      let nupf : (teid == sess.upf.local_teid) ≡ false =
        ne→== teid sess.upf.local_teid (omega (arith, e, own.upf_eq, own.gnbv6_eq)) in
      let same : (teid == sess.gnbv6.local_teid) ≡ true =
        ap (λ t. t == sess.gnbv6.local_teid) e ∙ ==_refl sess.gnbv6.local_teid in
      rw (ngnb, nupf, same) refl
  route-switched id teid upfv6_side sess c own e =
      let ngnb : (teid == sess.gnb.local_teid) ≡ false =
        ne→== teid sess.gnb.local_teid (omega (arith, e, own.gnb_eq, own.upfv6_eq)) in
      let nupf : (teid == sess.upf.local_teid) ≡ false =
        ne→== teid sess.upf.local_teid (omega (arith, e, own.upf_eq, own.upfv6_eq)) in
      let ngnbv6 : (teid == sess.gnbv6.local_teid) ≡ false =
        ne→== teid sess.gnbv6.local_teid (omega (arith, e, own.gnbv6_eq, own.upfv6_eq)) in
      let same : (teid == sess.upfv6.local_teid) ≡ true =
        ap (λ t. t == sess.upfv6.local_teid) e ∙ ==_refl sess.upfv6.local_teid in
      rw (ngnb, nupf, ngnbv6, same) refl

  is_teid : (side : Side) (sess : SigSess) → IsTeidOf (path_of side sess).local_teid sess
  is_teid gnb_side sess = inl refl
  is_teid upf_side sess = inr (inl refl)
  is_teid gnbv6_side sess = inr (inr (inl refl))
  is_teid upfv6_side sess = inr (inr (inr refl))

  recv_cb-route :
      (max : ℕ) (side : Side) (sess : SigSess) (c : Context)
      → TableOk max c
      → find_media_sig_sess_by_id max sess.sess_id c ≡ some (some sess)
      → (buf 1 ≡ 255) ⊎ (buf 1 ≡ 254)
      → read_teid buf ≡ (path_of side sess).local_teid
      → recv_cb max lbo written stale (some (buf, len)) c ≡ switched side sess c
  unfolding recv_cb
  recv_cb-route max side sess c ok known kind e =
      let there = by_id_found max sess.sess_id c sess known in
      let own = TableOk-Owns max sess.sess_id c sess ok there in
      let teid_of : IsTeidOf (read_teid buf) sess =
        subst (λ t. IsTeidOf t sess) (sym e) (is_teid side sess) in
      let hit = (find_by_teid-IsTeidOf max (read_teid buf) c sess ok).1 (teid_of, known) in
      let (not_echo, user) = user_packet (buf 1) kind in
      rw (not_echo, user, hit) (route-switched sess.sess_id (read_teid buf) side sess c own e)

module _ (lbo : List ℕ → Bool) (written : Bool) (stale buf : Bytes) (len header : ℕ) where
  -- What is done with a packet that comes in for a path of the session; `i` is an offset outside the
  -- TEID of its header.
  abbrev pub Switched : Side → (i : ℕ) → SigSess → Context → Received → Type 0
  Switched side i sess c ignored = ⊥
  Switched side i sess c (echo bytes) = ⊥
  Switched side i sess c crashed =
      (from_gnb side ≡ true)
      × IsIp lbo written stale buf len header
      × OutOfRange lbo written stale buf len header
  Switched side i sess c (taken c') =
      (from_gnb side ≡ true)
      × IsIp lbo written stale buf len header
      × InRange lbo written stale buf len header
      × (lbo (destination lbo written stale buf len header) ≡ true)
      × (written ≡ true)
  Switched side i sess c (passed path msg n c') =
      (path ≡ other_path side sess)
      × (n ≡ len)
      × (read_teid msg ≡ (other_path side sess).remote_teid)
      × (msg i ≡ buf i)
      × (((from_gnb side ≡ false) × (c' ≡ c))
          ⊎ ((from_gnb side ≡ true)
              × (NotIp lbo written stale buf len header
                  ⊎ (InRange lbo written stale buf len header
                      × NotLocal lbo written stale buf len header
                          (destination lbo written stale buf len header)))))

  forward-Switched :
      (side : Side) (i : ℕ) (sess : SigSess) (path : GtpPath) (c c' : Context)
      → path ≡ other_path side sess
      → (other_path side sess).remote_teid < 4294967296
      → (i < 4) ⊎ (7 < i)
      → (((from_gnb side ≡ false) × (c' ≡ c))
          ⊎ ((from_gnb side ≡ true)
              × (NotIp lbo written stale buf len header
                  ⊎ (InRange lbo written stale buf len header
                      × NotLocal lbo written stale buf len header
                          (destination lbo written stale buf len header)))))
      → Switched side i sess c (forward path buf len c')
  forward-Switched side i sess path c c' same small outside_teid why =
      let teid_same = ap (λ p. GtpPath.remote_teid p) same in
      let below : path.remote_teid < 4294967296 = omega (arith, teid_same, small) in
      let (teid, byte) = read_teid-with_teid path.remote_teid i buf below outside_teid in
      (same, refl, teid ∙ teid_same, byte, why)

  filtered-Switched :
      (side : Side) (i : ℕ) (sess : SigSess) (path : SigSess → GtpPath) (c : Context) (r : Filtered)
      → from_gnb side ≡ true
      → ((sess' : SigSess) → SamePaths sess sess' → path sess' ≡ other_path side sess)
      → (other_path side sess).remote_teid < 4294967296
      → (i < 4) ⊎ (7 < i)
      → Answer lbo written stale buf len header sess r
      → Switched side i sess c (forward_filtered r path buf len c)
  filtered-Switched side i sess path c fault gnb same small outside_teid (ip, out) = (gnb, ip, out)
  filtered-Switched side i sess path c (answered success sess' key) gnb same small outside_teid
        (ip, range, there, was, paths) =
      (gnb, ip, range, there, was)
  filtered-Switched side i sess path c (answered status_false sess' key) gnb same small outside_teid
        (why, paths) =
      forward-Switched side i sess (path sess') c _ (same sess' paths) small outside_teid
        (inr (gnb, why))
  filtered-Switched side i sess path c (answered memerr sess' key) gnb same small outside_teid h =
      elim h [ ]
  filtered-Switched side i sess path c (answered generr sess' key) gnb same small outside_teid h =
      elim h [ ]

  switched-Switched :
      (side : Side) (i : ℕ) (sess : SigSess) (c : Context)
      → HeaderLen buf header
      → (other_path side sess).remote_teid < 4294967296
      → (i < 4) ⊎ (7 < i)
      → Switched side i sess c (switched lbo written stale buf len side sess c)
  switched-Switched gnb_side i sess c is small outside_teid =
      filtered-Switched gnb_side i sess SigSess.upf c (packet_filter lbo written stale buf len sess)
        refl (λ sess' same. same.upf) small outside_teid
        (packet_filter-Answer lbo written stale buf len header sess is)
  switched-Switched upf_side i sess c is small outside_teid =
      forward-Switched upf_side i sess sess.gnb c c refl small outside_teid (inl (refl, refl))
  switched-Switched gnbv6_side i sess c is small outside_teid =
      filtered-Switched gnbv6_side i sess SigSess.upfv6 c
        (packet_filter lbo written stale buf len sess) refl (λ sess' same. same.upfv6) small
        outside_teid (packet_filter-Answer lbo written stale buf len header sess is)
  switched-Switched upfv6_side i sess c is small outside_teid =
      forward-Switched upfv6_side i sess sess.gnbv6 c c refl small outside_teid (inl (refl, refl))

  -- A G-PDU or an end marker whose TEID is the local one of a path of a session that
  -- media_find_media_sig_sess_by_id finds, for each of the four paths, on a table that keeps its
  -- invariant: from a UPF it goes out on the path to the gNB of this session, and nothing else
  -- changes. From a gNB it is taken for the TUN device, only where it is an IP packet that fits, its
  -- destination is a key of lbo_ip_table and the write succeeds; or it makes the filter copy a
  -- negative length or beyond buf_send, only where it is an IP packet that does not fit; or it goes
  -- out on the path to the UPF, only where it is no IP packet, or it fits and there is no such key,
  -- the write fails or nothing is behind the header. A packet fits if from 0 to 1500 bytes are
  -- behind its GTP-U header. What goes out has the length that came in, the remote TEID of its path,
  -- which is below 2 ^ 32, and in all other places the bytes that came in.
  pub recv_cb-Switched :
      (max i : ℕ) (side : Side) (sess : SigSess) (c : Context)
      → TableOk max c
      → find_media_sig_sess_by_id max sess.sess_id c ≡ some (some sess)
      → (buf 1 ≡ 255) ⊎ (buf 1 ≡ 254)
      → read_teid buf ≡ (path_of side sess).local_teid
      → HeaderLen buf header
      → (other_path side sess).remote_teid < 4294967296
      → (i < 4) ⊎ (7 < i)
      → Switched side i sess c (recv_cb max lbo written stale (some (buf, len)) c)
  recv_cb-Switched max i side sess c ok known kind e is small outside_teid =
      subst (Switched side i sess c)
        (sym (recv_cb-route lbo written stale buf len max side sess c ok known kind e))
        (switched-Switched side i sess c is small outside_teid)
