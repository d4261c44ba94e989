-- ===== src/Media/Sessions/Removal.antt =====
-- Removal of sessions by media_remove_media_sig_sess of media_context.c, with the references that
-- sessions hold on sockets.
use common_framework.Base.{
  ℕ, zero, suc, ◌+◌, ◌≡◌, ap, ◌∙◌, Option, none, some, List, [], ◌∷◌, arith, some_inj, get_elem?,
  set, length-set,
}
use common_framework.Media.Types.{SigSess, Context}
use common_framework.Media.Sessions.Laws.{OwnsFrom-set, TableOk}
use common_framework.Media.Types.{GtpNodeV2}
use common_framework.Media.Sockets.Counts.{refs, uses, Positive}
use common_framework.Media.Sessions.{removed_sess}

-- The references that a session, an entry of the table and the table hold on a socket.
abbrev pub sess_uses : ℕ → SigSess → ℕ
sess_uses p sess =
    (uses p sess.upf.sock + uses p sess.upfv6.sock)
    + (uses p sess.gnb.sock + uses p sess.gnbv6.sock)

abbrev pub entry_uses : ℕ → Option SigSess → ℕ
entry_uses p none = 0
entry_uses p (some sess) = sess_uses p sess

abbrev pub held : ℕ → List (Option SigSess) → ℕ
held p [] = 0
held p (e ∷ rest) = entry_uses p e + held p rest

pub held-set :
    (p id : ℕ) (table : List (Option SigSess)) (e e' : Option SigSess)
    → get_elem? table id ≡ some e
    → held p (set table id e') + entry_uses p e ≡ held p table + entry_uses p e'
held-set p id [] e e' there = cc
held-set p zero (x ∷ rest) e e' there = let same = ap (entry_uses p) (some_inj there) in omega arith
held-set p (suc id) (x ∷ rest) e e' there = omega (arith, held-set p id rest e e' there)

-- The nodes count as many references on a socket as the sessions of the table hold.
abbrev pub Counted : List GtpNodeV2 → List (Option SigSess) → Type 0
Counted nodes table = ((p : ℕ) → refs p nodes ≡ held p table) × Positive nodes

pub removed_sess-TableOk :
    (max : ℕ) (sess : SigSess) (c : Context) → TableOk max c → TableOk max (removed_sess sess c)
removed_sess-TableOk max sess c ok = record {
  size = length-set c.session_list sess.sess_id none ∙ ok.size;
  next = ok.next;
  owns = OwnsFrom-set 0 sess.sess_id c.session_list none ok.owns tt;
}
