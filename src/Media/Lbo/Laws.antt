-- ===== src/Media/Lbo/Laws.antt =====
-- The table for local breakout and the filter that asks it.
use common_framework.Base.{
  ℕ, ◌≡◌, refl, sym, ap, ◌∙◌, subst, ◌≢◌, inl, inr, Bool, true, false, ◌||◌, List, [], ◌∷◌,
  Bool-cases,
}
use mathlib.Core.Path.{fun_ext}
use common_framework.Media.Types.{Bytes, SigSess}
use common_framework.Media.Routing.{packet_filter}
use common_framework.Media.Routing.Filter.{HeaderLen, Answer, packet_filter-Answer}
use common_framework.Media.Lbo.Hash.{Key, same_key, HashOps, same_key-eq, same_key_refl}
use common_framework.Media.Lbo.{
  Sockaddr, af_inet, af_inet6, key_of, LboNodes, no_nodes, add_lbo_node, find_lbo_node_by_key,
  add_all, is_there, is_lbo,
}

-- The bytes of an address: all four of sin_addr, and all sixteen of sin6_addr.
abbrev pub bytes_of : Sockaddr → List ℕ
bytes_of (af_inet a) = a 0 ∷ a 1 ∷ a 2 ∷ a 3 ∷ []
bytes_of (af_inet6 a) =
    a 0
    ∷ a 1
    ∷ a 2
    ∷ a 3
    ∷ a 4
    ∷ a 5
    ∷ a 6
    ∷ a 7
    ∷ a 8
    ∷ a 9
    ∷ a 10
    ∷ a 11
    ∷ a 12
    ∷ a 13
    ∷ a 14
    ∷ a 15
    ∷ []

-- Whether these are the bytes of one of the addresses.
abbrev pub is_listed : List Sockaddr → List ℕ → Bool
is_listed [] key = false
is_listed (a ∷ l) key = is_listed l key || same_key key (bytes_of a)

key_of-bytes_of : (a : Sockaddr) → key_of a ≡ bytes_of a
key_of-bytes_of (af_inet a) = refl
key_of-bytes_of (af_inet6 a) = refl

module _ (ops : HashOps) where
  open ops use {empty, get, put, get-empty, get-put_same, get-put_other}

  is_lbo-added :
      (a : Sockaddr) (n : LboNodes ops) (key : Key)
      → is_lbo ops (add_lbo_node ops true true a n).1 key
        ≡ same_key key (bytes_of a) || is_lbo ops n key
  unfolding add_lbo_node find_lbo_node_by_key
  is_lbo-added a n key = rw (← key_of-bytes_of a) (elim (Bool-cases (same_key key (key_of a))) [
    | inl e ↦
        let same = same_key-eq key (key_of a) e in
        rw (e, same, get-put_same (key_of a) (key_of a) n.lbo_ip_table) refl
    | inr e ↦
        let ne : key ≢ key_of a = λ s.
          let bad = sym (ap (λ k. same_key k (key_of a)) s ∙ same_key_refl (key_of a)) ∙ e in
          absurd (cc) in
        rw (e, get-put_other key (key_of a) (key_of a) n.lbo_ip_table ne) refl
  ])

  or_move : (a b c : Bool) → (a || (b || c)) ≡ ((a || b) || c)
  or_move true b c = refl
  or_move false b c = refl

  is_lbo-add_all :
      (l : List Sockaddr) (n : LboNodes ops) (key : Key)
      → is_lbo ops (add_all ops l n) key ≡ is_listed l key || is_lbo ops n key
  unfolding add_all
  is_lbo-add_all [] n key = refl
  is_lbo-add_all (a ∷ l) n key =
      is_lbo-add_all l (add_lbo_node ops true true a n).1 key
      ∙ ap (λ b. is_listed l key || b) (is_lbo-added a n key)
      ∙ or_move (is_listed l key) (same_key key (bytes_of a)) (is_lbo ops n key)

  or_false : (b : Bool) → (b || false) ≡ b
  or_false true = refl
  or_false false = refl

  is_lbo-no_nodes : (key : Key) → is_lbo ops (no_nodes ops) key ≡ false
  unfolding find_lbo_node_by_key
  is_lbo-no_nodes key = ap (is_there ops) (get-empty key)

  is_lbo-listed :
      (addrs : List Sockaddr) → is_lbo ops (add_all ops addrs (no_nodes ops)) ≡ is_listed addrs
  is_lbo-listed addrs = fun_ext (λ key.
      is_lbo-add_all addrs (no_nodes ops) key
      ∙ ap (λ b. is_listed addrs key || b) (is_lbo-no_nodes key)
      ∙ or_false (is_listed addrs key))

  -- With the table that media_add_lbo_node makes of the addresses, where malloc succeeds,
  -- media_gtp_packet_filter takes a packet only if it is an IP packet that fits in buf_send, all the
  -- bytes of its destination, 4 or 16, are those of one of the addresses, and the write succeeds. A
  -- packet that fits and is not taken has no such destination, or the write fails, or nothing is
  -- behind its header; an IP packet that does not fit makes the filter copy a negative length or
  -- beyond buf_send.
  pub packet_filter-add_all :
      (addrs : List Sockaddr) (written : Bool) (stale buf : Bytes) (len header : ℕ) (sess : SigSess)
      → HeaderLen buf header
      → Answer
          (is_listed addrs)
          written
          stale
          buf
          len
          header
          sess
          (packet_filter (is_lbo ops (add_all ops addrs (no_nodes ops))) written stale buf len sess)
  packet_filter-add_all addrs written stale buf len header sess is =
      subst
        (λ lbo.
          Answer (is_listed addrs) written stale buf len header sess
            (packet_filter lbo written stale buf len sess))
        (sym (is_lbo-listed addrs))
        (packet_filter-Answer (is_listed addrs) written stale buf len header sess is)
