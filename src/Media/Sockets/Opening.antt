-- ===== src/Media/Sockets/Opening.antt =====
-- The reference counts over the opening and closing of a session's sockets.
use common_framework.Base.{
  ℕ, ◌+◌, ◌≤◌, ◌≡◌, refl, Option, none, some, List, [], ◌∷◌, arith, ==_refl, All-append,
}
use common_framework.Media.Types.{Bytes, GtpSock, GtpNodeV2, GtpPath, SigSess}
use common_framework.Media.Sockets.{
  Nodes, node_v2, add_gtp_node_v2, del_gtp_node_ref_v2, find_and_ref, connects, gtp_open_v2,
  Acquired, found, opened, failed, acquire_found, acquire, Opened, opened_v6, opened_v4, gtp_open,
  gtp_close, upf_gtp_open, gnb_gtp_open, upf_gtp_close, gnb_gtp_close,
}
use common_framework.Media.Sockets.Counts.{
  refs, uses, Positive, Gains, refs-append, find_and_ref-Gains, del_ref_loop-Drops,
}

-- The nodes count what they counted before and the uses of the two sockets.
abbrev pub GainsBoth : Nodes → (sock sockv6 : Option GtpSock) → Nodes → Type 0
GainsBoth ns sock sockv6 ns' =
    ((p : ℕ) → refs p ns'.list ≡ refs p ns.list + (uses p sock + uses p sockv6)) × Positive ns'.list

add_gtp_node_v2-Gains :
    (sock : GtpSock) (ns : Nodes)
    → Positive ns.list
    → Gains ns.list (sock, (add_gtp_node_v2 (some sock) ns).0.list)
unfolding add_gtp_node_v2
add_gtp_node_v2-Gains sock ns positive = (
  λ p. omega (arith, refs-append p ns.list (node_v2 sock ∷ [])),
  All-append _ ns.list (node_v2 sock ∷ []) positive (omega arith, tt),
)

abbrev AcquiredGains : Nodes → Acquired → Type 0
AcquiredGains ns (found sock ns') = Gains ns.list (sock, ns'.list)
AcquiredGains ns (opened sock ns') = Gains ns.list (sock, ns'.list)
AcquiredGains ns failed = Unit

acquired_gains :
    (ns : Nodes) (new : Option GtpSock) (o : Option (GtpSock × List GtpNodeV2))
    → Positive ns.list
    → ((r : GtpSock × List GtpNodeV2) → o ≡ some r → Gains ns.list r)
    → AcquiredGains ns (acquire_found ns new o)
acquired_gains ns new (some r) positive h = h r refl
acquired_gains ns none none positive h = tt
acquired_gains ns (some sock) none positive h = add_gtp_node_v2-Gains sock ns positive

acquire-AcquiredGains :
    (stale : Bytes) (created : Option ℕ) (path : GtpPath) (ns : Nodes)
    → Positive ns.list
    → AcquiredGains ns (acquire stale created path ns)
unfolding acquire
acquire-AcquiredGains stale created path ns positive =
    acquired_gains ns (gtp_open_v2 stale created path)
      (find_and_ref
        (connects path.local_addr path.local_addrlen path.remote_addr path.remote_addrlen) ns.list)
      positive (λ r e. find_and_ref-Gains _ ns.list r positive e)

opened_v6-Gains :
    (sock : GtpSock) (before ns : Nodes) (a : Acquired)
    → Gains before.list (sock, ns.list)
    → AcquiredGains ns a
    → (let o = opened_v6 sock ns a in GainsBoth before o.sock o.sockv6 o.nodes)
opened_v6-Gains sock before ns (found s ns') (count, positive) (more, positive') =
    (λ p. omega (arith, count p, more p), positive')
opened_v6-Gains sock before ns (opened s ns') (count, positive) (more, positive') =
    (λ p. omega (arith, count p, more p), positive')
opened_v6-Gains sock before ns failed (count, positive) u = (λ p. omega (arith, count p), positive)

opened_v4-Gains :
    (acquire_v6 : Nodes → Acquired) (ns : Nodes) (a : Acquired)
    → Positive ns.list
    → AcquiredGains ns a
    → ((ns' : Nodes) → Positive ns'.list → AcquiredGains ns' (acquire_v6 ns'))
    → (let o = opened_v4 acquire_v6 ns a in GainsBoth ns o.sock o.sockv6 o.nodes)
opened_v4-Gains acquire_v6 ns (found s ns') positive (count, positive') next =
    (λ p. omega (arith, count p), positive')
opened_v4-Gains acquire_v6 ns (opened s ns') positive gains next =
    opened_v6-Gains s ns ns' (acquire_v6 ns') gains (next ns' gains.1)
opened_v4-Gains acquire_v6 ns failed positive u next = (λ p. omega arith, positive)

pub gtp_open-GainsBoth :
    (stale : Bytes) (created created_v6 : Option ℕ) (path pathv6 : GtpPath) (ns : Nodes)
    → Positive ns.list
    → (let o = gtp_open stale created created_v6 path pathv6 ns in
        GainsBoth ns o.sock o.sockv6 o.nodes)
unfolding gtp_open
gtp_open-GainsBoth stale created created_v6 path pathv6 ns positive =
    opened_v4-Gains (acquire stale created_v6 pathv6) ns (acquire stale created path ns) positive
      (acquire-AcquiredGains stale created path ns positive)
      (λ ns' positive'. acquire-AcquiredGains stale created_v6 pathv6 ns' positive')

abbrev pub Loses : Nodes → Option GtpSock → Nodes → Type 0
Loses ns sock ns' = ((p : ℕ) → refs p ns'.list + uses p sock ≡ refs p ns.list) × Positive ns'.list

del_gtp_node_ref_v2-Loses :
    (sock : Option GtpSock) (ns : Nodes)
    → Positive ns.list
    → ((p : ℕ) → uses p sock ≤ refs p ns.list)
    → Loses ns sock (del_gtp_node_ref_v2 sock ns).0
unfolding del_gtp_node_ref_v2
del_gtp_node_ref_v2-Loses none ns positive counted = (λ p. omega arith, positive)
del_gtp_node_ref_v2-Loses (some sock) ns positive counted =
    let at_self = rw (==_refl sock.pointer) at (counted sock.pointer) in
    del_ref_loop-Drops sock.pointer ns.list positive at_self

-- The nodes count what they counted before less the uses of the two sockets.
abbrev pub LosesBoth : Nodes → (sock sockv6 : Option GtpSock) → Nodes → Type 0
LosesBoth ns sock sockv6 ns' =
    ((p : ℕ) → refs p ns'.list + (uses p sock + uses p sockv6) ≡ refs p ns.list) × Positive ns'.list

pub gtp_close-LosesBoth :
    (sock sockv6 : Option GtpSock) (ns : Nodes)
    → Positive ns.list
    → ((p : ℕ) → uses p sock + uses p sockv6 ≤ refs p ns.list)
    → LosesBoth ns sock sockv6 (gtp_close sock sockv6 ns)
unfolding gtp_close
gtp_close-LosesBoth sock sockv6 ns positive counted =
    let (count, positive1) =
      del_gtp_node_ref_v2-Loses sock ns positive (λ p. omega (arith, counted p)) in
    let (count', positive2) =
      del_gtp_node_ref_v2-Loses sockv6 ((del_gtp_node_ref_v2 sock ns).0) positive1
        (λ p. omega (arith, counted p, count p)) in
    (λ p. omega (arith, count p, count' p), positive2)

opened_closed :
    (sock sockv6 : Option GtpSock) (p : ℕ) (ns ns' : Nodes)
    → GainsBoth ns sock sockv6 ns'
    → refs p (gtp_close sock sockv6 ns').list ≡ refs p ns.list
opened_closed sock sockv6 p ns ns' (gained, positive) =
    let (lost, rest) =
      gtp_close-LosesBoth sock sockv6 ns' positive (λ q. omega (arith, gained q)) in
    omega (arith, lost p, gained p)

-- Where each node has a reference, closing a session's sockets towards the UPF or the gNB right after
-- opening them leaves the list with as many references on any socket as before, whether the
-- sockets were found in the list, opened, or could not be opened.
pub gtp_close-gtp_open :
    (stale : Bytes) (created created_v6 : Option ℕ) (sess : SigSess) (ns : Nodes) (p : ℕ)
    → Positive ns.list
    → (let r = upf_gtp_open stale created created_v6 sess ns in
        refs p (upf_gtp_close r.0 r.1).list ≡ refs p ns.list)
      × (let r = gnb_gtp_open stale created created_v6 sess ns in
          refs p (gnb_gtp_close r.0 r.1).list ≡ refs p ns.list)
unfolding upf_gtp_open gnb_gtp_open upf_gtp_close gnb_gtp_close
gtp_close-gtp_open stale created created_v6 sess ns p positive =
    let upf : Opened = gtp_open stale created created_v6 sess.upf sess.upfv6 ns in
    let gnb : Opened = gtp_open stale created created_v6 sess.gnb sess.gnbv6 ns in
    (
      opened_closed upf.sock upf.sockv6 p ns upf.nodes
          (gtp_open-GainsBoth stale created created_v6 sess.upf sess.upfv6 ns positive),
      opened_closed gnb.sock gnb.sockv6 p ns gnb.nodes
          (gtp_open-GainsBoth stale created created_v6 sess.gnb sess.gnbv6 ns positive),
    )

-- A path whose two addresses have the length 0, as the IPv6 path of a session without IPv6 has, takes
-- the first socket of the list, whatever that is connected to, and counts a reference on it.
pub acquire_no_address :
    (stale : Bytes) (created : Option ℕ) (path : GtpPath) (n : GtpNodeV2) (rest : List GtpNodeV2)
    (ns : Nodes)
    → path.local_addrlen ≡ 0
    → path.remote_addrlen ≡ 0
    → ns.list ≡ n ∷ rest
    → acquire stale created path ns
      ≡ found n.sock (record ns { list = record n { ref = n.ref + 1 } ∷ rest })
unfolding acquire find_and_ref
acquire_no_address stale created path n rest ns no_local no_remote first =
    rw (no_local, no_remote, first) refl
