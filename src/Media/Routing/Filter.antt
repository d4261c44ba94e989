-- ===== src/Media/Routing/Filter.antt =====
-- Which packets media_gtp_packet_filter of media_gtp_path.c takes, and what it does to the session.
use common_framework.Base.{
  ℕ, ◌+◌, ◌-◌, ◌*◌, ◌/◌, ◌%◌, ◌≤◌, ◌<◌, ◌≡◌, refl, ap, ◌≢◌, ◌⊎◌, inl, inr, Bool, true, false,
  Option, none, List, arith, success, status_false, memerr, generr, ltb, ◌==◌, if◌then◌else◌,
  ltb→lt, ltb→le, ==→eq, ==→ne, Bool-cases,
}
use common_framework.Media.Types.{Bytes, memcpy, SigSess}
use common_framework.Media.Routing.{
  bytes_at, Filtered, fault, answered, gtp_header_len, status_of, learn_by, learn, filter_to,
  packet_filter,
}

-- The paths, the identifiers and the gateway of the second session are those of the first.
pub record SamePaths (sess sess' : SigSess) : Type 0 where
  pub id : sess'.sess_id ≡ sess.sess_id
  pub sig_id : sess'.sig_sess_id ≡ sess.sig_sess_id
  pub gateway : sess'.sig_gateway_name ≡ sess.sig_gateway_name
  pub upf : sess'.upf ≡ sess.upf
  pub gnb : sess'.gnb ≡ sess.gnb
  pub upfv6 : sess'.upfv6 ≡ sess.upfv6
  pub gnbv6 : sess'.gnbv6 ≡ sess.gnbv6

same_self : (sess : SigSess) → SamePaths sess sess
same_self sess = record {
  id = refl;
  sig_id = refl;
  gateway = refl;
  upf = refl;
  gnb = refl;
  upfv6 = refl;
  gnbv6 = refl;
}

with_flow : (sess : SigSess) (flow : ℕ) → SamePaths sess (record sess { qos_flow_id = flow })
with_flow sess flow = record {
  id = refl;
  sig_id = refl;
  gateway = refl;
  upf = refl;
  gnb = refl;
  upfv6 = refl;
  gnbv6 = refl;
}

moved :
    {first sess : SigSess} {addr : Bytes}
    → SamePaths first sess
    → SamePaths first (record sess { ue_addr = addr })
moved same = record {
  id = same.id;
  sig_id = same.sig_id;
  gateway = same.gateway;
  upf = same.upf;
  gnb = same.gnb;
  upfv6 = same.upfv6;
  gnbv6 = same.gnbv6;
}

-- The length of the GTP-U header: 12 bytes, and with the flag E (bit 2 of the flags) four bytes for each
-- that the byte behind them counts.
pub data HeaderLen (buf : Bytes) : ℕ → Type 0 where
  plain : (buf 0 / 4) % 2 ≡ 0 → HeaderLen buf 12
  extended : (buf 0 / 4) % 2 ≡ 1 → HeaderLen buf (12 + buf 12 * 4)

gtp_header_len-HeaderLen :
    (buf : Bytes) (header : ℕ) → HeaderLen buf header → gtp_header_len buf ≡ header
unfolding gtp_header_len
gtp_header_len-HeaderLen buf _ (plain e) = rw e refl
gtp_header_len-HeaderLen buf _ (extended e) = rw e refl

module _ (lbo : List ℕ → Bool) (written : Bool) (stale buf : Bytes) (len header : ℕ) where
  -- The bytes behind the header fit in buf_send, or there are less than none or too many.
  abbrev pub InRange : Type 0
  InRange = (header ≤ len) × (len ≤ header + 1500)

  abbrev pub OutOfRange : Type 0
  OutOfRange = (len < header) ⊎ (header + 1500 < len)

  -- The version behind the header, and the destination address of the IP packet there.
  abbrev pub IsIp : Type 0
  IsIp = (buf header / 16 ≡ 4) ⊎ (buf header / 16 ≡ 6)

  abbrev pub NotIp : Type 0
  NotIp = (buf header / 16 ≢ 4) × (buf header / 16 ≢ 6)

  abbrev pub destination : List ℕ
  destination =
      if buf header / 16 == 4 then bytes_at buf (header + 16) 4 else bytes_at buf (header + 24) 16

  -- Why a packet with this key that fits is not taken.
  abbrev pub NotLocal : (key : List ℕ) → Type 0
  NotLocal key = (lbo key ≡ false) ⊎ (written ≡ false) ⊎ (len ≡ header)

  -- An answer of the filter to an IP packet with this key.
  abbrev IpAnswer : (key : List ℕ) → SigSess → Filtered → Type 0
  IpAnswer key sess fault = OutOfRange
  IpAnswer key sess (answered success sess' learned) =
      InRange × (lbo key ≡ true) × (written ≡ true) × SamePaths sess sess'
  IpAnswer key sess (answered status_false sess' learned) =
      InRange × NotLocal key × SamePaths sess sess'
  IpAnswer key sess (answered memerr sess' learned) = ⊥
  IpAnswer key sess (answered generr sess' learned) = ⊥

  -- An answer of the filter: a fault just on an IP packet that does not fit, success on one that fits
  -- where its destination is a key of the table and the packet was written, and else the status
  -- for a packet to be passed on.
  abbrev pub Answer : SigSess → Filtered → Type 0
  Answer sess fault = IsIp × OutOfRange
  Answer sess (answered success sess' learned) =
      IsIp × InRange × (lbo destination ≡ true) × (written ≡ true) × SamePaths sess sess'
  Answer sess (answered status_false sess' learned) =
      (NotIp ⊎ (InRange × NotLocal destination)) × SamePaths sess sess'
  Answer sess (answered memerr sess' learned) = ⊥
  Answer sess (answered generr sess' learned) = ⊥

  IpAnswer-Answer :
      (sess : SigSess) (r : Filtered) → IsIp → IpAnswer destination sess r → Answer sess r
  IpAnswer-Answer sess fault ip h = (ip, h)
  IpAnswer-Answer sess (answered success sess' learned) ip (range, there, was, same) =
      (ip, range, there, was, same)
  IpAnswer-Answer sess (answered status_false sess' learned) ip (range, why, same) =
      (inr (range, why), same)
  IpAnswer-Answer sess (answered memerr sess' learned) ip h = h
  IpAnswer-Answer sess (answered generr sess' learned) ip h = h

  status_of-IpAnswer :
      (w : Bool) (key : List ℕ) (sess sess' : SigSess) (learned : Option (List ℕ))
      → written ≡ w
      → InRange
      → lbo key ≡ true
      → SamePaths sess sess'
      → IpAnswer key sess (answered (status_of w) sess' learned)
  status_of-IpAnswer true key sess sess' learned e range there same = (range, there, e, same)
  status_of-IpAnswer false key sess sess' learned e range there same = (range, inr (inl e), same)

  learn_by-IpAnswer :
      (version : ℕ) (send : Bytes) (key : List ℕ) (first sess : SigSess)
      → (version ≡ 4) ⊎ (version ≡ 6) ⊎ (len ≡ header)
      → SamePaths first sess
      → InRange
      → lbo key ≡ true
      → IpAnswer key first (learn_by version written send sess)
  learn_by-IpAnswer version send key first sess ip same range there =
      elim (Bool-cases (version == 4)) [
        | inl v4 ↦ rw v4 (status_of-IpAnswer written key first _ _ refl range there (moved same))
        | inr n4 ↦ elim (Bool-cases (version == 6)) [
          | inl v6 ↦
              rw (n4, v6) (status_of-IpAnswer written key first _ _ refl range there (moved same))
          | inr n6 ↦
              rw (n4, n6)
                (
                  range,
                  elim ip [
                    | inl e ↦ absurd (==→ne version 4 n4 e)
                    | inr (inl e) ↦ absurd (==→ne version 6 n6 e)
                    | inr (inr e) ↦ inr (inr e)
                  ],
                  same,
                )
        ]
      ]

  -- The version in the copy of the packet.
  copied_version :
      IsIp
      → InRange
      → (let send = memcpy (len - header) (λ i. buf (header + i)) stale in
          (send 0 / 16 ≡ 4) ⊎ (send 0 / 16 ≡ 6) ⊎ (len ≡ header))
  copied_version ip range = elim (Bool-cases (ltb 0 (len - header))) [
    | inr empty ↦ let none_left = ltb→le 0 (len - header) empty in inr (inr (omega arith))
    | inl some_left ↦
        let same : buf (header + 0) ≡ buf header = ap buf (omega arith) in
        rw (some_left, same) (elim ip [ inl e ↦ inl e | inr e ↦ inr (inl e) ])
  ]

  learn-IpAnswer :
      (key : List ℕ) (sess : SigSess)
      → IsIp
      → InRange
      → lbo key ≡ true
      → IpAnswer key sess
          (learn written buf (memcpy (len - header) (λ i. buf (header + i)) stale) sess)
  unfolding learn
  learn-IpAnswer key sess ip range there = elim (Bool-cases (sess.qos_flow_id == 0)) [
    | inl unset ↦
        let send = memcpy (len - header) (λ i. buf (header + i)) stale in
        rw unset (
          learn_by-IpAnswer (send 0 / 16) send key sess (record sess { qos_flow_id = buf 14 })
            (copied_version ip range) (with_flow sess (buf 14)) range there)
    | inr known ↦
        rw known (status_of-IpAnswer written key sess sess none refl range there (same_self sess))
  ]

  filter_to-IpAnswer :
      (offset key_len : ℕ) (sess : SigSess)
      → IsIp
      → IpAnswer
          (bytes_at buf (header + offset) key_len)
          sess
          (filter_to lbo written stale buf len header offset key_len sess)
  unfolding filter_to
  filter_to-IpAnswer offset key_len sess ip = elim (Bool-cases (ltb len header)) [
    | inl short ↦ rw short (inl (ltb→lt len header short))
    | inr enough ↦ elim (Bool-cases (ltb (header + 1500) len)) [
      | inl long ↦ rw (enough, long) (inr (ltb→lt (header + 1500) len long))
      | inr fits ↦
          let range : InRange = (ltb→le len header enough, ltb→le (header + 1500) len fits) in
          elim (Bool-cases (lbo (bytes_at buf (header + offset) key_len))) [
            | inl there ↦ rw (enough, fits, there) (learn-IpAnswer _ sess ip range there)
            | inr missing ↦ rw (enough, fits, missing) (range, inl missing, same_self sess)
          ]
    ]
  ]

  -- On a packet of any length with a GTP-U header of the given length, media_gtp_packet_filter writes
  -- outside buf_send or takes a negative length for the copy just if the version behind the
  -- header is 4 or 6 and the bytes behind the header are less than none or more than 1500. It takes a
  -- packet only if they fit, its destination is a key of lbo_ip_table and the write to the TUN device
  -- succeeds; a packet that fits and is not taken has none of these keys, or the write fails, or there
  -- is no byte behind the header. In every case the session keeps its identifiers and paths.
  pub packet_filter-Answer :
      (sess : SigSess)
      → HeaderLen buf header
      → Answer sess (packet_filter lbo written stale buf len sess)
  unfolding packet_filter
  packet_filter-Answer sess is =
      let same = gtp_header_len-HeaderLen buf header is in
      elim (Bool-cases (buf header / 16 == 4)) [
        | inl v4 ↦
            let ip : IsIp = inl (==→eq (buf header / 16) 4 v4) in
            rw (same, v4)
              (IpAnswer-Answer sess (filter_to lbo written stale buf len header 16 4 sess) ip
                (rw v4 (filter_to-IpAnswer 16 4 sess ip)))
        | inr n4 ↦ elim (Bool-cases (buf header / 16 == 6)) [
          | inl v6 ↦
              let ip : IsIp = inr (==→eq (buf header / 16) 6 v6) in
              rw (same, n4, v6)
                (IpAnswer-Answer sess (filter_to lbo written stale buf len header 24 16 sess) ip
                  (rw n4 (filter_to-IpAnswer 24 16 sess ip)))
          | inr n6 ↦
              rw (same, n4, n6)
                (inl (==→ne (buf header / 16) 4 n4, ==→ne (buf header / 16) 6 n6), same_self sess)
        ]
      ]
