-- ===== src/Conn/Ids.antt =====
-- The identifiers that next_id of src/agc_connection.c gives.
use common_framework.Base.{
  ℕ, zero, suc, ◌+◌, ◌*◌, ◌≤◌, ◌<◌, ◌≡◌, ◌≢◌, inl, inr, arith, ltb, ltb→lt, ltb→le, Bool-cases,
}
use common_framework.Conn.{limit_connections, next_id, genid_after}

-- The identifier of the connection that is created after `n` others.
abbrev pub id_of : ℕ → ℕ
id_of n = (next_id (genid_after n)).1

-- genid, and the next identifier, are the count of connections less a multiple of
-- limit_connections + 1.
genid_count : (n : ℕ) → (q : ℕ) × (n ≡ q * 1000001 + genid_after n) × (genid_after n ≤ 1000001)
unfolding genid_after next_id
genid_count zero = (0, omega arith, omega arith)
genid_count (suc n) =
    let (q, e, l) = genid_count n in
    elim (Bool-cases (ltb limit_connections (genid_after n))) [
      | inl full ↦
          let above = ltb→lt limit_connections (genid_after n) full in
          rw full (suc q, omega arith, omega arith)
      | inr free ↦
          let below = ltb→le limit_connections (genid_after n) free in
          rw free (q, omega arith, omega arith)
    ]

id_count : (n : ℕ) → (q : ℕ) × (n ≡ q * 1000001 + id_of n) × (id_of n ≤ limit_connections)
unfolding next_id
id_count n =
    let (q, e, l) = genid_count n in
    elim (Bool-cases (ltb limit_connections (genid_after n))) [
      | inl full ↦
          let above = ltb→lt limit_connections (genid_after n) full in
          rw full (suc q, omega arith, omega arith)
      | inr free ↦
          let below = ltb→le limit_connections (genid_after n) free in rw free (q, e, below)
    ]

-- Each identifier is at most LIMIT_CONNECTIONS, those of two connections with less than
-- LIMIT_CONNECTIONS + 1 creations from the one to the other differ, and the connection created
-- LIMIT_CONNECTIONS + 1 creations later gets the same identifier again.
pub id_of-Window :
    (i j : ℕ)
    → i < j
    → j < i + suc limit_connections
    → (id_of i ≤ limit_connections)
      × (id_of i ≢ id_of j)
      × (id_of (i + suc limit_connections) ≡ id_of i)
id_of-Window i j l near =
    let (q, e, low) = id_count i in
    let (r, f, low_j) = id_count j in
    let (s, g, low_k) = id_count (i + 1000001) in (low, (λ same. omega arith), omega arith)
