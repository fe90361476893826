-- ===== src/NetServer/Pending.antt =====
-- The bound on the unanswered requests of a connection of ADNetServer, over whatever its two threads
-- and its consumer do.
use jsonrpc_tcp_srv.Prelude.{
  ℕ, ◌+◌, ◌-◌, ◌≤◌, ◌<◌, true, false, ◌&&◌, [], ◌∷◌, some, leb, ◌==◌, All, ℤ, pos, negsuc, ◌≡◌,
  refl, subst, arith, Bool-cases, Option-cases, inl, inr, ◌⊎◌, lookup, insert, erase, Map,
}
use jsonrpc_tcp_srv.NetServer.{
  NetServer, ConnPending, claim, pending_of, new_conn_pending, max_pending_per_conn, response_done,
  response_done_of, done_entry,
}

-- A connection has at most 256 unanswered requests, and more than 128 while it is paused.
abbrev pub IsBoundedConn : ConnPending → Type 0
IsBoundedConn p = (p.count ≤ max_pending_per_conn) × ((p.paused ≡ false) ⊎ (128 < p.count))

abbrev pub IsBounded : Map ConnPending → Type 0
IsBounded m = All (λ e. IsBoundedConn (e.1)) m

pub insert-IsBounded :
    (c : ℕ) (p : ConnPending) (m : Map ConnPending)
    → IsBoundedConn p
    → IsBounded m
    → IsBounded (insert c p m)
insert-IsBounded c p [] b h = (b, tt)
insert-IsBounded c p ((d, q) ∷ m) b h = elim (Bool-cases (c == d)) [
  | inl e ↦
      let is : (c, p) ∷ m ≡ insert c p ((d, q) ∷ m) = ground arith in subst IsBounded is (b, h.1)
  | inr e ↦
      let is : (d, q) ∷ insert c p m ≡ insert c p ((d, q) ∷ m) = ground arith in
      subst IsBounded is (h.0, insert-IsBounded c p m b h.1)
]

pub erase-IsBounded : (c : ℕ) (m : Map ConnPending) → IsBounded m → IsBounded (erase c m)
erase-IsBounded c [] h = tt
erase-IsBounded c ((d, q) ∷ m) h = elim (Bool-cases (c == d)) [
  | inl e ↦
      let is : erase c m ≡ erase c ((d, q) ∷ m) = ground arith in
      subst IsBounded is (erase-IsBounded c m h.1)
  | inr e ↦
      let is : (d, q) ∷ erase c m ≡ erase c ((d, q) ∷ m) = ground arith in
      subst IsBounded is (h.0, erase-IsBounded c m h.1)
]

pub lookup-IsBoundedConn :
    (c : ℕ) (m : Map ConnPending) (p : ConnPending)
    → lookup c m ≡ some p
    → IsBounded m
    → IsBoundedConn p
lookup-IsBoundedConn c [] p e h = cc
lookup-IsBoundedConn c ((d, q) ∷ m) p e h = elim (Bool-cases (c == d)) [
  | inl k ↦ let is : q ≡ p = ground arith in subst IsBoundedConn is h.0
  | inr k ↦ lookup-IsBoundedConn c m p (ground arith) h.1
]

pub pending_of-IsBoundedConn :
    (m : NetServer) (c : ℕ) → IsBounded m.pending → IsBoundedConn (pending_of m c)
unfolding pending_of new_conn_pending
pending_of-IsBoundedConn m c h = elim (Option-cases (lookup c m.pending)) [
  | inl e ↦
      let is : new_conn_pending ≡ pending_of m c = ground arith in
      subst IsBoundedConn is (omega arith, inl refl)
  | inr (p, e) ↦
      let is : p ≡ pending_of m c = ground arith in
      subst IsBoundedConn is (lookup-IsBoundedConn c m.pending p e h)
]

pub claim-IsBounded :
    (m : NetServer) (c : ℕ) → IsBounded m.pending → IsBounded (claim m c).1.pending
unfolding claim
claim-IsBounded m c h =
    let p = pending_of m c in
    let b = pending_of-IsBoundedConn m c h in
    elim (Bool-cases (leb max_pending_per_conn p.count)) [
      | inl e ↦
          let is : insert c (record p { paused = true }) m.pending ≡ (claim m c).1.pending =
            ground arith in
          subst IsBounded is
            (insert-IsBounded c (record p { paused = true }) m.pending (b.0, inr (ground arith)) h)
      | inr e ↦
          let is : insert c (record p { count = p.count + 1 }) m.pending ≡ (claim m c).1.pending =
            ground arith in
          subst IsBounded is (
            insert-IsBounded c (record p { count = p.count + 1 }) m.pending
              (ground arith, elim b.1 [ inl a ↦ inl a | inr a ↦ inr (omega (arith, a)) ]) h)
    ]

done_entry-IsBoundedConn : (p : ConnPending) → IsBoundedConn p → IsBoundedConn (done_entry p).1
unfolding done_entry
done_entry-IsBoundedConn p (le, b) = elim (Bool-cases (p.paused && leb (p.count - 1) 128)) [
  | inl e ↦ (ground arith, inl (ground arith))
  | inr e ↦ elim (Bool-cases p.paused) [
    | inl d ↦ (ground arith, inr (ground arith))
    | inr d ↦ (ground arith, inl (ground arith))
  ]
]

pub response_done-IsBounded :
    (m : NetServer) (c : ℤ) → IsBounded m.pending → IsBounded (response_done m c).pending
unfolding response_done response_done_of
response_done-IsBounded m (negsuc _) h = h
response_done-IsBounded m (pos c) h = elim (Option-cases (lookup c m.pending)) [
  | inl e ↦
      let is : m.pending ≡ (response_done m (pos c)).pending = ground arith in subst IsBounded is h
  | inr (p, e) ↦
      let is : insert c (done_entry p).1 m.pending ≡ (response_done m (pos c)).pending =
        elim (Bool-cases ((done_entry p).0)) [ inl d ↦ ground arith | inr d ↦ ground arith ] in
      subst IsBounded is (
        insert-IsBounded c (done_entry p).1 m.pending
          (done_entry-IsBoundedConn p (lookup-IsBoundedConn c m.pending p e h)) h)
]
