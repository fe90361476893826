-- ===== src/NetServer/Claims.antt =====
-- `queue_framed_requests` of ADNetServer keeps the accounts: a request is counted when it is queued.
use jsonrpc_tcp_srv.Prelude.{
  ℕ, ◌+◌, ◌≤◌, ◌<◌, Bool, true, List, [], ◌∷◌, some, ==_iff, count, length, ℤ, pos, ◌≡◌, refl, ap,
  sym, subst, ◌∙◌, arith, Bool-cases, Option-cases, List-cases, inl, inr, lookup, insert,
  find_first, All, ltb,
}
use Prim.Native.String.{String}
use jsonrpc_tcp_srv.Framer.{reset}
use jsonrpc_tcp_srv.Chain.{chain_get_by_ident}
use jsonrpc_tcp_srv.NetServer.{
  NetServer, NetDataObj, identify, queue_loop, notify_queued, queue_known, queue_framer,
  queue_framed_requests, get_client_info, connection_dead,
}
use jsonrpc_tcp_srv.NetServer.Reuse.{IsNumbered}
use jsonrpc_tcp_srv.NetServer.Accounts.{is_of, has_ident, counted, records, IsBalanced}
use jsonrpc_tcp_srv.NetServer.Shifts.{Shifts, queue_loop-Shifts}

Shifts-IsBalanced :
    (held : List NetDataObj) (k : ℕ) (m m' : NetServer)
    → 1 ≤ records k m.client_info_chain
    → k ≤ m.client_info_chain.ident_generator
    → Shifts k m m'
    → IsBalanced held m
    → IsBalanced held m'
Shifts-IsBalanced held k m m' known le s b = record {
  json_on = s.json ∙ b.json_on;
  requests_live = s.live ∙ b.requests_live;
  responses_live = ap (λ r. r.init_flag) s.responses ∙ b.responses_live;
  numbered = subst IsNumbered (sym s.clients) b.numbered;
  single = λ c. subst (λ k. records c k ≤ 1) (sym s.clients) (b.single c);
  balance = λ c.
      let same = ap (records c) s.clients in
      let answers = ap (λ r. count (is_of c) r.items) s.responses in
      elim (s.others c) [
        | inl e ↦
            let is : c ≡ k = (==_iff c k).0 e in
            let own : counted c m'.pending + count (is_of c) m.request_chain.items
                ≡ counted c m.pending + count (is_of c) m'.request_chain.items =
              subst
                (λ i.
                  counted i m'.pending + count (is_of i) m.request_chain.items
                  ≡ counted i m.pending + count (is_of i) m'.request_chain.items)
                (sym is) s.own in
            let here : 1 ≤ records c m.client_info_chain =
              subst (λ i. 1 ≤ records i m.client_info_chain) (sym is) known in
            elim (b.balance c) [
              | inl z ↦ absurd (omega (arith, z, here))
              | inr h ↦ inr (omega (arith, h, own, answers))
            ]
        | inr (p, q) ↦ elim (b.balance c) [
          | inl z ↦ inl (same ∙ z)
          | inr h ↦ inr (omega (arith, h, p, q, answers))
        ]
      ];
  fresh = λ c above.
      let answers = ap (λ r. count (is_of c) r.items) s.responses in
      let over : m.client_info_chain.ident_generator < c =
        omega (arith, above, ap (λ r. r.ident_generator) s.clients) in
      let old = b.fresh c over in
      elim (s.others c) [
        | inl e ↦ absurd (omega (arith, le, over, (==_iff c k).0 e))
        | inr (p, q) ↦ (p ∙ old.0, omega (arith, old.1, q, answers))
      ];
}

found-known :
    (q : NetDataObj → Bool) (os : List NetDataObj) (o : NetDataObj) (g : ℕ)
    → find_first q os ≡ some o
    → All (λ x. x.ident ≤ g) os
    → (1 ≤ count (has_ident o.ident) os) × (o.ident ≤ g)
found-known q [] o g e h = cc
found-known q (x ∷ os) o g e h = elim (Bool-cases (q x)) [
  | inl t ↦
      let is : x ≡ o = ground arith in
      let same : has_ident o.ident x ≡ true =
        subst (λ z. has_ident z.ident x ≡ true) is ((==_iff x.ident x.ident).1 refl) in
      (ground (arith, same), subst (λ z. z.ident ≤ g) is h.0)
  | inr t ↦ let rest = found-known q os o g (ground arith) h.1 in (ground (arith, rest.0), rest.1)
]

-- A connection that is known has a record, and its id was given out.
pub get_client_info-known :
    (m : NetServer) (fd : ℕ) (ip : String) (port : ℤ) (k : ℕ)
    → IsNumbered m.client_info_chain
    → get_client_info m fd ≡ some (ip, port, k)
    → (o : NetDataObj) × (find_first (identify fd) m.client_info_chain.items ≡ some o)
      × (o.ident ≡ k)
      × (1 ≤ records k m.client_info_chain)
      × (k ≤ m.client_info_chain.ident_generator)
unfolding get_client_info chain_get_by_ident
get_client_info-known m fd ip port k n e =
    elim (Option-cases (find_first (identify fd) m.client_info_chain.items)) [
      | inl z ↦ absurd (ground arith)
      | inr (o, f) ↦
          let is : o.ident ≡ k = ground (arith, n.attached) in
          let known =
            found-known (identify fd) m.client_info_chain.items o
              m.client_info_chain.ident_generator f n.numbered in
          (
            o,
            f,
            is,
            subst (λ i. 1 ≤ records i m.client_info_chain) is known.0,
            subst (λ i. i ≤ m.client_info_chain.ident_generator) is known.1,
          )
    ]

notified :
    (held : List NetDataObj) (n : ℕ) (b : Bool) (m : NetServer)
    → IsBalanced held m
    → IsBalanced held (notify_queued (n, b, m)).1
unfolding notify_queued
notified held n b m h = elim (Bool-cases (ltb 0 n)) [ inl e ↦ rw e h | inr e ↦ rw e h ]

pub queue_framed_requests-IsBalanced :
    (held : List NetDataObj) (m : NetServer) (fd : ℕ)
    → IsBalanced held m
    → IsBalanced held (queue_framed_requests m fd).1
unfolding queue_framed_requests queue_framer queue_known notify_queued
queue_framed_requests-IsBalanced held m fd h = elim (Option-cases (lookup fd m.framers)) [
  | inl e ↦
      let is : m ≡ (queue_framed_requests m fd).1 = ground arith in subst (IsBalanced held) is h
  | inr (f, e) ↦ elim (List-cases f.ready) [
    | inl z ↦
        let is : m ≡ (queue_framed_requests m fd).1 = ground (arith, ap length z) in
        subst (IsBalanced held) is h
    | inr (msg, msgs, z) ↦
        let gone = record m { framers = insert fd (reset f) m.framers } in
        elim (Option-cases (get_client_info m fd)) [
          | inl i ↦
              let is : gone ≡ (queue_framed_requests m fd).1 = ground (arith, ap length z) in
              subst (IsBalanced held) is h
          | inr ((ip, port, k), i) ↦ elim (Bool-cases (connection_dead m (pos k))) [
            | inl d ↦
                let is : gone ≡ (queue_framed_requests m fd).1 = ground (arith, ap length z) in
                subst (IsBalanced held) is h
            | inr d ↦
                let q = queue_loop f.ready m fd f (ip, port, k) in
                let (o, _, _, known, le) = get_client_info-known m fd ip port k h.numbered i in
                let is : (notify_queued q).1 ≡ (queue_framed_requests m fd).1 =
                  ground (arith, ap length z) in
                subst (IsBalanced held) is (
                  notified held q.0 q.1 q.2 (
                    Shifts-IsBalanced held k m q.2 known le
                      (queue_loop-Shifts f.ready m fd f ip port k h.requests_live) h))
          ]
        ]
  ]
]
