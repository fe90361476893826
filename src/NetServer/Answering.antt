-- ===== src/NetServer/Answering.antt =====
-- The response thread of ADNetServer and its consumer keep the accounts: every request leaves them with its
-- response.
use jsonrpc_tcp_srv.Prelude.{
  ℕ, zero, suc, ◌+◌, ◌-◌, ◌≤◌, Bool, List, [], ◌∷◌, ◌++◌, some, count, count-append, minus_one, ◌≡◌,
  ap, sym, subst, ◌∙◌, arith, Option-cases, List-cases, inl, inr, if◌then◌else◌, get_elem?,
}
use jsonrpc_tcp_srv.Framer.{Bytes}
use jsonrpc_tcp_srv.Chain.{
  chain_get, get_from, chain_remove, remove_head, top_of, chain_put, chain_add,
}
use jsonrpc_tcp_srv.NetServer.{NetServer, NetDataObj, emit, wake_responder}
use jsonrpc_tcp_srv.NetServer.Sending.{SendEnv, schedule_response, respond, respond_to, or_same}
use jsonrpc_tcp_srv.NetServer.Accounts.{is_of, records, IsBalanced}
use jsonrpc_tcp_srv.NetServer.Reuse.{IsNumbered}
use jsonrpc_tcp_srv.Chain.Calls.{from_option}
use jsonrpc_tcp_srv.NetServer.Answered.{Answered, IsAnsweredBy, respond_to-Answered}

-- `m` once the first of its responses is taken.
abbrev taken : NetServer → List NetDataObj → NetServer
taken m os = record m {
  response_chain = record m.response_chain {
    items = os;
    chain_size = m.response_chain.chain_size - 1;
  };
}

Answered-IsBalanced :
    (held : List NetDataObj) (m r : NetServer) (o : NetDataObj) (os : List NetDataObj)
    → m.response_chain.items ≡ o ∷ os
    → Answered o (taken m os) r
    → IsBalanced held m
    → IsBalanced held r
Answered-IsBalanced held m r o os e a b =
    let left : (c : ℕ)
        → count (is_of c) m.response_chain.items
          ≡ (if is_of c o then 1 else 0) + count (is_of c) r.response_chain.items =
      λ c.
        ap (count (is_of c)) e
        ∙ ap (λ k. (if is_of c o then 1 else 0) + count (is_of c) k.items) (sym a.responses) in
    let same : (c : ℕ)
        → count (is_of c) r.request_chain.items ≡ count (is_of c) m.request_chain.items =
      λ c. ap (λ k. count (is_of c) k.items) a.requests in
    record {
      json_on = a.json ∙ b.json_on;
      requests_live = ap (λ k. k.init_flag) a.requests ∙ b.requests_live;
      responses_live = ap (λ k. k.init_flag) a.responses ∙ b.responses_live;
      numbered = subst IsNumbered (sym a.clients) b.numbered;
      single = λ c. subst (λ k. records c k ≤ 1) (sym a.clients) (b.single c);
      balance = λ c. elim (b.balance c) [
        | inl z ↦ inl (ap (records c) a.clients ∙ z)
        | inr h ↦ inr (omega (arith, h, a.counts c, left c, same c))
      ];
      fresh = λ c above.
          let old = b.fresh c (omega (arith, above, ap (λ k. k.ident_generator) a.clients)) in
          (omega (arith, old.0, a.counts c), omega (arith, old.1, left c, same c));
    }

pub respond-IsBalanced :
    (held : List NetDataObj) (m : NetServer) (env : SendEnv)
    → IsBalanced held m
    → IsBalanced held (respond m env)
unfolding respond chain_get get_from chain_remove remove_head top_of
respond-IsBalanced held m env b = elim (List-cases m.response_chain.items) [
  | inl e ↦
      let is : m ≡ respond m env = ground (arith, e, b.responses_live) in
      subst (IsBalanced held) is b
  | inr (o, os, e) ↦
      let is : or_same m (respond_to (taken m os) o env) ≡ respond m env =
        ground (arith, e, b.responses_live) in
      subst (IsBalanced held) is (elim (Option-cases (respond_to (taken m os) o env)) [
        | inl n ↦ rw n b
        | inr (r, n) ↦ rw n (
            Answered-IsBalanced held m r o os e
              (subst (IsAnsweredBy o (taken m os)) n (respond_to-Answered (taken m os) o env)) b)
      ])
]

-- The consumer takes a request.
pub take_request-IsBalanced :
    (held : List NetDataObj) (m : NetServer)
    → IsBalanced held m
    → IsBalanced
        (held ++ from_option (chain_get m.request_chain).0)
        (record m { request_chain = (chain_get m.request_chain).1 })
unfolding chain_get get_from chain_remove remove_head top_of
take_request-IsBalanced held m b =
    let r = chain_get m.request_chain in
    let same : (c : ℕ)
        → count (is_of c) m.request_chain.items + count (is_of c) held
          ≡ count (is_of c) r.1.items + count (is_of c) (held ++ from_option r.0) =
      λ c. elim (List-cases m.request_chain.items) [
        | inl e ↦ ground (arith, e, b.requests_live, count-append (is_of c) held (from_option r.0))
        | inr (o, os, e) ↦
            ground (arith, e, b.requests_live, count-append (is_of c) held (from_option r.0))
      ] in
    record {
      json_on = b.json_on;
      requests_live = elim (List-cases m.request_chain.items) [
        | inl e ↦ ground (arith, e, b.requests_live)
        | inr (o, os, e) ↦ ground (arith, e, b.requests_live)
      ];
      responses_live = b.responses_live;
      numbered = b.numbered;
      single = b.single;
      balance = λ c. elim (b.balance c) [ inl z ↦ inl z | inr h ↦ inr (omega (arith, h, same c)) ];
      fresh = λ c above. let old = b.fresh c above in (old.0, omega (arith, old.1, same c));
    }

-- The list without its element at an index.
abbrev pub remove_at : ℕ → List NetDataObj → List NetDataObj
remove_at i [] = []
remove_at zero (x ∷ xs) = xs
remove_at (suc i) (x ∷ xs) = x ∷ remove_at i xs

count-remove_at :
    (p : NetDataObj → Bool) (i : ℕ) (os : List NetDataObj) (o : NetDataObj)
    → get_elem? os i ≡ some o
    → count p os ≡ count p (remove_at i os) + (if p o then 1 else 0)
count-remove_at p i [] o e = cc
count-remove_at p zero (x ∷ xs) o e =
    let is : x ≡ o = ground arith in
    subst (λ z. count p (x ∷ xs) ≡ count p xs + (if p z then 1 else 0)) is (omega arith)
count-remove_at p (suc i) (x ∷ xs) o e = omega (arith, count-remove_at p i xs o (ground arith))

-- The consumer answers a request that it holds.
pub schedule_response-IsBalanced :
    (held : List NetDataObj) (m : NetServer) (i : ℕ) (o : NetDataObj) (buf : Bytes)
    → get_elem? held i ≡ some o
    → IsBalanced held m
    → IsBalanced (remove_at i held) (schedule_response m o.sock_descriptor o.cltid buf).1
unfolding schedule_response chain_put chain_add
schedule_response-IsBalanced held m i o buf e b =
    let r : NetDataObj = record {
      ident = 0;
      sock_descriptor = o.sock_descriptor;
      port = minus_one;
      ip = "";
      cltid = o.cltid;
      data_buffer = buf;
    } in
    let added = chain_add m.response_chain r in
    let m' = record m { response_chain = added } in
    let is : emit wake_responder m' ≡ (schedule_response m o.sock_descriptor o.cltid buf).1 =
      ground (arith, b.responses_live) in
    let same : (c : ℕ)
        → count (is_of c) held + count (is_of c) m.response_chain.items
          ≡ count (is_of c) (remove_at i held) + count (is_of c) added.items =
      λ c. omega (
        arith,
        count-remove_at (is_of c) i held o e,
        count-append (is_of c) m.response_chain.items (r ∷ []),
      ) in
    subst (IsBalanced (remove_at i held)) is (record {
      json_on = b.json_on;
      requests_live = b.requests_live;
      responses_live = b.responses_live;
      numbered = b.numbered;
      single = b.single;
      balance = λ c. elim (b.balance c) [ inl z ↦ inl z | inr h ↦ inr (omega (arith, h, same c)) ];
      fresh = λ c above. let old = b.fresh c above in (old.0, omega (arith, old.1, same c));
    })
