-- ===== src/Proxy/Mapping.antt =====
-- The callback of the ADJsonRpcMapper thread on the flow of tasks.
use jsonrpc_tcp_srv.Prelude.{
  ℕ, ◌-◌, List, [], ◌∷◌, ◌++◌, none, some, ◌==◌, count, update_first, ◌≡◌, refl, ap, sym, subst,
  ◌∙◌, arith, Bool-cases, Option-cases, List-cases, inl, inr, append_assoc,
}
use jsonrpc_tcp_srv.Chain.{chain_put, chain_add}
use jsonrpc_tcp_srv.Proxy.{
  Proxy, Consumer, ApiTaskObj, mapper_take, identify_task, json_send_response,
}
use jsonrpc_tcp_srv.Proxy.Mapper.{mapper_finish, mapper_done, mapped}
use jsonrpc_tcp_srv.Proxy.Replies.{task_addresses}
use jsonrpc_tcp_srv.Proxy.Flow.{
  idents, ident_of, chain_get-empty, chain_get-cons, IsFlowing, total, Flows,
}
use jsonrpc_tcp_srv.Proxy.Responding.{nothing-Flows}

module _ {J : Type 0} (consumer : Consumer J) where
  pub take-Flows : (p : Proxy J) → p.mapping ≡ none → IsFlowing p → Flows p [] (mapper_take p)
  unfolding mapper_take total
  take-Flows p idle h = elim (List-cases p.req_chain.items) [
    | inl e ↦
        let is : record p { mapping = none } ≡ mapper_take p =
          ground (arith, chain_get-empty p.req_chain h.live.req_live e) in
        let same : Flows p [] (record p { mapping = none }) = record {
          flowing = record {
            live = record {
              tasks_live = h.live.tasks_live;
              tasks_attached = h.live.tasks_attached;
              resp_live = h.live.resp_live;
              req_live = h.live.req_live;
              server_live = h.live.server_live;
            };
            order =
                h.order ∙ ap (λ m. p.resp_chain.items ++ (ident_of m ++ p.req_chain.items)) idle;
          };
          totals = λ q. omega arith;
        } in
        subst (Flows p []) is same
    | inr (i, is, e) ↦
        let p' : Proxy J = record p {
          req_chain = record p.req_chain { items = is; chain_size = p.req_chain.chain_size - 1 };
          mapping = some i;
        } in
        let taken : p' ≡ mapper_take p =
          ground (arith, chain_get-cons p.req_chain i is h.live.req_live e) in
        let moved : Flows p [] p' = record {
          flowing = record {
            live = record {
              tasks_live = h.live.tasks_live;
              tasks_attached = h.live.tasks_attached;
              resp_live = h.live.resp_live;
              req_live = h.live.req_live;
              server_live = h.live.server_live;
            };
            order =
                h.order
                ∙ ap (λ m. p.resp_chain.items ++ (ident_of m ++ p.req_chain.items)) idle
                ∙ ap (λ l. p.resp_chain.items ++ l) e;
          };
          totals = λ q. omega arith;
        } in
        subst (Flows p []) taken moved
  ]

  -- The consumers' work leaves the tasks' idents and connections.
  mapped-idents :
      (i : ℕ) (ts : List (ApiTaskObj J))
      → (idents (update_first (identify_task i) (mapped consumer) ts) ≡ idents ts)
        × (task_addresses (update_first (identify_task i) (mapped consumer) ts) ≡ task_addresses ts)
  unfolding mapped
  mapped-idents i [] = (refl, refl)
  mapped-idents i (t ∷ ts) =
      let (ids, addrs) = mapped-idents i ts in
      elim (Bool-cases (t.ident == i)) [
        | inl e ↦ (ground arith, ground arith)
        | inr e ↦ (ground (arith, ids), ground (arith, addrs))
      ]

  pub finish-Flows : (p : Proxy J) → IsFlowing p → Flows p [] (mapper_finish consumer p)
  unfolding mapper_finish mapper_done json_send_response chain_put chain_add total
  finish-Flows p h = elim (Option-cases p.mapping) [
    | inl e ↦
        let is : p ≡ mapper_finish consumer p = ground arith in
        subst (Flows p []) is (nothing-Flows p h)
    | inr (i, e) ↦
        let (ids, addrs) = mapped-idents i p.req_resp_chain.items in
        let p' : Proxy J = record p {
          req_resp_chain = record p.req_resp_chain {
            items = update_first (identify_task i) (mapped consumer) p.req_resp_chain.items;
          };
          mapping = none;
          resp_chain = chain_add p.resp_chain i;
        } in
        let is : p' ≡ mapper_finish consumer p = ground arith in
        let done : Flows p [] p' = record {
          flowing = record {
            live = record {
              tasks_live = h.live.tasks_live;
              tasks_attached = h.live.tasks_attached;
              resp_live = h.live.resp_live;
              req_live = h.live.req_live;
              server_live = h.live.server_live;
            };
            order =
                ids
                ∙ h.order
                ∙ ap (λ m. p.resp_chain.items ++ (ident_of m ++ p.req_chain.items)) e
                ∙ sym (append_assoc p.resp_chain.items (i ∷ []) p.req_chain.items);
          };
          totals = λ q. omega (arith, ap (count q) addrs);
        } in
        subst (Flows p []) is done
  ]
