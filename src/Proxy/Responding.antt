-- ===== src/Proxy/Responding.antt =====
-- `json_process_request` and `json_process_rsponse` of ADJsonRpcProxy on the flow of tasks.
use jsonrpc_tcp_srv.Prelude.{
  ℕ, ◌+◌, ◌-◌, Bool, true, false, List, [], ◌∷◌, ◌++◌, ==_iff, count, count-append, ℤ, ◌≡◌, ◌⊎◌,
  refl, ap, sym, subst, ◌∙◌, arith, List-cases, inl, inr, append_assoc,
}
use jsonrpc_tcp_srv.Chain.{chain_add}
use jsonrpc_tcp_srv.NetServer.{NetDataObj}
use jsonrpc_tcp_srv.Proxy.{
  result_string, Proxy, JsonC, ApiTaskObj, RpcCommand, JsonRpcErrType, identify_task,
}
use jsonrpc_tcp_srv.Proxy.Requests.{
  error_reply_of, result_reply_of, json_process_request, json_process_rsponse,
  json_send_error_response_string, json_send_new_result, json_send_result_response_string,
  respond_with, response_for,
}
use jsonrpc_tcp_srv.Proxy.Branches.{
  IsPrinting, enqueued, verdict, json_process_request-verdict, task_of,
}
use jsonrpc_tcp_srv.Proxy.Replies.{address_of, task_addresses, send_json_object-IsReplied}
use jsonrpc_tcp_srv.Proxy.Flow.{
  idents, ident_of, chain_get-empty, chain_get-cons, chain_remove-head, tail_of, same_head,
  IsFlowing, total, Flows, task_addresses-append, idents-append, replied-Flows,
}

module _ {J : Type 0} where
  -- The proxy without the first response and its task, and the count of one that was sent.
  popped : Proxy J → List ℕ → List (ApiTaskObj J) → Proxy J
  popped p is ts = record p {
    resp_chain = record p.resp_chain { items = is; chain_size = p.resp_chain.chain_size - 1 };
    req_resp_chain = record p.req_resp_chain {
      items = ts;
      chain_size = p.req_resp_chain.chain_size - 1;
    };
  }

  responded : Proxy J → Proxy J
  responded p = record p { total_res_sent = p.total_res_sent + 1 }

  responded-IsFlowing : (p : Proxy J) → IsFlowing p → IsFlowing (responded p)
  unfolding responded
  responded-IsFlowing p h = record {
    live = record {
      tasks_live = h.live.tasks_live;
      tasks_attached = h.live.tasks_attached;
      resp_live = h.live.resp_live;
      req_live = h.live.req_live;
      server_live = h.live.server_live;
    };
    order = h.order;
  }

  responded-total : (q : ℕ × ℤ → Bool) (p : Proxy J) → total q (responded p) ≡ total q p
  unfolding responded total
  responded-total q p = refl

  pub nothing-Flows : (p : Proxy J) → IsFlowing p → Flows p [] p
  nothing-Flows p h = record { flowing = h; totals = λ q. omega arith }

module _ {J : Type 0} (json : JsonC J) where
  enqueued-Flows :
      (p : Proxy J) (req : NetDataObj) (obj : J) (id : ℤ) (method : RpcCommand)
      → IsFlowing p
      → Flows p (address_of req ∷ []) (enqueued json p req obj id method)
  unfolding enqueued total chain_add task_of
  enqueued-Flows p req obj id method h =
      let t = task_of json p req obj id method in
      let n = p.req_resp_chain.ident_generator + 1 in
      let front = p.resp_chain.items in
      record {
        flowing = record {
          live = record {
            tasks_live = h.live.tasks_live;
            tasks_attached = h.live.tasks_attached;
            resp_live = h.live.resp_live;
            req_live = h.live.req_live;
            server_live = h.live.server_live;
          };
          order =
              idents-append p.req_resp_chain.items (t ∷ [])
              ∙ ap (λ l. l ++ n ∷ []) h.order
              ∙ append_assoc front (ident_of p.mapping ++ p.req_chain.items) (n ∷ [])
              ∙ ap (λ l. front ++ l) (append_assoc (ident_of p.mapping) p.req_chain.items (n ∷ []));
        };
        totals = λ q. omega (
          arith,
          ap (count q) (task_addresses-append p.req_resp_chain.items (t ∷ [])),
          count-append q (task_addresses p.req_resp_chain.items) (address_of req ∷ []),
        );
      }

  verdict-Flows :
      (p : Proxy J) (req : NetDataObj)
      → IsPrinting json
      → IsFlowing p
      → (v : (JsonRpcErrType × ℤ) ⊎ (J × ℤ × RpcCommand)) (r : Bool × Proxy J)
      → r ≡ elim v [
        | inl (err, id) ↦
            (false, json_send_error_response_string json p id req.sock_descriptor err req.cltid)
        | inr (obj, id, method) ↦ (true, enqueued json p req obj id method)
      ]
      → Flows p (address_of req ∷ []) r.1
  unfolding json_send_error_response_string
  verdict-Flows p req prints h (inl (err, id)) r e =
      subst (λ x. Flows p (address_of req ∷ []) x.1) (sym e)
        (replied-Flows p (address_of req)
          (json_send_error_response_string json p id req.sock_descriptor err req.cltid) h
          (send_json_object-IsReplied json p req.sock_descriptor req.cltid
            (error_reply_of json err id) h.live.server_live prints))
  verdict-Flows p req prints h (inr (obj, id, method)) r e =
      subst (λ x. Flows p (address_of req ∷ []) x.1) (sym e) (enqueued-Flows p req obj id method h)

  pub request-Flows :
      (p : Proxy J) (req : NetDataObj)
      → IsPrinting json
      → IsFlowing p
      → Flows p (address_of req ∷ []) (json_process_request json p req).1
  unfolding json_send_error_response_string
  request-Flows p req prints h =
      let is = json_process_request-verdict json p req h.live in
      verdict-Flows p req prints h (verdict json p req) (json_process_request json p req) is

  no_response :
      (p : Proxy J) → IsFlowing p → p.resp_chain.items ≡ [] → (json_process_rsponse json p).1 ≡ p
  unfolding json_process_rsponse response_for
  no_response p h e = ground (arith, chain_get-empty p.resp_chain h.live.resp_live e)

  -- The pieces of the response to the first task.
  first_response :
      (p : Proxy J) (i : ℕ) (is : List ℕ) (t : ApiTaskObj J) (ts : List (ApiTaskObj J))
      → IsFlowing p
      → p.resp_chain.items ≡ i ∷ is
      → p.req_resp_chain.items ≡ t ∷ ts
      → (json_process_rsponse json p).1 ≡ responded (json_send_new_result json (popped p is ts) t)
  unfolding json_process_rsponse response_for respond_with popped responded
  first_response p i is t ts h e f =
      let got = chain_get-cons p.resp_chain i is h.live.resp_live e in
      let ordered =
        sym (ap idents f) ∙ h.order ∙ ap (λ l. l ++ (ident_of p.mapping ++ p.req_chain.items)) e in
      let hit =
        same_head t.ident i (idents ts) (is ++ (ident_of p.mapping ++ p.req_chain.items)) ordered in
      let removed =
        chain_remove-head {i = i} identify_task p.req_resp_chain t ts h.live.tasks_live
          h.live.tasks_attached f ((==_iff t.ident i).1 hit) in
      ground (arith, got, removed)

  popped-IsFlowing :
      (p : Proxy J) (i : ℕ) (is : List ℕ) (t : ApiTaskObj J) (ts : List (ApiTaskObj J))
      → IsFlowing p
      → p.resp_chain.items ≡ i ∷ is
      → p.req_resp_chain.items ≡ t ∷ ts
      → IsFlowing (popped p is ts)
  unfolding popped
  popped-IsFlowing p i is t ts h e f =
      let ordered =
        sym (ap idents f) ∙ h.order ∙ ap (λ l. l ++ (ident_of p.mapping ++ p.req_chain.items)) e in
      record {
        live = record {
          tasks_live = h.live.tasks_live;
          tasks_attached = h.live.tasks_attached;
          resp_live = h.live.resp_live;
          req_live = h.live.req_live;
          server_live = h.live.server_live;
        };
        order = ap tail_of ordered;
      }

  pub respond-Flows :
      (p : Proxy J) → IsPrinting json → IsFlowing p → Flows p [] (json_process_rsponse json p).1
  unfolding json_send_new_result json_send_result_response_string total popped
  respond-Flows p prints h = elim (List-cases p.resp_chain.items) [
    | inl e ↦ subst (Flows p []) (sym (no_response p h e)) (nothing-Flows p h)
    | inr (i, is, e) ↦ elim (List-cases p.req_resp_chain.items) [
      | inl f ↦ absurd (ground (arith, ap idents f, h.order, e))
      | inr (t, ts, f) ↦
          let p0 = popped p is ts in
          let h0 = popped-IsFlowing p i is t ts h e f in
          let reply = json_send_new_result json p0 t in
          let replied =
            send_json_object-IsReplied json p0 t.net_data.sock_descriptor t.net_data.cltid
              (result_reply_of json t.json_resp_obj
                (result_string t.task_result t.custom_result_string) t.req_id)
              h.live.server_live prints in
          let flows = replied-Flows p0 (address_of t.net_data) reply h0 replied in
          let counted : Flows p [] (responded reply) = record {
            flowing = responded-IsFlowing reply flows.flowing;
            totals = λ q.
                responded-total q reply
                ∙ omega (arith, flows.totals q, ap (λ l. count q (task_addresses l)) f);
          } in
          subst (Flows p []) (sym (first_response p i is t ts h e f)) counted
    ]
  ]
