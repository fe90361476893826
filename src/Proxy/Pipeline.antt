-- ===== src/Proxy/Pipeline.antt =====
-- Requests and replies of ADJsonRpcProxy and ADJsonRpcMapper over any order of the steps of their
-- threads.
use jsonrpc_tcp_srv.Prelude.{
  ℕ, ◌+◌, leb, length, Bool-cases, Bool, List, [], ◌∷◌, ◌++◌, none, some, count, ℤ, ◌≡◌, refl, ap,
  subst, ◌∙◌, arith, Option-cases, inl, inr,
}
use jsonrpc_tcp_srv.Framer.{Bytes}
use jsonrpc_tcp_srv.Chain.{new_chain, attach_helper, disable_auto_remove}
use jsonrpc_tcp_srv.NetServer.{NetDataObj, new_net_server}
use jsonrpc_tcp_srv.Proxy.{
  attach_rpc_method, json_rpc_method_name_max_length, RpcCommand, new_proxy, Proxy, JsonC, Consumer,
  mapper_take,
}
use jsonrpc_tcp_srv.Proxy.Requests.{json_process_request, json_process_rsponse}
use jsonrpc_tcp_srv.Proxy.Mapper.{mapper_finish}
use jsonrpc_tcp_srv.Proxy.Branches.{IsPrinting}
use jsonrpc_tcp_srv.Proxy.Replies.{address_of, addresses, task_addresses}
use jsonrpc_tcp_srv.Proxy.Flow.{idents, ident_of, no_addresses, IsFlowing, total, Flows}
use jsonrpc_tcp_srv.Proxy.Responding.{nothing-Flows, request-Flows, respond-Flows}
use jsonrpc_tcp_srv.Proxy.Mapping.{take-Flows, finish-Flows}

-- The registration of a method, a request of the listen thread, the two halves of the mapper's
-- callback, and the callback of the response thread.
pub data Step : Type 0 where
  register : Bytes → ℤ → Step
  request : NetDataObj → Step
  take_task : Step
  finish_task : Step
  respond : Step

-- The connections of the requests that came in.
abbrev pub requested : List Step → List (ℕ × ℤ)
requested [] = []
requested (register method index ∷ ss) = requested ss
requested (request req ∷ ss) = address_of req ∷ requested ss
requested (take_task ∷ ss) = requested ss
requested (finish_task ∷ ss) = requested ss
requested (respond ∷ ss) = requested ss

-- The connections of the replies.
abbrev pub replied_to : {J : Type 0} → Proxy J → List (ℕ × ℤ)
replied_to p = addresses p.server_socket.response_chain.items

-- The threads of the mapper and of the responses have nothing to do.
abbrev pub IsQuiet : {J : Type 0} → Proxy J → Type 0
IsQuiet p = (p.resp_chain.items ≡ []) × (p.mapping ≡ none) × (p.req_chain.items ≡ [])

module _ {J : Type 0} (json : JsonC J) (consumer : Consumer J) where
  unfoldable pub step : Proxy J → Step → Proxy J
  step p (register method index) = (attach_rpc_method p method index).1
  step p (request req) = (json_process_request json p req).1
  step p take_task = elim p.mapping [ none ↦ mapper_take p | some _ ↦ p ]
  step p finish_task = mapper_finish consumer p
  step p respond = (json_process_rsponse json p).1

  unfoldable pub run : Proxy J → List Step → Proxy J
  run p [] = p
  run p (s ∷ ss) = run (step p s) ss

  register-Flows :
      (p : Proxy J) (method : Bytes) (index : ℤ)
      → IsFlowing p
      → Flows p [] (attach_rpc_method p method index).1
  unfolding attach_rpc_method total
  register-Flows p method index h =
      elim (Bool-cases (leb json_rpc_method_name_max_length (length method))) [
        | inl e ↦
            let is : p ≡ (attach_rpc_method p method index).1 = ground arith in
            subst (Flows p []) is (nothing-Flows p h)
        | inr e ↦
            let command : RpcCommand = record { method = method; method_index = index } in
            let p' : Proxy J = record p { rpc_call_list = p.rpc_call_list ++ command ∷ [] } in
            let is : p' ≡ (attach_rpc_method p method index).1 = ground arith in
            let listed : Flows p [] p' = record {
              flowing = record {
                live = record {
                  tasks_live = h.live.tasks_live;
                  tasks_attached = h.live.tasks_attached;
                  resp_live = h.live.resp_live;
                  req_live = h.live.req_live;
                  server_live = h.live.server_live;
                };
                order = h.order;
              };
              totals = λ q. omega arith;
            } in
            subst (Flows p []) is listed
      ]

  step-Flows :
      (p : Proxy J) (s : Step)
      → IsPrinting json
      → IsFlowing p
      → Flows p (requested (s ∷ [])) (step p s)
  unfolding step
  step-Flows p (register method index) prints h = register-Flows p method index h
  step-Flows p (request req) prints h = request-Flows json p req prints h
  step-Flows p take_task prints h = elim (Option-cases p.mapping) [
    | inl e ↦
        let is : mapper_take p ≡ step p take_task = ground arith in
        subst (Flows p []) is (take-Flows consumer p e h)
    | inr (i, e) ↦
        let is : p ≡ step p take_task = ground arith in subst (Flows p []) is (nothing-Flows p h)
  ]
  step-Flows p finish_task prints h = finish-Flows consumer p h
  step-Flows p respond prints h = respond-Flows json p prints h

  requested-count :
      (q : ℕ × ℤ → Bool) (s : Step) (ss : List Step)
      → count q (requested (s ∷ ss)) ≡ count q (requested (s ∷ [])) + count q (requested ss)
  requested-count q (register method index) ss = omega arith
  requested-count q (request req) ss = omega arith
  requested-count q take_task ss = omega arith
  requested-count q finish_task ss = omega arith
  requested-count q respond ss = omega arith

  run-Flows :
      (ss : List Step) (p : Proxy J)
      → IsPrinting json
      → IsFlowing p
      → Flows p (requested ss) (run p ss)
  unfolding run
  run-Flows [] p prints h = nothing-Flows p h
  run-Flows (s ∷ ss) p prints h =
      let first = step-Flows p s prints h in
      let rest = run-Flows ss (step p s) prints first.flowing in
      record {
        flowing = rest.flowing;
        totals = λ q. omega (arith, rest.totals q, first.totals q, requested-count q s ss);
      }

  new_proxy-IsFlowing : IsFlowing (new_proxy {J = J})
  unfolding new_proxy new_net_server new_chain attach_helper disable_auto_remove
  new_proxy-IsFlowing = record {
    live = record {
      tasks_live = refl;
      tasks_attached = refl;
      resp_live = refl;
      req_live = refl;
      server_live = refl;
    };
    order = refl;
  }

  -- When json-c can print every reply: after any steps of the threads of a new proxy and its mapper,
  -- the tasks wait in the order of their arrival, those that are mapped before those that are not,
  -- and every request that came in has either got one reply, for its connection, or is one of the
  -- tasks.
  pub run-IsFlowing :
      (ss : List Step) (q : ℕ × ℤ → Bool)
      → IsPrinting json
      → let p = run new_proxy ss in
        IsFlowing p
        × (count q (replied_to p) + count q (task_addresses p.req_resp_chain.items)
            ≡ count q (requested ss))
  unfolding total new_proxy new_net_server new_chain attach_helper
  run-IsFlowing ss q prints =
      let flows = run-Flows ss new_proxy prints new_proxy-IsFlowing in
      let none_yet : total q (new_proxy {J = J}) ≡ 0 = omega arith in
      (flows.flowing, omega (arith, flows.totals q, none_yet))

  -- When json-c can print every reply: once the mapper's and the response thread have nothing left to do, no
  -- task is left, and for every connection as many replies as it sent requests were put on the response
  -- chain of the server.
  pub run-IsQuiet :
      (ss : List Step) (q : ℕ × ℤ → Bool)
      → IsPrinting json
      → IsQuiet (run new_proxy ss)
      → (idents (run new_proxy ss).req_resp_chain.items ≡ [])
        × (count q (replied_to (run new_proxy ss)) ≡ count q (requested ss))
  run-IsQuiet ss q prints quiet =
      let p = run new_proxy ss in
      let (flowing, totals) = run-IsFlowing ss q prints in
      let left : idents p.req_resp_chain.items ≡ [] =
        flowing.order
        ∙ ap (λ l. l ++ (ident_of p.mapping ++ p.req_chain.items)) quiet.0
        ∙ ap (λ m. ident_of m ++ p.req_chain.items) quiet.1
        ∙ quiet.2 in
      (left, omega (arith, totals, no_addresses q p.req_resp_chain.items left))
