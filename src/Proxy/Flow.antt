-- ===== src/Proxy/Flow.antt =====
-- The flow of tasks through the chains of ADJsonRpcProxy and ADJsonRpcMapper: what it is, and what a
-- request and a response do to it.
use jsonrpc_tcp_srv.Prelude.{
  ℕ, ◌+◌, ◌-◌, Bool, true, List, [], ◌∷◌, ◌++◌, Option, none, some, count, count-append, ℤ, ◌≡◌,
  refl, ap, sym, ◌∙◌, arith,
}
use jsonrpc_tcp_srv.Chain.{
  Chain, chain_get, get_from, top_of, chain_remove, remove_head, chain_remove_by_ident, unlink,
}
use jsonrpc_tcp_srv.Proxy.{Proxy, ApiTaskObj}
use jsonrpc_tcp_srv.Proxy.Branches.{IsLive}
use jsonrpc_tcp_srv.Proxy.Replies.{address_of, addresses, task_addresses, IsReplied}

abbrev pub idents : {J : Type 0} → List (ApiTaskObj J) → List ℕ
idents [] = []
idents (t ∷ ts) = t.ident ∷ idents ts

abbrev pub ident_of : Option ℕ → List ℕ
ident_of none = []
ident_of (some i) = i ∷ []

module _ {ℓ} {A : Type ℓ} where
  pub chain_get-empty : (c : Chain A) → c.init_flag ≡ true → c.items ≡ [] → chain_get c ≡ (none, c)
  unfolding chain_get get_from top_of
  chain_get-empty c l e = ground arith

  pub chain_get-cons :
      (c : Chain A) (a : A) (rest : List A)
      → c.init_flag ≡ true
      → c.items ≡ a ∷ rest
      → chain_get c ≡ (some a, record c { items = rest; chain_size = c.chain_size - 1 })
  unfolding chain_get get_from top_of chain_remove remove_head
  chain_get-cons c a rest l e = ground arith

  pub chain_remove-head :
      {I : Type 0} {i : I} (identify : I → A → Bool) (c : Chain A) (a : A) (rest : List A)
      → c.init_flag ≡ true
      → c.attached ≡ true
      → c.items ≡ a ∷ rest
      → identify i a ≡ true
      → chain_remove_by_ident identify c i
        ≡ (some a, record c { items = rest; chain_size = c.chain_size - 1 })
  unfolding chain_remove_by_ident unlink
  chain_remove-head identify c a rest l h e hit = ground arith

abbrev pub tail_of : List ℕ → List ℕ
tail_of [] = []
tail_of (i ∷ is) = is

abbrev head_or_zero : List ℕ → ℕ
head_or_zero [] = 0
head_or_zero (i ∷ is) = i

pub no_addresses :
    {J : Type 0} (q : ℕ × ℤ → Bool) (ts : List (ApiTaskObj J))
    → idents ts ≡ []
    → count q (task_addresses ts) ≡ 0
no_addresses q [] e = refl
no_addresses q (t ∷ ts) e = absurd (ground arith)

pub same_head : (i j : ℕ) (is js : List ℕ) → i ∷ is ≡ j ∷ js → i ≡ j
same_head i j is js e = ap head_or_zero e

module _ {J : Type 0} where
  -- The tasks are those of the idents that wait for their response, at the mapper, and before it, in
  -- this order.
  pub record IsFlowing (p : Proxy J) : Type 0 where
    pub live : IsLive p
    pub order :
        idents p.req_resp_chain.items
        ≡ p.resp_chain.items ++ (ident_of p.mapping ++ p.req_chain.items)

  -- The replies and the tasks of the connections that pass a test.
  unfoldable pub total : (ℕ × ℤ → Bool) → Proxy J → ℕ
  total q p =
      count q (addresses p.server_socket.response_chain.items)
      + count q (task_addresses p.req_resp_chain.items)

  -- A step keeps the flow, and adds the connections `new` to the replies and tasks.
  pub record Flows (p : Proxy J) (new : List (ℕ × ℤ)) (p' : Proxy J) : Type 0 where
    pub flowing : IsFlowing p'
    pub totals : (q : ℕ × ℤ → Bool) → total q p' ≡ total q p + count q new

  pub task_addresses-append :
      (xs ys : List (ApiTaskObj J))
      → task_addresses (xs ++ ys) ≡ task_addresses xs ++ task_addresses ys
  task_addresses-append [] ys = refl
  task_addresses-append (x ∷ xs) ys = ap (◌∷◌ (address_of x.net_data)) (task_addresses-append xs ys)

  pub idents-append : (xs ys : List (ApiTaskObj J)) → idents (xs ++ ys) ≡ idents xs ++ idents ys
  idents-append [] ys = refl
  idents-append (x ∷ xs) ys = ap (◌∷◌ x.ident) (idents-append xs ys)

  replied-IsLive :
      (p : Proxy J) (address : ℕ × ℤ) (p' : Proxy J) → IsLive p → IsReplied p address p' → IsLive p'
  replied-IsLive p address p' h r = record {
    tasks_live = ap (λ c. c.init_flag) r.tasks ∙ h.tasks_live;
    tasks_attached = ap (λ c. c.attached) r.tasks ∙ h.tasks_attached;
    resp_live = ap (λ c. c.init_flag) r.resp ∙ h.resp_live;
    req_live = ap (λ c. c.init_flag) r.req ∙ h.req_live;
    server_live = r.server_live;
  }

  pub replied-Flows :
      (p : Proxy J) (address : ℕ × ℤ) (p' : Proxy J)
      → IsFlowing p
      → IsReplied p address p'
      → Flows p (address ∷ []) p'
  unfolding total
  replied-Flows p address p' h r = record {
    flowing = record {
      live = replied-IsLive p address p' h.live r;
      order =
          ap (λ c. idents c.items) r.tasks
          ∙ h.order
          ∙ ap (λ c. c.items ++ (ident_of p.mapping ++ p.req_chain.items)) (sym r.resp)
          ∙ ap (λ m. p'.resp_chain.items ++ (ident_of m ++ p.req_chain.items)) (sym r.mapping)
          ∙ ap (λ c. p'.resp_chain.items ++ (ident_of p'.mapping ++ c.items)) (sym r.req);
    };
    totals = λ q. omega (
      arith,
      ap (count q) r.sent,
      count-append q (addresses p.server_socket.response_chain.items) (address ∷ []),
      ap (λ c. count q (task_addresses c.items)) r.tasks,
    );
  }
