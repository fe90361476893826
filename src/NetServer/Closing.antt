-- ===== src/NetServer/Closing.antt =====
-- `close_connection` of ADNetServer keeps the accounts: the record and the count go together.
use jsonrpc_tcp_srv.Prelude.{
  ℕ, zero, suc, ◌-◌, ◌≤◌, ◌<◌, Bool, true, false, List, [], ◌∷◌, some, ◌==◌, ==_iff, count, length,
  ◌≡◌, refl, ap, sym, subst, ◌∙◌, arith, Bool-cases, Option-cases, inl, inr, erase,
  lookup-erase_other, find_first, remove_first,
}
use jsonrpc_tcp_srv.Chain.{Chain, chain_remove_by_ident}
use jsonrpc_tcp_srv.Chain.Lists.{count-remove_first}
use jsonrpc_tcp_srv.NetServer.{
  NetServer, NetDataObj, identify, get_client_info, deregister_loop, deregister_client_info,
}
use jsonrpc_tcp_srv.NetServer.Listen.{close_connection}
use jsonrpc_tcp_srv.NetServer.Reuse.{close_connection-IsCleared}
use jsonrpc_tcp_srv.NetServer.Accounts.{has_ident, counted, count_of, records, IsBalanced}
use jsonrpc_tcp_srv.NetServer.Claims.{get_client_info-known}

deregister_loop-count :
    (p : NetDataObj → Bool) (fuel : ℕ) (c : Chain NetDataObj) (fd : ℕ)
    → count p (deregister_loop fuel c fd).items ≤ count p c.items
unfolding deregister_loop chain_remove_by_ident
deregister_loop-count p zero c fd = omega arith
deregister_loop-count p (suc fuel) c fd = elim (Option-cases (find_first (identify fd) c.items)) [
  | inl e ↦ ground arith
  | inr (o, e) ↦
      let c' : Chain NetDataObj = record c {
        items = remove_first (identify fd) c.items;
        chain_size = c.chain_size - 1;
      } in
      ground (
        arith,
        e,
        deregister_loop-count p fuel c' fd,
        count-remove_first p (identify fd) c.items o e,
      )
]

-- The record that the descriptor finds leaves.
deregister_loop-found :
    (fuel : ℕ) (c : Chain NetDataObj) (fd : ℕ) (o : NetDataObj)
    → c.init_flag ≡ true
    → c.attached ≡ true
    → find_first (identify fd) c.items ≡ some o
    → records o.ident c ≤ 1
    → records o.ident (deregister_loop (suc fuel) c fd) ≡ 0
unfolding deregister_loop chain_remove_by_ident
deregister_loop-found fuel c fd o l a e le =
    let c' : Chain NetDataObj = record c {
      items = remove_first (identify fd) c.items;
      chain_size = c.chain_size - 1;
    } in
    let own : has_ident o.ident o ≡ true = (==_iff o.ident o.ident).1 refl in
    ground (
      arith,
      l,
      a,
      e,
      own,
      le,
      deregister_loop-count (has_ident o.ident) fuel c' fd,
      count-remove_first (has_ident o.ident) (identify fd) c.items o e,
    )

deregister_all-found :
    (c : Chain NetDataObj) (fd : ℕ) (o : NetDataObj)
    → c.init_flag ≡ true
    → c.attached ≡ true
    → find_first (identify fd) c.items ≡ some o
    → records o.ident c ≤ 1
    → (os : List NetDataObj) → c.items ≡ os
    → records o.ident (deregister_loop (length os) c fd) ≡ 0
deregister_all-found c fd o l a e le [] z = absurd (ground arith)
deregister_all-found c fd o l a e le (x ∷ xs) z = deregister_loop-found (length xs) c fd o l a e le

close_connection-records :
    (m : NetServer) (fd c : ℕ)
    → records c (close_connection m fd).client_info_chain ≤ records c m.client_info_chain
unfolding close_connection deregister_client_info
close_connection-records m fd c =
    deregister_loop-count (has_ident c) (length m.client_info_chain.items) m.client_info_chain fd

pub close_connection-IsBalanced :
    (held : List NetDataObj) (m : NetServer) (fd : ℕ)
    → IsBalanced held m
    → IsBalanced held (close_connection m fd)
unfolding close_connection deregister_client_info
close_connection-IsBalanced held m fd b =
    let cleared = close_connection-IsCleared m fd b.numbered in
    let fewer = close_connection-records m fd in
    elim (Option-cases (get_client_info m fd)) [
      | inl e ↦
          let is : m.pending ≡ (close_connection m fd).pending = ground arith in
          record {
            json_on = b.json_on;
            requests_live = b.requests_live;
            responses_live = b.responses_live;
            numbered = cleared.kept;
            single = λ c. omega (arith, fewer c, b.single c);
            balance = λ c. elim (b.balance c) [
              | inl z ↦ inl (omega (arith, z, fewer c))
              | inr h ↦ inr (ap (counted c) (sym is) ∙ h)
            ];
            fresh = λ c above.
                let old = b.fresh c (omega (arith, above, cleared.ident)) in
                (ap (counted c) (sym is) ∙ old.0, old.1);
          }
      | inr ((ip, port, k), e) ↦
          let (o, found, ident, _, le) = get_client_info-known m fd ip port k b.numbered e in
          let is : erase k m.pending ≡ (close_connection m fd).pending = ground arith in
          let gone : records k (close_connection m fd).client_info_chain ≡ 0 =
            subst (λ i. records i (close_connection m fd).client_info_chain ≡ 0) ident
              (deregister_all-found m.client_info_chain fd o b.numbered.live b.numbered.attached
                found (b.single o.ident) m.client_info_chain.items refl) in
          let other : (c : ℕ)
              → (c == k) ≡ false
              → counted c (close_connection m fd).pending ≡ counted c m.pending =
            λ c u. ap (counted c) (sym is) ∙ ap count_of (lookup-erase_other c k m.pending u) in
          record {
            json_on = b.json_on;
            requests_live = b.requests_live;
            responses_live = b.responses_live;
            numbered = cleared.kept;
            single = λ c. omega (arith, fewer c, b.single c);
            balance = λ c. elim (Bool-cases (c == k)) [
              | inl t ↦ inl (
                  subst (λ i. records i (close_connection m fd).client_info_chain ≡ 0)
                    (sym ((==_iff c k).0 t)) gone)
              | inr t ↦ elim (b.balance c) [
                | inl z ↦ inl (omega (arith, z, fewer c))
                | inr h ↦ inr (other c t ∙ h)
              ]
            ];
            fresh = λ c above.
                let over : m.client_info_chain.ident_generator < c =
                  omega (arith, above, cleared.ident) in
                let old = b.fresh c over in (other c (ground (arith, over, le)) ∙ old.0, old.1);
          }
    ]
