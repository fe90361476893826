-- ===== src/RpcMgr/Entries.antt =====
-- lib/lib-jsonrpc-tcp/src/ADJsonRpcMgr.cpp Start: the list of methods that it makes.
use Prim.Native.String.{String}
use jsonrpc_tcp_srv.Prelude.{
  ℕ, zero, suc, ◌+◌, false, List, [], ◌∷◌, ◌++◌, append-nil, append_assoc, Option, some, leb,
  length, find_first, any, take, get_elem?, pos, ◌≡◌, refl, sym, ap, ◌∙◌, arith,
}
use jsonrpc_tcp_srv.Framer.{Bytes}
use jsonrpc_tcp_srv.Proxy.{
  Proxy, RpcCommand, json_rpc_method_name_max_length, attach_rpc_method, bytes_eq,
}
use jsonrpc_tcp_srv.Proxy.Methods.{
  entry_of, entry_of-found, entry_of-other, attach_rpc_method-entry_of, is_named,
}
use jsonrpc_tcp_srv.RpcMgr.{RpcmgrCmd, code_of_cmd, cmd_end, RpcHandler, RpcMgr}
use jsonrpc_tcp_srv.RpcMgr.Lifecycle.{
  bytes_of, builtin_methods, attach_builtins, attach_handlers, attach_methods,
}

-- What the manager's own methods add to the list.
unfoldable pub builtin_entries : List (RpcmgrCmd × String) → List RpcCommand
builtin_entries [] = []
builtin_entries ((cmd, name) ∷ ms) =
    entry_of (bytes_of name) (pos (code_of_cmd cmd)) ++ builtin_entries ms

attach_builtins-entries :
    {J : Type 0} (ms : List (RpcmgrCmd × String)) (p : Proxy J)
    → (attach_builtins ms p).rpc_call_list ≡ p.rpc_call_list ++ builtin_entries ms
unfolding attach_builtins builtin_entries
attach_builtins-entries [] p = sym (append-nil p.rpc_call_list)
attach_builtins-entries ((cmd, name) ∷ ms) p =
    attach_builtins-entries ms (attach_rpc_method p (bytes_of name) (pos (code_of_cmd cmd))).1
    ∙ ap (λ l. l ++ builtin_entries ms)
        (attach_rpc_method-entry_of p (bytes_of name) (pos (code_of_cmd cmd)))
    ∙ append_assoc p.rpc_call_list (entry_of (bytes_of name) (pos (code_of_cmd cmd)))
        (builtin_entries ms)

pub builtin_entries-other :
    (name : Bytes) (ms : List (RpcmgrCmd × String)) (cs : List RpcCommand)
    → any (λ e. bytes_eq (bytes_of e.1) name) ms ≡ false
    → find_first (is_named name) (builtin_entries ms ++ cs) ≡ find_first (is_named name) cs
unfolding builtin_entries
builtin_entries-other name [] cs h = refl
builtin_entries-other name ((cmd, text) ∷ ms) cs h =
    ap (find_first (is_named name))
      (append_assoc (entry_of (bytes_of text) (pos (code_of_cmd cmd))) (builtin_entries ms) cs)
    ∙ entry_of-other name (bytes_of text) (pos (code_of_cmd cmd)) (builtin_entries ms ++ cs)
        (ground arith)
    ∙ builtin_entries-other name ms cs (ground arith)

module _ {J V S : Type 0} where
  -- What the handlers from the `i`-th add.
  pub handler_entries : ℕ → List (RpcHandler J V S) → List RpcCommand
  handler_entries i [] = []
  handler_entries i (h ∷ hs) = entry_of h.rpc_name (pos (i + cmd_end)) ++ handler_entries (i + 1) hs

  attach_handlers-entries :
      (i : ℕ) (hs : List (RpcHandler J V S)) (p : Proxy J)
      → (attach_handlers i hs p).1.rpc_call_list ≡ p.rpc_call_list ++ handler_entries i hs
  unfolding attach_handlers handler_entries
  attach_handlers-entries i [] p = sym (append-nil p.rpc_call_list)
  attach_handlers-entries i (h ∷ hs) p =
      attach_handlers-entries (i + 1) hs (attach_rpc_method p h.rpc_name (pos (i + cmd_end))).1
      ∙ ap (λ l. l ++ handler_entries (i + 1) hs)
          (attach_rpc_method-entry_of p h.rpc_name (pos (i + cmd_end)))
      ∙ append_assoc p.rpc_call_list (entry_of h.rpc_name (pos (i + cmd_end)))
          (handler_entries (i + 1) hs)

  pub handler_entries-find :
      (i j : ℕ) (hs : List (RpcHandler J V S)) (h : RpcHandler J V S)
      → get_elem? hs j ≡ some h
      → leb json_rpc_method_name_max_length (length h.rpc_name) ≡ false
      → any (λ k. bytes_eq k.rpc_name h.rpc_name) (take j hs) ≡ false
      → find_first (is_named h.rpc_name) (handler_entries i hs)
        ≡ some (record { method = h.rpc_name; method_index = pos (i + j + cmd_end) })
  unfolding handler_entries is_named
  handler_entries-find i j [] h e short new = absurd (ground arith)
  handler_entries-find i zero (x ∷ hs) h e short new =
      let is : x ≡ h = ground arith in
      ap
        (λ k.
          find_first (is_named h.rpc_name)
            (entry_of k.rpc_name (pos (i + cmd_end)) ++ handler_entries (i + 1) hs))
        is
      ∙ entry_of-found h.rpc_name (pos (i + cmd_end)) (handler_entries (i + 1) hs) short
      ∙ ap (λ n. some (record { method = h.rpc_name; method_index = pos (n + cmd_end) }))
          (omega arith)
  handler_entries-find i (suc j) (x ∷ hs) h e short new =
      entry_of-other h.rpc_name x.rpc_name (pos (i + cmd_end)) (handler_entries (i + 1) hs)
        (ground arith)
      ∙ handler_entries-find (i + 1) j hs h e short (ground arith)
      ∙ ap (λ n. some (record { method = h.rpc_name; method_index = pos (n + cmd_end) }))
          (omega arith)

  pub attach_handlers-get :
      (i j : ℕ) (hs : List (RpcHandler J V S)) (p : Proxy J) (h : RpcHandler J V S)
      → get_elem? hs j ≡ some h
      → get_elem? (attach_handlers i hs p).0 j
        ≡ some (record h { parent_index = pos (i + j + cmd_end) })
  unfolding attach_handlers
  attach_handlers-get i j [] p h e = absurd (ground arith)
  attach_handlers-get i zero (x ∷ hs) p h e =
      let is : x ≡ h = ground arith in
      let at : RpcHandler J V S → ℕ → Option (RpcHandler J V S) =
        λ k n. some (record k { parent_index = pos (n + cmd_end) }) in
      ap (λ k. at k i) is ∙ ap (at h) (omega arith)
  attach_handlers-get i (suc j) (x ∷ hs) p h e =
      attach_handlers-get (i + 1) j hs (attach_rpc_method p x.rpc_name (pos (i + cmd_end))).1 h e
      ∙ let at : ℕ → Option (RpcHandler J V S) =
          λ n. some (record h { parent_index = pos (n + cmd_end) }) in
        ap at (omega arith)

  -- The list that `Start` makes on a manager with an empty one.
  pub attach_methods-entries :
      (m : RpcMgr J V S)
      → m.proxy.rpc_call_list ≡ []
      → (attach_methods m).proxy.rpc_call_list
        ≡ builtin_entries builtin_methods ++ handler_entries 0 m.rpclist
  unfolding attach_methods
  attach_methods-entries m e =
      attach_handlers-entries 0 m.rpclist (attach_builtins builtin_methods m.proxy)
      ∙ ap (λ l. l ++ handler_entries 0 m.rpclist) (attach_builtins-entries builtin_methods m.proxy)
      ∙ ap (λ l. (l ++ builtin_entries builtin_methods) ++ handler_entries 0 m.rpclist) e

  pub get_elem?-below :
      (i : ℕ) (hs : List (RpcHandler J V S)) (h : RpcHandler J V S)
      → get_elem? hs i ≡ some h
      → leb (length hs) i ≡ false
  get_elem?-below i [] h e = absurd (ground arith)
  get_elem?-below zero (x ∷ hs) h e = ground arith
  get_elem?-below (suc i) (x ∷ hs) h e = ground (arith, get_elem?-below i hs h e)
