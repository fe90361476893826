-- ===== src/RpcMgr/Methods.antt =====
-- lib/lib-jsonrpc-tcp/src/ADJsonRpcMgr.cpp Start: every method is found under its name.
use jsonrpc_tcp_srv.Prelude.{
  ℕ, zero, suc, ◌+◌, true, false, List, [], ◌∷◌, ◌++◌, Option, none, some, leb, length, find_first,
  any, take, get_elem?, All, pos, ◌≡◌, refl, sym, ap, subst, ◌∙◌, arith,
}
use jsonrpc_tcp_srv.Framer.{Bytes}
use jsonrpc_tcp_srv.Proxy.{
  RpcCommand, json_rpc_method_name_max_length, is_this_method_registered, bytes_eq,
}
use jsonrpc_tcp_srv.Proxy.Methods.{entry_of, is_named, is_this_method_registered-is_named}
use jsonrpc_tcp_srv.RpcMgr.{
  all_cmds, code_of_cmd, cmd_of, cmd_end, RpcHandler, RpcMgr, get_rpc_handler,
}
use jsonrpc_tcp_srv.RpcMgr.Requests.{handler_for, handler_at, handler_index}
use jsonrpc_tcp_srv.RpcMgr.Lifecycle.{bytes_of, builtin_methods, attach_builtins, attach_methods}
use jsonrpc_tcp_srv.RpcMgr.Entries.{
  builtin_entries, builtin_entries-other, handler_entries, handler_entries-find,
  attach_handlers-get, attach_methods-entries, get_elem?-below,
}

module _ {J V S : Type 0} where
  builtin :
      {c : Option RpcCommand} (m : RpcMgr J V S)
      → m.proxy.rpc_call_list ≡ []
      → (name : Bytes)
      → find_first (is_named name) (builtin_entries builtin_methods ++ handler_entries 0 m.rpclist)
        ≡ c
      → is_this_method_registered (attach_methods m).proxy name ≡ c
  builtin m e name found =
      is_this_method_registered-is_named (attach_methods m).proxy name
      ∙ ap (find_first (is_named name)) (attach_methods-entries m e)
      ∙ found

  -- Whatever the attached handlers, once `Start` has attached the methods of a manager whose list was
  -- empty, each method of the manager's own is found under its name with its command.
  pub is_this_method_registered-builtin :
      (m : RpcMgr J V S)
      → m.proxy.rpc_call_list ≡ []
      → All
          (λ e.
            (is_this_method_registered (attach_methods m).proxy (bytes_of e.1)
              ≡ some (record { method = bytes_of e.1; method_index = pos (code_of_cmd e.0) }))
            × (cmd_of (pos (code_of_cmd e.0)) ≡ some e.0))
          builtin_methods
  unfolding builtin_entries entry_of is_named bytes_eq code_of_cmd cmd_of
  is_this_method_registered-builtin m e = (
    (builtin m e _ refl, refl),
    (
      (builtin m e _ refl, refl),
      (
        (builtin m e _ refl, refl),
        (
          (builtin m e _ refl, refl),
          (
            (builtin m e _ refl, refl),
            (
              (builtin m e _ refl, refl),
              (
                (builtin m e _ refl, refl),
                (
                  (builtin m e _ refl, refl),
                  (
                    (builtin m e _ refl, refl),
                    (
                      (builtin m e _ refl, refl),
                      (
                        (builtin m e _ refl, refl),
                        (
                          (builtin m e _ refl, refl),
                          (
                            (builtin m e _ refl, refl),
                            (
                              (builtin m e _ refl, refl),
                              (
                                (builtin m e _ refl, refl),
                                (
                                  (builtin m e _ refl, refl),
                                  (
                                    (builtin m e _ refl, refl),
                                    (
                                      (builtin m e _ refl, refl),
                                      (
                                        (builtin m e _ refl, refl),
                                        (
                                          (builtin m e _ refl, refl),
                                          (
                                            (builtin m e _ refl, refl),
                                            (
                                              (builtin m e _ refl, refl),
                                              (
                                                (builtin m e _ refl, refl),
                                                ((builtin m e _ refl, refl), tt),
                                              ),
                                            ),
                                          ),
                                        ),
                                      ),
                                    ),
                                  ),
                                ),
                              ),
                            ),
                          ),
                        ),
                      ),
                    ),
                  ),
                ),
              ),
            ),
          ),
        ),
      ),
    ),
  )

get_elem?-beyond :
    {A : Type 0} (xs : List A) (n : ℕ) → leb (length xs) n ≡ true → get_elem? xs n ≡ none
get_elem?-beyond [] n h = refl
get_elem?-beyond (x ∷ xs) zero h = absurd (ground arith)
get_elem?-beyond (x ∷ xs) (suc n) h = get_elem?-beyond xs n (ground arith)

module _ {J V S : Type 0} where
  handler_for-get :
      (m : RpcMgr J V S) (i : ℕ) (k : RpcHandler J V S)
      → get_elem? m.rpclist i ≡ some k
      → handler_for m (pos (i + cmd_end)) ≡ some k
  unfolding handler_for handler_at get_rpc_handler
  handler_for-get m i k e =
      let at : handler_index (pos (i + cmd_end)) ≡ pos i = ground arith in
      subst (λ j. handler_at m j ≡ some k) (sym at) (rw (get_elem?-below i m.rpclist k e, e) refl)

  -- Once `Start` has attached the methods of a manager whose list was empty, an attached handler whose name
  -- is short enough, is no name of the manager's own and no name of a handler before it is found under its
  -- name with a command that is not of the manager's own, and the requests for that command are its.
  pub handler_for-attach_methods :
      (m : RpcMgr J V S) (i : ℕ) (h : RpcHandler J V S)
      → m.proxy.rpc_call_list ≡ []
      → get_elem? m.rpclist i ≡ some h
      → leb json_rpc_method_name_max_length (length h.rpc_name) ≡ false
      → any (λ e. bytes_eq (bytes_of e.1) h.rpc_name) builtin_methods ≡ false
      → any (λ k. bytes_eq k.rpc_name h.rpc_name) (take i m.rpclist) ≡ false
      → let index = pos (i + cmd_end) in
        (is_this_method_registered (attach_methods m).proxy h.rpc_name
          ≡ some (record { method = h.rpc_name; method_index = index }))
        × (cmd_of index ≡ none)
        × (handler_for (attach_methods m) index ≡ some (record h { parent_index = index }))
  unfolding attach_methods cmd_of
  handler_for-attach_methods m i h empty at short other new =
      let index = pos (i + cmd_end) in
      let p = attach_builtins builtin_methods m.proxy in
      let at_index : ℕ → RpcHandler J V S = λ n. record h { parent_index = pos (n + cmd_end) } in
      (
        is_this_method_registered-is_named (attach_methods m).proxy h.rpc_name
            ∙ ap (find_first (is_named h.rpc_name)) (attach_methods-entries m empty)
            ∙ builtin_entries-other h.rpc_name builtin_methods (handler_entries 0 m.rpclist) other
            ∙ handler_entries-find 0 i m.rpclist h at short new
            ∙ ap (λ n. some (record { method = h.rpc_name; method_index = pos (n + cmd_end) }))
                (omega arith),
        get_elem?-beyond all_cmds (i + cmd_end) (ground arith),
        handler_for-get (attach_methods m) i (record h { parent_index = index })
            (attach_handlers-get 0 i m.rpclist p h at ∙ ap (λ n. some (at_index n)) (omega arith)),
      )
