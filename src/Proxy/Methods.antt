-- ===== src/Proxy/Methods.antt =====
-- lib/lib-jsonrpc-tcp/src/ADJsonRpcProxy.cpp: the list of methods and the search in it.
use jsonrpc_tcp_srv.Prelude.{
  Bool, true, false, List, [], ◌∷◌, ◌++◌, append-nil, some, leb, ==_iff, if◌then◌else◌, length,
  find_first, ℤ, ◌≡◌, refl, sym, arith, Bool-cases, inl, inr,
}
use jsonrpc_tcp_srv.Framer.{Bytes}
use jsonrpc_tcp_srv.Proxy.{
  Proxy, RpcCommand, json_rpc_method_name_max_length, attach_rpc_method, is_this_method_registered,
  bytes_eq,
}

-- What an attached method adds to the list: nothing when its name is too long.
unfoldable pub entry_of : Bytes → ℤ → List RpcCommand
entry_of name index =
    if leb json_rpc_method_name_max_length (length name)
    then []
    else record { method = name; method_index = index } ∷ []

pub attach_rpc_method-entry_of :
    {J : Type 0} (p : Proxy J) (name : Bytes) (index : ℤ)
    → (attach_rpc_method p name index).1.rpc_call_list ≡ p.rpc_call_list ++ entry_of name index
unfolding attach_rpc_method entry_of
attach_rpc_method-entry_of p name index =
    elim (Bool-cases (leb json_rpc_method_name_max_length (length name))) [
      | inl e ↦ rw e (sym (append-nil p.rpc_call_list))
      | inr e ↦ rw e refl
    ]

-- The test of the search.
unfoldable pub is_named : Bytes → RpcCommand → Bool
unfolding bytes_eq
is_named name c = bytes_eq c.method name

pub bytes_eq-same : (s : Bytes) → bytes_eq s s ≡ true
unfolding bytes_eq
bytes_eq-same [] = refl
bytes_eq-same (x ∷ xs) = ground (arith, (==_iff x x).1 refl, bytes_eq-same xs)

pub entry_of-other :
    (name other : Bytes) (index : ℤ) (cs : List RpcCommand)
    → bytes_eq other name ≡ false
    → find_first (is_named name) (entry_of other index ++ cs) ≡ find_first (is_named name) cs
unfolding entry_of is_named
entry_of-other name other index cs h =
    elim (Bool-cases (leb json_rpc_method_name_max_length (length other))) [
      | inl e ↦ rw e refl
      | inr e ↦ rw (e, h) refl
    ]

pub is_this_method_registered-is_named :
    {J : Type 0} (p : Proxy J) (name : Bytes)
    → is_this_method_registered p name ≡ find_first (is_named name) p.rpc_call_list
unfolding is_this_method_registered is_named
is_this_method_registered-is_named p name = refl

pub entry_of-found :
    (name : Bytes) (index : ℤ) (cs : List RpcCommand)
    → leb json_rpc_method_name_max_length (length name) ≡ false
    → find_first (is_named name) (entry_of name index ++ cs)
      ≡ some (record { method = name; method_index = index })
unfolding entry_of is_named
entry_of-found name index cs e = rw (e, bytes_eq-same name) refl
