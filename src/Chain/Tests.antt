-- ===== src/Chain/Tests.antt =====
-- The chain's properties at concrete calls.
use jsonrpc_tcp_srv.Prelude.{
  ℕ, ◌+◌, ◌==◌, Bool, true, false, List, [], ◌∷◌, count, ◌≡◌, refl, arith,
}
use jsonrpc_tcp_srv.Chain.{Chain, new_chain}
use jsonrpc_tcp_srv.Chain.Calls.{
  Call, attach, put, get, remove_by, generate, clear, IsValid, effects, effects-new_chain-IsValid,
  effects_conserve,
}
use jsonrpc_tcp_srv.Chain.Idents.{Rising, idents, idents-Rising}

-- Elements are their own idents.
abbrev same : ℕ → ℕ → Bool
same i a = i == a

abbrev three : Chain ℕ
three = record {
  items = 4 ∷ 7 ∷ 4 ∷ [];
  chain_size = 3;
  chain_peak_size = 3;
  ident_generator = 2;
  init_flag = true;
  attached = true;
  disable_autoremove = false;
}

abbrev queue_calls : List (Call ℕ ℕ)
queue_calls = put 1 ∷ get ∷ generate ∷ put 2 ∷ get ∷ clear ∷ []

abbrev mixed_calls : List (Call ℕ ℕ)
mixed_calls = attach ∷ put 1 ∷ put 7 ∷ remove_by 7 ∷ get ∷ []

effects-new_chain-IsValid_example : IsValid (effects same new_chain mixed_calls).chain
effects-new_chain-IsValid_example = effects-new_chain-IsValid same mixed_calls

effects_conserve_example :
    let r = effects same three mixed_calls in
    count (same 4) (4 ∷ 7 ∷ 4 ∷ []) + count (same 4) r.taken
    ≡ count (same 4) r.given + count (same 4) r.chain.items
effects_conserve_example =
    effects_conserve same three mixed_calls (same 4) (record { sized = refl; peak = omega arith })
      refl

idents-Rising_example : Rising same 2 (idents same three queue_calls)
idents-Rising_example = idents-Rising same three queue_calls (tt, (tt, (tt, (tt, (tt, (tt, tt))))))
