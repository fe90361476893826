-- ===== src/Proxy/Search.antt =====
-- lib/lib-jsonrpc-tcp/src/ADJsonRpcProxy.cpp: the search for the method of a request.
use jsonrpc_tcp_srv.Prelude.{
  true, false, List, [], ◌∷◌, ◌++◌, none, some, ◌==◌, ==_iff, find_first, All, ◌≡◌, ◌≢◌, refl, ap,
  subst, ◌∙◌, arith, Bool-cases, inl, inr,
}
use jsonrpc_tcp_srv.Framer.{Bytes}
use jsonrpc_tcp_srv.Proxy.{RpcCommand, is_batch, bytes_eq}
use jsonrpc_tcp_srv.Proxy.Methods.{bytes_eq-same}

bytes_eq-≡ : (xs ys : Bytes) → bytes_eq xs ys ≡ true → xs ≡ ys
unfolding bytes_eq
bytes_eq-≡ [] [] e = refl
bytes_eq-≡ [] (y ∷ ys) e = absurd (ground arith)
bytes_eq-≡ (x ∷ xs) [] e = absurd (ground arith)
bytes_eq-≡ (x ∷ xs) (y ∷ ys) e = elim (Bool-cases (x == y)) [
  | inl h ↦
      ap (λ z. z ∷ xs) ((==_iff x y).0 h) ∙ ap (λ zs. y ∷ zs) (bytes_eq-≡ xs ys (ground arith))
  | inr h ↦ absurd (ground arith)
]

bytes_eq-unlike : (xs ys : Bytes) → xs ≢ ys → bytes_eq xs ys ≡ false
bytes_eq-unlike xs ys n = elim (Bool-cases (bytes_eq xs ys)) [
  | inl e ↦ absurd (n (bytes_eq-≡ xs ys e))
  | inr e ↦ e
]

pub is_batch-bracket : (text rest : Bytes) → text ≡ b'[' ∷ rest → is_batch text ≡ true
unfolding is_batch
is_batch-bracket text rest e = ap is_batch e

-- No method of the list has the name.
abbrev pub AreUnlike : Bytes → List RpcCommand → Type 0
AreUnlike name = All (λ c. c.method ≢ name)

pub find-unlike :
    (name : Bytes) (cs : List RpcCommand)
    → AreUnlike name cs
    → find_first (λ c. bytes_eq c.method name) cs ≡ none
find-unlike name [] h = refl
find-unlike name (c ∷ cs) h =
    ground (arith, bytes_eq-unlike c.method name h.0, find-unlike name cs h.1)

pub find-first :
    (name : Bytes) (before : List RpcCommand) (c : RpcCommand) (after : List RpcCommand)
    → AreUnlike name before
    → c.method ≡ name
    → find_first (λ c. bytes_eq c.method name) (before ++ c ∷ after) ≡ some c
find-first name [] c after h e =
    let same : bytes_eq c.method name ≡ true =
      subst (λ n. bytes_eq c.method n ≡ true) e (bytes_eq-same c.method) in
    ground (arith, same)
find-first name (b ∷ before) c after h e =
    ground (arith, bytes_eq-unlike b.method name h.0, find-first name before c after h.1 e)
