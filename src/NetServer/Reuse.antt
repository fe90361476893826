-- ===== src/NetServer/Reuse.antt =====
-- A descriptor of ADNetServer that a new connection gets again: the responses to the old connection.
use jsonrpc_tcp_srv.Prelude.{
  ℕ, zero, suc, ◌+◌, ◌-◌, ◌≤◌, ◌<◌, Bool, true, List, [], ◌∷◌, ◌++◌, Option, none, some, ==_iff,
  length, find_first, remove_first, All, ℤ, pos, minus_one, ◌≡◌, refl, ap, subst, ◌∙◌, arith,
  Bool-cases, Option-cases, inl, inr,
}
use Prim.Native.String.{String}
use jsonrpc_tcp_srv.Chain.{
  Chain, chain_remove_by_ident, chain_get_by_ident, chain_put, chain_add, chain_generate_ident,
}
use jsonrpc_tcp_srv.Chain.Lists.{length-remove_first}
use jsonrpc_tcp_srv.NetServer.{
  NetServer, NetDataObj, identify, get_client_info, register_client_info, deregister_loop,
  deregister_client_info, connection_dead,
}
use jsonrpc_tcp_srv.NetServer.Listen.{
  accept_client, print_client_info, watch, close_connection, fd_setsize,
}
use jsonrpc_tcp_srv.NetServer.Sending.{dup_if_same_client}

-- A live chain of client records, numbered by its generator.
pub record IsNumbered (c : Chain NetDataObj) : Type 0 where
  pub live : c.init_flag ≡ true
  pub attached : c.attached ≡ true
  pub numbered : All (λ o. o.ident ≤ c.ident_generator) c.items

All-remove_first {ℓ κ} :
    {A : Type ℓ} (P : A → Type κ) (q : A → Bool) (xs : List A)
    → All P xs
    → All P (remove_first q xs)
All-remove_first P q [] h = h
All-remove_first P q (x ∷ xs) h = elim (Bool-cases (q x)) [
  | inl e ↦ let is : xs ≡ remove_first q (x ∷ xs) = ground arith in subst (All P) is h.1
  | inr e ↦
      let is : x ∷ remove_first q xs ≡ remove_first q (x ∷ xs) = ground arith in
      subst (All P) is (h.0, All-remove_first P q xs h.1)
]

-- No record of the descriptor is left, and the numbering goes on.
pub record IsCleared (c : Chain NetDataObj) (fd : ℕ) (c' : Chain NetDataObj) : Type 0 where
  pub kept : IsNumbered c'
  pub ident : c'.ident_generator ≡ c.ident_generator
  pub none_left : find_first (identify fd) c'.items ≡ none

empty-find {ℓ} : {A : Type ℓ} (q : A → Bool) (xs : List A) → length xs ≤ 0 → find_first q xs ≡ none
empty-find q [] le = refl
empty-find q (x ∷ xs) le = absurd (omega (arith, le))

deregister_loop-IsCleared :
    (fuel : ℕ) (c : Chain NetDataObj) (fd : ℕ)
    → length c.items ≤ fuel
    → IsNumbered c
    → IsCleared c fd (deregister_loop fuel c fd)
unfolding deregister_loop chain_remove_by_ident
deregister_loop-IsCleared zero c fd le h = record {
  kept = h;
  ident = refl;
  none_left = empty-find (identify fd) c.items le;
}
deregister_loop-IsCleared (suc fuel) c fd le h =
    elim (Option-cases (find_first (identify fd) c.items)) [
      | inl e ↦
          let is : c ≡ deregister_loop (suc fuel) c fd = ground arith in
          let done : IsCleared c fd c = record { kept = h; ident = refl; none_left = e } in
          subst (IsCleared c fd) is done
      | inr (o, e) ↦
          let c' : Chain NetDataObj = record c {
            items = remove_first (identify fd) c.items;
            chain_size = c.chain_size - 1;
          } in
          let kept : IsNumbered c' = record {
            live = h.live;
            attached = h.attached;
            numbered =
                All-remove_first (λ x. x.ident ≤ c.ident_generator) (identify fd) c.items
                  h.numbered;
          } in
          let rest =
            deregister_loop-IsCleared fuel c' fd
              (omega (arith, le, length-remove_first (identify fd) c.items o e)) kept in
          let is : deregister_loop fuel c' fd ≡ deregister_loop (suc fuel) c fd = ground arith in
          let done : IsCleared c fd (deregister_loop fuel c' fd) = record {
            kept = rest.kept;
            ident = rest.ident;
            none_left = rest.none_left;
          } in
          subst (IsCleared c fd) is done
    ]

find_first-one {ℓ} :
    {A : Type ℓ} (q : A → Bool) (xs : List A) (x : A)
    → find_first q xs ≡ none
    → q x ≡ true
    → find_first q (xs ++ x ∷ []) ≡ some x
find_first-one q [] x n h = ground arith
find_first-one q (y ∷ xs) x n h = elim (Bool-cases (q y)) [
  | inl e ↦ absurd (ground arith)
  | inr e ↦ ground (arith, find_first-one q xs x (ground arith) h)
]

-- The record that a registration puts is the one that its descriptor finds.
get_client_info-register_client_info :
    (m : NetServer) (fd : ℕ) (port : ℤ) (ip : String)
    → IsNumbered m.client_info_chain
    → find_first (identify fd) m.client_info_chain.items ≡ none
    → get_client_info (register_client_info m fd port ip).1 fd
      ≡ some (ip, port, m.client_info_chain.ident_generator + 1)
unfolding get_client_info register_client_info chain_get_by_ident chain_put chain_add
    chain_generate_ident
get_client_info-register_client_info m fd port ip h n =
    let obj : NetDataObj = record {
      ident = m.client_info_chain.ident_generator + 1;
      sock_descriptor = fd;
      port = port;
      ip = ip;
      cltid = minus_one;
      data_buffer = [];
    } in
    let found =
      find_first-one (identify fd) m.client_info_chain.items obj n ((==_iff fd fd).1 refl) in
    ground (arith, h.live, h.attached, found)

find_first-All {ℓ κ} :
    {A : Type ℓ} (P : A → Type κ) (q : A → Bool) (xs : List A) (a : A)
    → find_first q xs ≡ some a
    → All P xs
    → P a
find_first-All P q [] a e h = cc
find_first-All P q (x ∷ xs) a e h = elim (Bool-cases (q x)) [
  | inl k ↦ let is : x ≡ a = ground arith in subst P is h.0
  | inr k ↦ find_first-All P q xs a (ground arith) h.1
]

-- An id that is known was generated.
get_client_info-le :
    (m : NetServer) (fd : ℕ) (ip : String) (port : ℤ) (c : ℕ)
    → IsNumbered m.client_info_chain
    → get_client_info m fd ≡ some (ip, port, c)
    → c ≤ m.client_info_chain.ident_generator
unfolding get_client_info chain_get_by_ident
get_client_info-le m fd ip port c h e =
    let k = m.client_info_chain in
    elim (Option-cases (find_first (identify fd) k.items)) [
      | inl n ↦ absurd (ground arith)
      | inr (o, f) ↦
          let le =
            find_first-All (λ x. x.ident ≤ k.ident_generator) (identify fd) k.items o f
              h.numbered in
          ground (arith, h.attached, le)
    ]

pub close_connection-IsCleared :
    (m : NetServer) (fd : ℕ)
    → IsNumbered m.client_info_chain
    → IsCleared m.client_info_chain fd (close_connection m fd).client_info_chain
unfolding close_connection deregister_client_info
close_connection-IsCleared m fd h =
    deregister_loop-IsCleared (length m.client_info_chain.items) m.client_info_chain fd
      (omega arith) h

get_client_info-chain :
    (m m' : NetServer) (fd : ℕ)
    → m.client_info_chain ≡ m'.client_info_chain
    → get_client_info m fd ≡ get_client_info m' fd
unfolding get_client_info
get_client_info-chain m m' fd e =
    ap
      (λ c. elim (chain_get_by_ident identify c fd) [
        | none ↦ none
        | some info ↦ some (info.ip, info.port, info.ident)
      ])
      e

accepted_info :
    (m : NetServer) (fd : ℕ) (peer : Option (ℤ × String))
    → IsNumbered m.client_info_chain
    → find_first (identify fd) m.client_info_chain.items ≡ none
    → fd < fd_setsize
    → (ip : String) × (port : ℤ) × (get_client_info (accept_client m fd peer) fd
        ≡ some (ip, port, m.client_info_chain.ident_generator + 1))
unfolding accept_client print_client_info watch
accepted_info m fd none h n lt =
    let is = get_client_info-register_client_info m fd minus_one "" h n in
    let chain : (accept_client m fd none).client_info_chain
        ≡ (register_client_info m fd minus_one "").1.client_info_chain =
      ground arith in
    (
      "",
      minus_one,
      get_client_info-chain (accept_client m fd none) (register_client_info m fd minus_one "").1 fd
            chain
          ∙ is,
    )
accepted_info m fd (some (port, ip)) h n lt =
    let is = get_client_info-register_client_info m fd port ip h n in
    let chain : (accept_client m fd (some (port, ip))).client_info_chain
        ≡ (register_client_info m fd port ip).1.client_info_chain =
      ground arith in
    (
      ip,
      port,
      get_client_info-chain (accept_client m fd (some (port, ip)))
            (register_client_info m fd port ip).1 fd chain
          ∙ is,
    )

-- When a connection is closed and its descriptor is given to a new one, which has an id above the
-- old one's, no response to the old connection finds a descriptor to go to any more.
pub dup_if_same_client-accept_client :
    (m : NetServer) (fd : ℕ) (ip : String) (port : ℤ) (c : ℕ) (peer : Option (ℤ × String))
    (alive : Bool) (dup_fd : Option ℕ)
    → IsNumbered m.client_info_chain
    → fd < fd_setsize
    → get_client_info m fd ≡ some (ip, port, c)
    → let m' = accept_client (close_connection m fd) fd peer in
      ((info : String × ℤ × ℕ) × (get_client_info m' fd ≡ some info) × (c < info.2))
      × (dup_if_same_client m' fd (pos c) alive dup_fd ≡ none)
unfolding dup_if_same_client
dup_if_same_client-accept_client m fd ip port c peer alive dup_fd h lt e =
    let cleared = close_connection-IsCleared m fd h in
    let closed = close_connection m fd in
    let m' = accept_client closed fd peer in
    let (ip', port', known) = accepted_info closed fd peer cleared.kept cleared.none_left lt in
    let above : c < closed.client_info_chain.ident_generator + 1 =
      omega (arith, cleared.ident, get_client_info-le m fd ip port c h e) in
    (
      ((ip', port', closed.client_info_chain.ident_generator + 1), known, above),
      elim (Bool-cases (connection_dead m' (pos c))) [
        | inl d ↦ ground arith
        | inr d ↦ ground (arith, known, above)
      ],
    )
