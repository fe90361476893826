-- ===== src/NetServer/Accounts.antt =====
-- What the count of a connection of ADNetServer stands for: its requests that the server or its consumer still
-- has to answer.
use jsonrpc_tcp_srv.Prelude.{
  ℕ, ◌+◌, ◌≤◌, ◌<◌, Bool, true, List, Option, none, some, ◌==◌, count, pos, ◌==ℤ◌, ◌≡◌, ◌⊎◌, Map,
  lookup,
}
use jsonrpc_tcp_srv.Chain.{Chain}
use jsonrpc_tcp_srv.NetServer.{NetServer, NetDataObj, ConnPending}
use jsonrpc_tcp_srv.NetServer.Reuse.{IsNumbered}

-- The request or response is the connection's.
abbrev pub is_of : ℕ → NetDataObj → Bool
is_of c o = o.cltid ==ℤ pos c

abbrev pub has_ident : ℕ → NetDataObj → Bool
has_ident c o = o.ident == c

abbrev pub count_of : Option ConnPending → ℕ
count_of none = 0
count_of (some p) = p.count

-- `pending[c].count`.
abbrev pub counted : ℕ → Map ConnPending → ℕ
counted c m = count_of (lookup c m)

-- The connection's requests that wait, those that the consumer holds, and its responses that wait.
abbrev pub unanswered : ℕ → List NetDataObj → NetServer → ℕ
unanswered c held m =
    count (is_of c) m.request_chain.items
    + count (is_of c) held
    + count (is_of c) m.response_chain.items

-- The records of the connection among those of the clients.
abbrev pub records : ℕ → Chain NetDataObj → ℕ
records c k = count (has_ident c) k.items

-- For the parts of a server, and the requests that its consumer holds: a connection with a record has one, and
-- its count is the number of its unanswered requests; an id that is not given out has neither.
pub record Balanced (held : List NetDataObj) (json : Bool)
    (requests responses clients : Chain NetDataObj) (pending : Map ConnPending) : Type 0 where
  pub json_on : json ≡ true
  pub requests_live : requests.init_flag ≡ true
  pub responses_live : responses.init_flag ≡ true
  pub numbered : IsNumbered clients
  pub single : (c : ℕ) → records c clients ≤ 1
  pub balance :
      (c : ℕ)
      → (records c clients ≡ 0)
        ⊎ (counted c pending
            ≡ count (is_of c) requests.items
              + count (is_of c) held
              + count (is_of c) responses.items)
  pub fresh :
      (c : ℕ)
      → clients.ident_generator < c
      → (counted c pending ≡ 0)
        × (count (is_of c) requests.items + count (is_of c) held + count (is_of c) responses.items
            ≡ 0)

abbrev pub IsBalanced : List NetDataObj → NetServer → Type 0
IsBalanced held m =
    Balanced held m.json_socket m.request_chain m.response_chain m.client_info_chain m.pending
