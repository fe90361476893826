-- ===== src/NetServer/System.antt =====
-- ADNetServer with its two threads and its consumer, in any order of their steps.
use jsonrpc_tcp_srv.Prelude.{
  ℕ, ◌≤◌, ◌<◌, false, List, [], ◌∷◌, ◌++◌, Option, none, some, get_elem?, ℤ, refl, subst, sym, ◌≡◌,
  ◌⊎◌, inl, inr, Option-cases, arith,
}
use Prim.Native.String.{String}
use jsonrpc_tcp_srv.Framer.{Bytes}
use jsonrpc_tcp_srv.Chain.{new_chain, attach_helper, chain_get}
use jsonrpc_tcp_srv.Chain.Calls.{from_option}
use jsonrpc_tcp_srv.NetServer.{
  NetServer, NetDataObj, new_net_server, register_client_info, pending_of, max_pending_per_conn,
}
use jsonrpc_tcp_srv.NetServer.Listen.{
  Recv, accept_client, print_client_info, watch, read_connection, resume_paused_connections,
}
use jsonrpc_tcp_srv.NetServer.Sending.{SendEnv, schedule_response, respond}
use jsonrpc_tcp_srv.NetServer.Pending.{IsBounded, pending_of-IsBoundedConn}
use jsonrpc_tcp_srv.NetServer.Reading.{
  IsBoundedServer, read_connection-IsBounded, resume_each-IsBounded,
}
use jsonrpc_tcp_srv.NetServer.Responding.{respond-IsBounded}
use jsonrpc_tcp_srv.NetServer.Accounts.{records, unanswered, IsBalanced}
use jsonrpc_tcp_srv.NetServer.Shifts.{counted-pending_of}
use jsonrpc_tcp_srv.NetServer.Records.{
  accept_client-IsBalanced, read_connection-IsBalanced, resume_each-IsBalanced,
}
use jsonrpc_tcp_srv.NetServer.Answering.{
  remove_at, respond-IsBalanced, take_request-IsBalanced, schedule_response-IsBalanced,
}

-- The server, and the requests that its consumer took and has not answered yet.
pub record System : Type 0 where
  pub server : NetServer
  pub held : List NetDataObj

-- The steps of the listen thread (`accept`, `read`, `resume`), of the response thread (`respond_one`) and of
-- the consumer: it takes a request (`take_request`), or gives the response to the request that it holds at an
-- index, for the descriptor and the connection that the request carries (`answer`).
pub data Step : Type 0 where
  accept : ℕ → Option (ℤ × String) → Step
  read : ℕ → List Recv → Step
  resume : Step
  respond_one : SendEnv → Step
  take_request : Step
  answer : ℕ → Bytes → Step

answered_at : System → ℕ → Bytes → Option NetDataObj → System
answered_at s i buf none = s
answered_at s i buf (some o) = record {
  server = (schedule_response s.server o.sock_descriptor o.cltid buf).1;
  held = remove_at i s.held;
}

pub step : System → Step → System
unfolding answered_at
step s (accept fd peer) = record s { server = accept_client s.server fd peer }
step s (read fd rs) = record s { server = read_connection s.server fd rs }
step s resume = record s { server = resume_paused_connections s.server }
step s (respond_one env) = record s { server = respond s.server env }
step s take_request =
    let (o, c) = chain_get s.server.request_chain in
    record { server = record s.server { request_chain = c }; held = s.held ++ from_option o }
step s (answer i buf) = answered_at s i buf (get_elem? s.held i)

pub run : System → List Step → System
run s [] = s
run s (k ∷ ks) = run (step s k) ks

abbrev pub new_system : System
new_system = record { server = new_net_server; held = [] }

accept-pending :
    (m : NetServer) (fd : ℕ) (peer : Option (ℤ × String))
    → (accept_client m fd peer).pending ≡ m.pending
unfolding accept_client print_client_info watch register_client_info
accept-pending m fd none = ground arith
accept-pending m fd (some (port, ip)) = ground arith

schedule-pending :
    (m : NetServer) (fd : ℕ) (c : ℤ) (buf : Bytes)
    → (schedule_response m fd c buf).1.pending ≡ m.pending
unfolding schedule_response
schedule-pending m fd c buf = ground arith

abbrev IsBoundedSystem : System → Type 0
IsBoundedSystem s = IsBoundedServer s.server

step-IsBounded : (s : System) (k : Step) → IsBoundedSystem s → IsBoundedSystem (step s k)
unfolding step answered_at resume_paused_connections
step-IsBounded s (accept fd peer) h = subst IsBounded (sym (accept-pending s.server fd peer)) h
step-IsBounded s (read fd rs) h = read_connection-IsBounded rs s.server fd h
step-IsBounded s resume h = resume_each-IsBounded s.server.paused_fds s.server h
step-IsBounded s (respond_one env) h = respond-IsBounded s.server env h
step-IsBounded s take_request h = h
step-IsBounded s (answer i buf) h = elim (Option-cases (get_elem? s.held i)) [
  | inl e ↦ rw (e, answered_at) h
  | inr (o, e) ↦
      rw (e, answered_at)
        (subst IsBounded (sym (schedule-pending s.server o.sock_descriptor o.cltid buf)) h)
]

step-IsBalanced :
    (s : System) (k : Step)
    → IsBalanced s.held s.server
    → IsBalanced (step s k).held (step s k).server
unfolding step answered_at resume_paused_connections
step-IsBalanced s (accept fd peer) h = accept_client-IsBalanced s.held s.server fd peer h
step-IsBalanced s (read fd rs) h = read_connection-IsBalanced s.held rs s.server fd h
step-IsBalanced s resume h = resume_each-IsBalanced s.held s.server.paused_fds s.server h
step-IsBalanced s (respond_one env) h = respond-IsBalanced s.held s.server env h
step-IsBalanced s take_request h = take_request-IsBalanced s.held s.server h
step-IsBalanced s (answer i buf) h = elim (Option-cases (get_elem? s.held i)) [
  | inl e ↦ rw (e, answered_at) h
  | inr (o, e) ↦ rw (e, answered_at) (schedule_response-IsBalanced s.held s.server i o buf e h)
]

run-from :
    (ks : List Step) (s : System)
    → IsBoundedSystem s × IsBalanced s.held s.server
    → IsBoundedSystem (run s ks) × IsBalanced (run s ks).held (run s ks).server
unfolding run
run-from [] s h = h
run-from (k ∷ ks) s h = run-from ks (step s k) (step-IsBounded s k h.0, step-IsBalanced s k h.1)

new_net_server-IsBalanced : IsBalanced [] new_net_server
unfolding new_net_server new_chain attach_helper
new_net_server-IsBalanced = record {
  json_on = refl;
  requests_live = refl;
  responses_live = refl;
  numbered = record { live = refl; attached = refl; numbered = tt };
  single = λ c. omega arith;
  balance = λ c. inl refl;
  fresh = λ c above. (refl, refl);
}

-- Whatever the listen thread, the response thread and the consumer of a new server do, in any order, where the
-- consumer answers each request that it took at most once and for the connection that the request carries: a
-- connection that has a record never has more than 256 unanswered requests (they wait in the request chain, or
-- the consumer holds them, or their responses wait to be sent), and while it is paused it has more than 128,
-- so that a response which resumes it is still to come.
pub run-IsBounded :
    (ks : List Step) (c : ℕ)
    → let s = run new_system ks in
      (records c s.server.client_info_chain ≡ 0)
      ⊎ ((unanswered c s.held s.server ≤ max_pending_per_conn)
          × (((pending_of s.server c).paused ≡ false) ⊎ (128 < unanswered c s.held s.server)))
unfolding new_net_server
run-IsBounded ks c =
    let (bounded, balanced) = run-from ks new_system (tt, new_net_server-IsBalanced) in
    let s = run new_system ks in
    let (le, paused) = pending_of-IsBoundedConn s.server c bounded in
    elim (balanced.balance c) [
      | inl z ↦ inl z
      | inr h ↦
          let is = counted-pending_of s.server c in
          inr (
            omega (arith, h, is, le),
            elim paused [ inl p ↦ inl p | inr p ↦ inr (omega (arith, h, is, p)) ],
          )
    ]
