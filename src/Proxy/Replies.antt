-- ===== src/Proxy/Replies.antt =====
-- The replies of ADJsonRpcProxy on the response chain of its server.
use jsonrpc_tcp_srv.Prelude.{ℕ, true, List, [], ◌∷◌, ◌++◌, ℤ, minus_one, ◌≡◌, refl, ap, arith}
use jsonrpc_tcp_srv.Framer.{Bytes}
use jsonrpc_tcp_srv.Chain.{chain_put, chain_add}
use jsonrpc_tcp_srv.NetServer.{NetDataObj}
use jsonrpc_tcp_srv.NetServer.Sending.{schedule_response}
use jsonrpc_tcp_srv.Proxy.{Proxy, JsonC, Reply, ApiTaskObj}
use jsonrpc_tcp_srv.Proxy.Requests.{send_json_object}
use jsonrpc_tcp_srv.Proxy.Branches.{IsPrinting}

-- The connection that an object belongs to.
abbrev pub address_of : NetDataObj → ℕ × ℤ
address_of obj = (obj.sock_descriptor, obj.cltid)

abbrev pub addresses : List NetDataObj → List (ℕ × ℤ)
addresses [] = []
addresses (o ∷ os) = address_of o ∷ addresses os

pub addresses-append :
    (xs ys : List NetDataObj) → addresses (xs ++ ys) ≡ addresses xs ++ addresses ys
addresses-append [] ys = refl
addresses-append (x ∷ xs) ys = ap (◌∷◌ (address_of x)) (addresses-append xs ys)

abbrev pub task_addresses : {J : Type 0} → List (ApiTaskObj J) → List (ℕ × ℤ)
task_addresses [] = []
task_addresses (t ∷ ts) = address_of t.net_data ∷ task_addresses ts

reply_obj : ℕ → ℤ → Bytes → NetDataObj
reply_obj fd cltid message = record {
  ident = 0;
  sock_descriptor = fd;
  port = minus_one;
  ip = "";
  cltid = cltid;
  data_buffer = message;
}

module _ {J : Type 0} where
  -- One more response, for the connection.
  pub record IsReplied (p : Proxy J) (address : ℕ × ℤ) (p' : Proxy J) : Type 0 where
    pub tasks : p'.req_resp_chain ≡ p.req_resp_chain
    pub resp : p'.resp_chain ≡ p.resp_chain
    pub req : p'.req_chain ≡ p.req_chain
    pub mapping : p'.mapping ≡ p.mapping
    pub sent :
        addresses p'.server_socket.response_chain.items
        ≡ addresses p.server_socket.response_chain.items ++ address ∷ []
    pub server_live : p'.server_socket.response_chain.init_flag ≡ true

module _ {J : Type 0} (json : JsonC J) where
  pub send_json_object-IsReplied :
      (p : Proxy J) (fd : ℕ) (cltid : ℤ) (obj : Reply J)
      → p.server_socket.response_chain.init_flag ≡ true
      → IsPrinting json
      → IsReplied p (fd, cltid) (send_json_object json p fd cltid obj)
  unfolding send_json_object schedule_response chain_put chain_add reply_obj
  send_json_object-IsReplied p fd cltid obj live prints =
      let (message, e) = prints obj in
      let items = p.server_socket.response_chain.items in
      record {
        tasks = ground (arith, e);
        resp = ground (arith, e);
        req = ground (arith, e);
        mapping = ground (arith, e);
        sent = ground (arith, e, live, addresses-append items (reply_obj fd cltid message ∷ []));
        server_live = ground (arith, e, live);
      }
