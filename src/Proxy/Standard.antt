-- ===== src/Proxy/Standard.antt =====
-- lib/lib-jsonrpc-tcp/src/ADJsonRpcProxy.cpp json_process_request against the JSON-RPC 2.0 specification.
use jsonrpc_tcp_srv.Prelude.{
  ◌≤◌, ◌<◌, Bool, true, false, List, [], ◌∷◌, ◌++◌, Option, none, some, length, ℤ, negsuc, ◌≡◌, inl,
  inr, ◌⊎◌,
}
use Prim.Native.String.{String}
use jsonrpc_tcp_srv.Framer.{Bytes}
use jsonrpc_tcp_srv.NetServer.{NetDataObj}
use jsonrpc_tcp_srv.NetServer.Queueing.{requests_of}
use jsonrpc_tcp_srv.Proxy.{
  Proxy, JsonC, Reply, RpcCommand, ApiTaskObj, JsonRpcErrType, error_reply, is_batch,
}
use jsonrpc_tcp_srv.Proxy.Requests.{json_send_error_response_string}
use jsonrpc_tcp_srv.Proxy.Branches.{enqueued}
use jsonrpc_tcp_srv.Proxy.Search.{AreUnlike}

module _ {J : Type 0} (json : JsonC J) where
  -- The text is one JSON value, which is `obj`, and no array of calls.
  pub record IsSingle (text : Bytes) (obj : J) : Type 0 where
    pub unlike_batch : is_batch text ≡ false
    pub checked : json.checker text ≡ true
    pub parsed : json.tokener_parse text ≡ some obj

  -- What a request is, for a proxy with these methods.
  pub data Kind (methods : List RpcCommand) (text : Bytes) : Type 0 where
    batch : (rest : Bytes) → text ≡ b'[' ∷ rest → Kind methods text
    malformed : is_batch text ≡ false → json.checker text ≡ false → Kind methods text
    unparsed :
        is_batch text ≡ false
        → json.checker text ≡ true
        → json.tokener_parse text ≡ none
        → Kind methods text
    without_id : (obj : J) → IsSingle text obj → json.get_string obj "id" ≡ none → Kind methods text
    without_method :
        (obj : J) (id : Bytes)
        → IsSingle text obj
        → json.get_string obj "id" ≡ some id
        → json.get_string obj "method" ≡ none
        → Kind methods text
    unknown_method :
        (obj : J) (id name : Bytes)
        → IsSingle text obj
        → json.get_string obj "id" ≡ some id
        → json.get_string obj "method" ≡ some name
        → (256 ≤ length name) ⊎ AreUnlike name methods
        → Kind methods text
    known_method :
        (obj : J) (id name : Bytes) (before : List RpcCommand) (c : RpcCommand)
        (after : List RpcCommand)
        → IsSingle text obj
        → json.get_string obj "id" ≡ some id
        → json.get_string obj "method" ≡ some name
        → length name < 256
        → methods ≡ before ++ c ∷ after
        → AreUnlike name before
        → c.method ≡ name
        → Kind methods text

  -- The error object of the standard with its code, its message and the id, or the method and the id of a call.
  pub expected :
      {methods : List RpcCommand} {text : Bytes}
      → Kind methods text
      → (ℤ × String × Option ℤ) ⊎ (RpcCommand × ℤ)
  expected (batch _ _) = inl (negsuc 32599, "Invalid Request.", none)
  expected (malformed _ _) = inl (negsuc 32699, "Parse error.", none)
  expected (unparsed _ _ _) = inl (negsuc 32699, "Parse error.", none)
  expected (without_id _ _ _) = inl (negsuc 32599, "Invalid Request.", none)
  expected (without_method obj _ _ _ _) =
      inl (negsuc 32600, "Method not found.", some (json.get_int obj "id"))
  expected (unknown_method obj _ _ _ _ _ _) =
      inl (negsuc 32600, "Method not found.", some (json.get_int obj "id"))
  expected (known_method obj _ _ _ c _ _ _ _ _ _ _ _) = inr (c, json.get_int obj "id")

  -- One reply, with this text, was scheduled for the request's connection, and no task was made.
  pub record IsRefused (p : Proxy J) (req : NetDataObj) (reply : Reply J) (r : Bool × Proxy J)
      : Type 0 where
    pub code : r.0 ≡ false
    pub text : Bytes
    pub printed : json.to_json_string reply ≡ some text
    pub sent :
        requests_of r.1.server_socket.response_chain.items
        ≡ requests_of p.server_socket.response_chain.items
          ++ (req.sock_descriptor, req.cltid, text) ∷ []
    pub tasks : r.1.req_resp_chain ≡ p.req_resp_chain
    pub queue : r.1.req_chain ≡ p.req_chain

  -- The request is the last task, with its method and its id, and waits for the mapper; nothing was sent.
  pub record IsAccepted (p : Proxy J) (req : NetDataObj) (c : RpcCommand) (id : ℤ)
      (r : Bool × Proxy J) : Type 0 where
    pub code : r.0 ≡ true
    pub task : ApiTaskObj J
    pub tasks : r.1.req_resp_chain.items ≡ p.req_resp_chain.items ++ task ∷ []
    pub queue : r.1.req_chain.items ≡ p.req_chain.items ++ task.ident ∷ []
    pub request : task.net_data ≡ req
    pub method : task.rpc_method ≡ c
    pub req_id : task.req_id ≡ id
    pub quiet : r.1.server_socket ≡ p.server_socket

  abbrev pub IsDone :
      Proxy J → NetDataObj → (ℤ × String × Option ℤ) ⊎ (RpcCommand × ℤ) → Bool × Proxy J → Type 0
  IsDone p req (inl (code, message, id)) r = IsRefused p req (error_reply code message id) r
  IsDone p req (inr (c, id)) r = IsAccepted p req c id r

  -- What follows from a verdict.
  abbrev outcome :
      Proxy J → NetDataObj → (JsonRpcErrType × ℤ) ⊎ (J × ℤ × RpcCommand) → Bool × Proxy J
  outcome p req (inl (err, id)) =
      (false, json_send_error_response_string json p id req.sock_descriptor err req.cltid)
  outcome p req (inr (obj, id, method)) = (true, enqueued json p req obj id method)
