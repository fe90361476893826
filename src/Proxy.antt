-- ===== src/Proxy.antt =====
-- lib/lib-jsonrpc-tcp ADJsonRpcProxy (.hpp, .cpp) and ADJsonRpcMapper (.hpp, .cpp): JSON-RPC requests
-- become tasks for the mapper's thread, and tasks become replies. Text is a list of bytes. A
-- pointer to a task in another chain is the task's ident, since tasks are shared: `req_chain` is the
-- mapper's ReqChain, `mapping` the task that its thread works on. All methods belong to one mapper,
-- and each has its proxy. json-c and JSON_checker are the parameter `JsonC`, and what the mapper's
-- consumers do is the parameter `Consumer`. Allocation succeeds.
pub mod Requests
pub mod Mapper
pub mod Branches
pub mod Replies
mod Tests
pub mod Flow
pub mod Responding
pub mod Mapping
pub mod Pipeline
pub mod Methods
pub mod Search
pub mod Standard
use Prim.Native.String.{String}
use jsonrpc_tcp_srv.Prelude.{
  ℕ, ◌+◌, Bool, true, false, not, ◌&&◌, List, [], ◌∷◌, ◌++◌, Option, none, some, leb, ◌==◌,
  if◌then◌else◌, length, find_first, update_first, ℤ, pos, negsuc, minus_one, ◌==ℤ◌,
}
use jsonrpc_tcp_srv.Framer.{Bytes}
use jsonrpc_tcp_srv.RpcResult.{RpcSrvResult, not_started}
use jsonrpc_tcp_srv.Chain.{
  Chain, new_chain, attach_helper, disable_auto_remove, chain_put, chain_get, chain_remove_by_ident,
  chain_get_by_ident, chain_generate_ident,
}
use jsonrpc_tcp_srv.NetServer.{NetServer, NetDataObj, new_net_server}
use jsonrpc_tcp_srv.NetServer.Sending.{schedule_response}

pub data CmdTaskAcc : Type 0 where
  sync async no_access : CmdTaskAcc

pub data CmdTaskResult : Type 0 where
  fail success invalid_param dev_timeout dev_err mem_fail in_progress : CmdTaskResult
  task_not_started actual_value unknown : CmdTaskResult

pub data JsonRpcErrType : Type 0 where
  parse_error invalid_req method_not_found invalid_params internal_error : JsonRpcErrType

abbrev pub json_rpc_method_name_max_length : ℕ
json_rpc_method_name_max_length = 256

-- The consumer of a method is the mapper, and the producer is the proxy.
pub record RpcCommand : Type 0 where
  pub method : Bytes
  pub method_index : ℤ

-- `J` is the type of JSON values; `custom_result_string` is text.
pub record ApiTaskObj (J : Type 0) : Type 0 where
  pub ident : ℕ
  pub req_id : ℤ
  pub net_data : NetDataObj
  pub rpc_method : RpcCommand
  pub access : CmdTaskAcc
  pub task_result : CmdTaskResult
  pub rpc_code : RpcSrvResult
  pub json_resp_obj : Option J
  pub custom_result_string : String

-- The object that is sent back, with its members.
pub data Reply (J : Type 0) : Type 0 where
  error_reply : ℤ → String → Option ℤ → Reply J
  result_reply : J → ℤ → Reply J
  fail_reply : String → ℤ → Reply J

-- What the source calls of json-c and of JSON_checker. `get_string` and `get_int` are
-- `json_object_get_string` and `json_object_get_int` of the member with that name.
pub record JsonC (J : Type 0) : Type 0 where
  pub checker : Bytes → Bool
  pub tokener_parse : Bytes → Option J
  pub get_string : J → String → Option Bytes
  pub get_int : J → String → ℤ
  pub to_json_string : Reply J → Option Bytes

-- JsonDataCommObj, in the fields that are read again after the consumers' calls, or by them.
pub record JsonDataCommObj (J : Type 0) : Type 0 where
  pub req_id : ℤ
  pub cmd_index : ℤ
  pub mapper_result : CmdTaskResult
  pub rpc_code : RpcSrvResult
  pub worker_result : ℤ
  pub socket_data : Bytes
  pub json_resp_obj : Option J
  pub custom_result_string : String
  pub cltport : ℤ
  pub ip : String
  pub sock_id : ℤ
  pub sock_descr : ℕ

-- The attached mapper and worker; the first call also returns its code.
pub record Consumer (J : Type 0) : Type 0 where
  pub json_to_binary : JsonDataCommObj J → ℤ × JsonDataCommObj J
  pub work : JsonDataCommObj J → JsonDataCommObj J
  pub binary_to_json : JsonDataCommObj J → JsonDataCommObj J

pub record Proxy (J : Type 0) : Type 0 where
  pub rpc_call_list : List RpcCommand
  pub req_resp_chain : Chain (ApiTaskObj J)
  pub resp_chain : Chain ℕ
  pub req_chain : Chain ℕ
  pub mapping : Option ℕ
  pub server_socket : NetServer
  pub total_req_received : ℕ
  pub total_res_sent : ℕ

-- `strcmp(a, b) == 0`.
unfoldable pub bytes_eq : Bytes → Bytes → Bool
bytes_eq [] [] = true
bytes_eq [] (_ ∷ _) = false
bytes_eq (_ ∷ _) [] = false
bytes_eq (x ∷ xs) (y ∷ ys) = if x == y then bytes_eq xs ys else false

-- The "sync" and "async" of `get_jsonrpc_acc`.
abbrev pub async_word : Bytes
async_word = b'a' ∷ b's' ∷ b'y' ∷ b'n' ∷ b'c' ∷ []

pub error_code : JsonRpcErrType → ℤ
error_code parse_error = negsuc 32699
error_code invalid_req = negsuc 32599
error_code method_not_found = negsuc 32600
error_code invalid_params = negsuc 32601
error_code internal_error = negsuc 32602

pub error_message : JsonRpcErrType → String
error_message parse_error = "Parse error."
error_message invalid_req = "Invalid Request."
error_message method_not_found = "Method not found."
error_message invalid_params = "Invalid params."
error_message internal_error = "Internal error."

pub error_id : JsonRpcErrType → ℤ → Option ℤ
error_id method_not_found id = some id
error_id invalid_params id = some id
error_id _ id = none

-- The text of `json_send_new_result`.
pub result_string : CmdTaskResult → String → String
result_string fail custom = "Fail"
result_string success custom = "Success"
result_string invalid_param custom = "ParamError"
result_string dev_timeout custom = "Timeout"
result_string dev_err custom = "DevError"
result_string mem_fail custom = "MemError"
result_string in_progress custom = "InProgress"
result_string actual_value custom = custom
result_string unknown custom = "Unknown"
result_string task_not_started custom = "Unknown"

abbrev pub identify_task : {J : Type 0} → ℕ → ApiTaskObj J → Bool
identify_task ident t = t.ident == ident

-- The test `json_string[0] == '['`, in a NUL-terminated string.
pub is_batch : Bytes → Bool
is_batch [] = false
is_batch (c ∷ _) = c == b'['

module _ {J : Type 0} where
  -- The constructors of the proxy and of the mapper.
  unfoldable pub new_proxy : Proxy J
  unfolding new_chain attach_helper
  new_proxy = record {
    rpc_call_list = [];
    req_resp_chain = (attach_helper new_chain).1;
    resp_chain = (attach_helper new_chain).1;
    req_chain = (attach_helper (disable_auto_remove new_chain)).1;
    mapping = none;
    server_socket = new_net_server;
    total_req_received = 0;
    total_res_sent = 0;
  }

  -- The result is false for the return code -1.
  pub attach_rpc_method : Proxy J → Bytes → ℤ → Bool × Proxy J
  attach_rpc_method p method_name method_index =
      if leb json_rpc_method_name_max_length (length method_name) then (false, p) else (
        true,
        record p {
          rpc_call_list =
              p.rpc_call_list ++ record { method = method_name; method_index = method_index } ∷ [];
        },
      )

  pub is_this_method_registered : Proxy J → Bytes → Option RpcCommand
  unfolding bytes_eq
  is_this_method_registered p rpc_method =
      find_first (λ c. bytes_eq c.method rpc_method) p.rpc_call_list

  -- ADJsonRpcMapper's; the wakeup of its thread is in `mapper_take`.
  pub rpc_call_notification : Proxy J → ℕ → Bool × Proxy J
  rpc_call_notification p task =
      let (put, c) = chain_put p.req_chain task in (put, record p { req_chain = c })

  -- The callback of the mapper's thread, up to the consumers' calls.
  pub mapper_take : Proxy J → Proxy J
  mapper_take p =
      let (ident, c) = chain_get p.req_chain in record p { req_chain = c; mapping = ident }

  pub json_send_response : Proxy J → ℕ → Bool × Proxy J
  json_send_response p ident =
      let (put, c) = chain_put p.resp_chain ident in (put, record p { resp_chain = c })
