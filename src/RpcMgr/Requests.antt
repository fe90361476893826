-- ===== src/RpcMgr/Requests.antt =====
-- lib/lib-jsonrpc-tcp ADJsonRpcMgr (.hpp, .cpp): the three calls that the mapper makes for a request.
-- A command of the manager's own is worked on here, any other by the handler with its number.
use jsonrpc_tcp_srv.Prelude.{
  ℕ, ◌+◌, ◌-◌, List, Option, none, some, leb, if◌then◌else◌, ℤ, pos, negsuc, minus_one, ◌==ℤ◌,
}
use jsonrpc_tcp_srv.RpcResult.{not_started}
use jsonrpc_tcp_srv.Proxy.{JsonDataCommObj}
use jsonrpc_tcp_srv.RpcMgr.{
  RpcmgrCmd, cmd_of, cmd_end, act_read, integer_packet, MgrJson, RequestObj, RpcHandler, RpcMgr,
  get_rpc_handler, get_total_attached_rpcs,
}
use jsonrpc_tcp_srv.RpcMgr.Decode.{my_map_json_to_binary}
use jsonrpc_tcp_srv.RpcMgr.Worker.{run_handler, WorkerStep}
use jsonrpc_tcp_srv.RpcMgr.Process.{my_process_work}
use jsonrpc_tcp_srv.RpcMgr.Encode.{my_map_binary_to_json}

-- The index of a command's handler, `cmd_index - EJSON_RPCGMGR_CMD_END`.
abbrev pub handler_index : ℤ → ℤ
handler_index (pos n) = if leb cmd_end n then pos (n - cmd_end) else negsuc (cmd_end - n - 1)
handler_index (negsuc n) = negsuc (n + cmd_end)

-- What a request meets from outside: the manager's uninitialised variable, and the looks and the
-- start of `reset_task_id_and_chain`.
pub record Chance : Type 0 where
  pub tmp : ℕ
  pub looks : List (List WorkerStep × ℕ)
  pub start : ℕ

unfoldable pub create_req_obj : {J V : Type 0} → JsonDataCommObj J → RequestObj J V
create_req_obj d = record {
  comm = d;
  req = record {
    client_id = d.req_id;
    action = act_read;
    cmd = pos 0;
    result = not_started;
    data_ref = integer_packet (pos 0);
  };
}

module _ {J V S : Type 0} where
  -- The handler of an index, after the checks of `MapJsonToBinary` and the like.
  unfoldable pub handler_at : RpcMgr J V S → ℤ → Option (RpcHandler J V S)
  unfolding get_rpc_handler
  handler_at m (pos i) =
      if leb (get_total_attached_rpcs m) i then none else get_rpc_handler m (pos i)
  handler_at m (negsuc i) = none

  unfoldable pub handler_for : RpcMgr J V S → ℤ → Option (RpcHandler J V S)
  unfolding handler_at
  handler_for m cmd_index = handler_at m (handler_index cmd_index)

module _ {J V S : Type 0} (json : MgrJson J) where
  unfoldable pub map_json_to_binary :
      RpcMgr J V S → Option (RpcHandler J V S) → RequestObj J V → ℤ × RequestObj J V × RpcMgr J V S
  map_json_to_binary m none r = (minus_one, r, m)
  map_json_to_binary m (some h) r =
      let (code, r', s) = h.handle_json_to_binary r h.index m.service in
      (code, r', record m { service = s })

  unfoldable pub json_to_binary_by :
      ℕ → Option RpcmgrCmd → RpcMgr J V S → RequestObj J V → ℤ × RequestObj J V × RpcMgr J V S
  unfolding map_json_to_binary handler_for
  json_to_binary_by tmp none m r = map_json_to_binary m (handler_for m r.comm.cmd_index) r
  json_to_binary_by tmp (some cmd) m r =
      let (code, r') = my_map_json_to_binary json tmp cmd r in (code, r', m)

  unfoldable pub process_json_to_binary :
      ℕ → RpcMgr J V S → JsonDataCommObj J → ℤ × RequestObj J V × RpcMgr J V S
  unfolding json_to_binary_by create_req_obj cmd_of
  process_json_to_binary tmp m d = json_to_binary_by tmp (cmd_of d.cmd_index) m (create_req_obj d)

  unfoldable pub map_work :
      RpcMgr J V S → Option (RpcHandler J V S) → RequestObj J V → ℤ × RequestObj J V × RpcMgr J V S
  map_work m none r = (minus_one, r, m)
  map_work m (some h) r = run_handler m (h.handle_work r h.index m.service)

  unfoldable pub work_by :
      Chance → Option RpcmgrCmd → RpcMgr J V S → RequestObj J V → ℤ × RequestObj J V × RpcMgr J V S
  unfolding map_work handler_for
  work_by x none m r = map_work m (handler_for m r.comm.cmd_index) r
  work_by x (some cmd) m r = my_process_work x.looks x.start cmd m r

  unfoldable pub process_work :
      Chance → RpcMgr J V S → RequestObj J V → ℤ × RequestObj J V × RpcMgr J V S
  unfolding work_by cmd_of
  process_work x m r = work_by x (cmd_of r.comm.cmd_index) m r

  unfoldable pub map_binary_to_json :
      RpcMgr J V S → Option (RpcHandler J V S) → RequestObj J V → JsonDataCommObj J × RpcMgr J V S
  map_binary_to_json m none r = (r.comm, m)
  map_binary_to_json m (some h) r =
      let (code, r', s) = h.handle_binary_to_json r h.index m.service in
      (r'.comm, record m { service = s })

  unfoldable pub binary_to_json_by :
      Option RpcmgrCmd → RpcMgr J V S → RequestObj J V → JsonDataCommObj J × RpcMgr J V S
  unfolding map_binary_to_json handler_for
  binary_to_json_by none m r = map_binary_to_json m (handler_for m r.comm.cmd_index) r
  binary_to_json_by (some cmd) m r = (my_map_binary_to_json json cmd r, m)

  unfoldable pub process_binary_to_json :
      RpcMgr J V S → RequestObj J V → JsonDataCommObj J × RpcMgr J V S
  unfolding binary_to_json_by cmd_of
  process_binary_to_json m r = binary_to_json_by (cmd_of r.comm.cmd_index) m r

  -- The three calls, as the mapper's callback makes them.
  unfoldable pub handled :
      Chance → RpcMgr J V S → JsonDataCommObj J → JsonDataCommObj J × RpcMgr J V S
  unfolding process_json_to_binary process_work process_binary_to_json
  handled x m d =
      let (code, r, m') = process_json_to_binary x.tmp m d in
      let (code', r', m'') = process_work x m' r in
      if code ==ℤ pos 0 then process_binary_to_json m'' r' else (r.comm, m')
