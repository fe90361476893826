-- ===== src/RpcMgr/Packets.antt =====
-- lib/lib-jsonrpc-tcp/src/ADJsonRpcMgr.cpp: the packet of a request. A cast of `dataRef` to a packet of
-- another type reads 0 or the empty text.
use jsonrpc_tcp_srv.Prelude.{ℕ, Bool, true, false, Option, none, some, ℤ, pos}
use jsonrpc_tcp_srv.RpcResult.{RpcSrvResult}
use jsonrpc_tcp_srv.RpcMgr.{
  RpcSrvAct, act_read, EventPacket, Packet, task_sts_packet, debug_log_packet, devop_sts_packet,
  event_packet, RequestObj, RpcMgr,
}

-- `taskID`, the first field of RPCMGR_TASK_STS_PACKET and so at the place of the first field of the
-- packet that `process_set_devop_state` casts.
unfoldable pub task_id_of : {V : Type 0} → Packet V → ℤ
task_id_of (task_sts_packet id sts) = id
task_id_of (devop_sts_packet id) = id
task_id_of _ = pos 0

unfoldable pub with_task_id : {V : Type 0} → Packet V → ℤ → Packet V
with_task_id (task_sts_packet id sts) id' = task_sts_packet id' sts
with_task_id (devop_sts_packet id) id' = devop_sts_packet id'
with_task_id p id' = p

unfoldable pub event_of : {V : Type 0} → Packet V → Option EventPacket
event_of (event_packet e) = some e
event_of _ = none

unfoldable pub flag_of : {V : Type 0} → Packet V → ℕ
flag_of (debug_log_packet status) = status
flag_of _ = 0

abbrev pub is_act_read : RpcSrvAct → Bool
is_act_read act_read = true
is_act_read _ = false

module _ {J V S : Type 0} where
  -- `pReq->result` and `dataRef` are set, and the return code is 0.
  unfoldable pub answered :
      RpcMgr J V S → RequestObj J V → RpcSrvResult → Packet V → ℤ × RequestObj J V × RpcMgr J V S
  answered m r result packet =
      (pos 0, record r { req = record r.req { result = result; data_ref = packet } }, m)
