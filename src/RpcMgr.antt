-- ===== src/RpcMgr.antt =====
-- lib/lib-jsonrpc-tcp ADJsonRpcMgr (.hpp, .cpp): the manager behind every service. It decodes the
-- requests of its own commands, works on them with the task worker and the event manager, and encodes
-- the answers; other commands go to the handlers that the service attached. `V` is the type of the
-- handlers' packets, `S` their state and `J` that of JSON values. An enumerator in a packet is its
-- number. A new packet's fields are 0 or empty, where `new` leaves them undefined.
pub mod Decode
pub mod Worker
pub mod Packets
pub mod Events
pub mod Process
pub mod Encode
pub mod Requests
pub mod Lifecycle
pub mod Decoding
pub mod Answers
pub mod Handling
mod Tests
pub mod Polling
pub mod Soundness
pub mod Works
pub mod Threads
pub mod Entries
pub mod Methods
pub mod Completion
use Prim.Native.String.{String}
use jsonrpc_tcp_srv.Prelude.{
  ℕ, zero, suc, ◌+◌, Bool, true, false, List, [], ◌∷◌, ◌++◌, Option, none, some, ℤ, pos, negsuc,
  minus_one, length, map, get_elem?, find_first,
}
use jsonrpc_tcp_srv.Framer.{Bytes}
use jsonrpc_tcp_srv.RpcResult.{RpcSrvResult, not_started}
use jsonrpc_tcp_srv.StringProcessor.{JsonParams}
use jsonrpc_tcp_srv.TaskWorker.{TaskWorker, WorkCmdAfterDone, new_task_worker}
use jsonrpc_tcp_srv.EvntMgr.{EvntMgr, EventProcEntry, new_evnt_mgr, attach_receiver}
use jsonrpc_tcp_srv.Proxy.{JsonDataCommObj, Proxy, new_proxy}

pub data RpcmgrCmd : Type 0 where
  get_task_sts get_rpc_srv_version trigger_datasave get_settings_sts shutdown_service : RpcmgrCmd
  reset_task_sts get_ready_sts get_debug_log set_debug_log trigger_factory_store : RpcmgrCmd
  trigger_factory_restore event_subscribe event_unsubscribe event_notify : RpcmgrCmd
  event_process trigger_run get_devop_state set_devop_state get_mw_byte set_mw_byte : RpcmgrCmd
  get_mw_word set_mw_word get_mw_dword set_mw_dword : RpcmgrCmd

-- The enumerators below EJSON_RPCGMGR_CMD_END, in order.
abbrev pub all_cmds : List RpcmgrCmd
all_cmds =
    get_task_sts ∷ get_rpc_srv_version ∷ trigger_datasave ∷ get_settings_sts ∷ shutdown_service
    ∷ reset_task_sts ∷ get_ready_sts ∷ get_debug_log ∷ set_debug_log ∷ trigger_factory_store
    ∷ trigger_factory_restore ∷ event_subscribe ∷ event_unsubscribe ∷ event_notify ∷ event_process
    ∷ trigger_run ∷ get_devop_state ∷ set_devop_state ∷ get_mw_byte ∷ set_mw_byte ∷ get_mw_word
    ∷ set_mw_word ∷ get_mw_dword ∷ set_mw_dword ∷ []

pub code_of_cmd : RpcmgrCmd → ℕ
code_of_cmd get_task_sts = 0
code_of_cmd get_rpc_srv_version = 1
code_of_cmd trigger_datasave = 2
code_of_cmd get_settings_sts = 3
code_of_cmd shutdown_service = 4
code_of_cmd reset_task_sts = 5
code_of_cmd get_ready_sts = 6
code_of_cmd get_debug_log = 7
code_of_cmd set_debug_log = 8
code_of_cmd trigger_factory_store = 9
code_of_cmd trigger_factory_restore = 10
code_of_cmd event_subscribe = 11
code_of_cmd event_unsubscribe = 12
code_of_cmd event_notify = 13
code_of_cmd event_process = 14
code_of_cmd trigger_run = 15
code_of_cmd get_devop_state = 16
code_of_cmd set_devop_state = 17
code_of_cmd get_mw_byte = 18
code_of_cmd set_mw_byte = 19
code_of_cmd get_mw_word = 20
code_of_cmd set_mw_word = 21
code_of_cmd get_mw_dword = 22
code_of_cmd set_mw_dword = 23

-- EJSON_RPCGMGR_CMD_END.
abbrev pub cmd_end : ℕ
cmd_end = 24

-- The cast of `cmd_index`: none is a value that is not below EJSON_RPCGMGR_CMD_END. The enumeration
-- is unsigned, so that no negative number is.
pub cmd_of : ℤ → Option RpcmgrCmd
cmd_of (pos n) = get_elem? all_cmds n
cmd_of (negsuc n) = none

pub data RpcSrvAct : Type 0 where
  act_read act_write act_verify act_readonly act_writeonly act_read_and_write : RpcSrvAct
  act_reset act_unknown act_none : RpcSrvAct

pub data ReadyState : Type 0 where
  not_ready ready state_busy state_unknown state_none : ReadyState

pub code_of_ready : ReadyState → ℕ
code_of_ready not_ready = 0
code_of_ready ready = 1
code_of_ready state_busy = 2
code_of_ready state_unknown = 3
code_of_ready state_none = 4

pub record EventPacket : Type 0 where
  pub clt_token : ℤ
  pub port_num : ℤ
  pub event_num : ℤ
  pub srv_token : ℤ
  pub sock_descr : ℤ
  pub sock_id : ℤ
  pub ip : String
  pub event_arg : ℤ
  pub event_arg2 : ℤ

-- `addr` and `dword` are uint32_t, `word` is uint16_t and `byte` uint8_t.
pub record MiddlewarePacket : Type 0 where
  pub addr : ℕ
  pub byte : ℕ
  pub word : ℕ
  pub dword : ℕ

pub data Packet (V : Type 0) : Type 0 where
  task_sts_packet : ℤ → String → Packet V
  integer_packet : ℤ → Packet V
  settings_sts_packet : String → Packet V
  ready_sts_packet : ℕ → Packet V
  debug_log_packet : ℕ → Packet V
  devop_sts_packet : ℤ → Packet V
  event_packet : EventPacket → Packet V
  middleware_packet : MiddlewarePacket → Packet V
  service_packet : V → Packet V

-- `pDataObj`, with what its `dataRef` points to.
pub record RpcSrvReq (V : Type 0) : Type 0 where
  pub client_id : ℤ
  pub action : RpcSrvAct
  pub cmd : ℤ
  pub result : RpcSrvResult
  pub data_ref : Packet V

-- The object of an answer: its "return" and at most one more member.
pub data Answer : Type 0 where
  plain_answer : String → Answer
  string_answer : String → String → String → Answer
  int_answer : String → String → ℤ → Answer

-- What the manager uses of json-c; `new_object` builds the object of an answer.
pub record MgrJson (J : Type 0) : Type 0 where
  pub params : JsonParams J
  pub new_object : Answer → J

pub record RequestObj (J V : Type 0) : Type 0 where
  pub comm : JsonDataCommObj J
  pub req : RpcSrvReq V

-- What a handler does for `ProcessWork`: it may push tasks with `PushAsyncTask`, whose answer is the
-- task's id or none, and ends with its return code.
pub data Work (J V S : Type 0) : Type 0 where
  done : ℤ → RequestObj J V → S → Work J V S
  push : ℕ → Packet V → WorkCmdAfterDone → (Option ℕ → Work J V S) → Work J V S

-- ADJsonRpcMgrConsumer.
pub record RpcHandler (J V S : Type 0) : Type 0 where
  pub rpc_name : Bytes
  pub parent_index : ℤ
  pub index : ℤ
  pub logmsg : Bool
  pub emulation : Bool
  pub cmnrpchandler : Bool
  pub handle_json_to_binary : RequestObj J V → ℤ → S → ℤ × RequestObj J V × S
  pub handle_binary_to_json : RequestObj J V → ℤ → S → ℤ × RequestObj J V × S
  pub handle_work : RequestObj J V → ℤ → S → Work J V S
  pub handle_work_async : ℤ → Packet V → S → RpcSrvResult × S

-- `forced_exits` counts the calls of the timer's `forced_exit`; `pDevInfo` is only kept.
pub record RpcMgr (J V S : Type 0) : Type 0 where
  pub has_timer : Bool
  pub stopped : Bool
  pub methods_attached : Bool
  pub svn_version : ℤ
  pub shutdown_support : Bool
  pub service_ready_flag : ReadyState
  pub service_debug_flag : Bool
  pub rpclist : List (RpcHandler J V S)
  pub event_receivers : List ℕ
  pub task_worker : TaskWorker (Packet V)
  pub event_mgr : EvntMgr
  pub proxy : Proxy J
  pub service : S
  pub forced_exits : ℕ

module _ {J V S : Type 0} where
  pub attach_heart_beat : RpcMgr J V S → RpcMgr J V S
  attach_heart_beat m = record m { has_timer = true }

  support_shutdown_rpc : RpcMgr J V S → Bool → RpcMgr J V S
  support_shutdown_rpc m support = record m { shutdown_support = support }

  set_service_ready_flag : RpcMgr J V S → ReadyState → RpcMgr J V S
  set_service_ready_flag m sts = record m { service_ready_flag = sts }

  -- AttachRpc.
  pub attach_rpc : RpcMgr J V S → RpcHandler J V S → RpcMgr J V S
  attach_rpc m h = record m { rpclist = m.rpclist ++ h ∷ [] }

  abbrev pub get_total_attached_rpcs : RpcMgr J V S → ℕ
  get_total_attached_rpcs m = length m.rpclist

  -- `getRpcHandler` of a number.
  pub get_rpc_handler : RpcMgr J V S → ℤ → Option (RpcHandler J V S)
  get_rpc_handler m (pos i) = get_elem? m.rpclist i
  get_rpc_handler m (negsuc i) = none

  pub get_cmn_rpc_handler : RpcMgr J V S → Option (RpcHandler J V S)
  get_cmn_rpc_handler m = find_first (λ h. h.cmnrpchandler) m.rpclist

  pub set_rpc_debug_log_flag : RpcMgr J V S → Bool → RpcMgr J V S
  set_rpc_debug_log_flag m debuglog =
      let flagged : RpcHandler J V S → RpcHandler J V S = λ h. record h { logmsg = debuglog } in
      record m { rpclist = map flagged m.rpclist }

  -- AttachEventReceiver.
  attach_event_receiver : RpcMgr J V S → ℕ → RpcMgr J V S
  attach_event_receiver m c = record m { event_receivers = m.event_receivers ++ c ∷ [] }

  -- The calls of `ReceiveEvent`.
  receive_event : RpcMgr J V S → EventProcEntry → List (ℕ × EventProcEntry)
  receive_event m e = map (λ c. (c, e)) m.event_receivers

  -- The constructor; the event manager's one receiver is the manager.
  pub new_rpc_mgr : ℤ → Bool → S → RpcMgr J V S
  new_rpc_mgr ver debuglog service = record {
    has_timer = false;
    stopped = false;
    methods_attached = false;
    svn_version = ver;
    shutdown_support = true;
    service_ready_flag = not_ready;
    service_debug_flag = debuglog;
    rpclist = [];
    event_receivers = [];
    task_worker = new_task_worker;
    event_mgr = attach_receiver new_evnt_mgr 0;
    proxy = new_proxy;
    service = service;
    forced_exits = 0;
  }
