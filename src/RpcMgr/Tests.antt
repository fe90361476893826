-- ===== src/RpcMgr/Tests.antt =====
-- The manager's properties with one handler, and a json-c that knows requests of one digit.
use Prim.Native.String.{String}
use text.Mathlib.Text.{◌==◌ as str_eq}
use jsonrpc_tcp_srv.Prelude.{
  ℕ, ◌-◌, ◌+◌, true, false, [], ◌∷◌, Option, none, some, if◌then◌else◌, ℤ, pos, All, ◌≡◌, refl, ap,
  sym, ◌∙◌, ◌⊎◌,
}
use jsonrpc_tcp_srv.Framer.{Bytes}
use jsonrpc_tcp_srv.RpcResult.{success, not_started, code_of, convert_server_result_to_string}
use jsonrpc_tcp_srv.StringProcessor.{find_single_param, copied, strlen, first_bytes}
use jsonrpc_tcp_srv.StringProcessor.Numbers.{digit, decimal}
use jsonrpc_tcp_srv.Proxy.{
  JsonDataCommObj, invalid_param, task_not_started, is_this_method_registered, new_proxy, bytes_eq,
}
use jsonrpc_tcp_srv.TaskWorker.{
  new_task_worker, push_task, begin_work, preserve, WorkCmdTask, new_task, done_action_of,
}
use jsonrpc_tcp_srv.TaskWorker.Calls.{
  IsWell, next_id, new_task_worker-IsWell, begin_work-first-IsWell, begin_work-push_task,
  next_id-new_task_worker,
}
use jsonrpc_tcp_srv.EvntMgr.Subscriptions.{attached_receiver-IsTidyMgr}
use jsonrpc_tcp_srv.RpcMgr.{
  get_settings_sts, cmd_of, Packet, service_packet, MgrJson, done, RpcHandler, RpcMgr, new_rpc_mgr,
  attach_rpc,
}
use jsonrpc_tcp_srv.RpcMgr.Worker.{run_work, worker_ends, begins, ends}
use jsonrpc_tcp_srv.RpcMgr.Requests.{handled, handler_for, Chance}
use jsonrpc_tcp_srv.RpcMgr.Lifecycle.{attach_methods}
use jsonrpc_tcp_srv.RpcMgr.Answers.{return_of, IsAnswered}
use jsonrpc_tcp_srv.RpcMgr.Handling.{handled-IsAnswered}
use jsonrpc_tcp_srv.RpcMgr.Polling.{
  save, answered_id, answered_string, handled-trigger, poll-trigger,
}
use jsonrpc_tcp_srv.RpcMgr.Soundness.{IsFinal, IsSound}
use jsonrpc_tcp_srv.RpcMgr.Completion.{poll-worker_ends}
use jsonrpc_tcp_srv.RpcMgr.Methods.{handler_for-attach_methods}
use jsonrpc_tcp_srv.RpcMgr.Threads.{request, worker, attach_rpcs, sys_steps, sys_steps-IsSound}

-- A text, or an object with one member.
data Value : Type 0 where
  text_value : String → Value
  object_value : String → Value → Value

abbrev member_of : Value → String → Option Value
member_of (text_value s) name = none
member_of (object_value key v) name = if str_eq key name then some v else none

abbrev text_of_value : Value → Option String
text_of_value (text_value s) = some s
text_of_value (object_value key v) = some key

-- One digit is the request whose parameter "taskId" is that digit.
abbrev parsed : Bytes → Option Value
parsed [] = none
parsed (b ∷ bs) = some (
    object_value "params"
      (object_value "taskId" (text_value (String.◌∷◌ (digit (b - b'0')) String.[]))))

abbrev one_digit_json : MgrJson Value
one_digit_json = record {
  params = record { tokener_parse = parsed; object_get = member_of; get_string = text_of_value };
  new_object = λ a. text_value (return_of a);
}

-- A handler that counts its requests.
abbrev led : RpcHandler Value ℕ ℕ
led = record {
  rpc_name = b'l' ∷ b'e' ∷ b'd' ∷ [];
  parent_index = pos 0;
  index = pos 0;
  logmsg = false;
  emulation = false;
  cmnrpchandler = true;
  handle_json_to_binary = λ r i s. (pos 0, r, s);
  handle_binary_to_json = λ r i s. (pos 0, r, s);
  handle_work = λ r i s. done (pos 0) r (s + 1);
  handle_work_async = λ c p s. (success, s);
}

abbrev one_handler : RpcMgr Value ℕ ℕ
one_handler = attach_rpcs (new_rpc_mgr (pos 7) false 0) (led ∷ [])

abbrev asked : ℤ → Bytes → JsonDataCommObj Value
asked cmd text = record {
  req_id = pos 1;
  cmd_index = cmd;
  mapper_result = task_not_started;
  rpc_code = not_started;
  worker_result = pos 0;
  socket_data = text;
  json_resp_obj = none;
  custom_result_string = "";
  cltport = pos 4000;
  ip = "10.0.0.2";
  sock_id = pos 1;
  sock_descr = 5;
}

abbrev quiet : Chance
quiet = record { tmp = 0; looks = []; start = 0 }

handled-IsAnswered_example :
    (((handled one_digit_json quiet one_handler (asked (pos 3) [])).0
        ≡ record (asked (pos 3) []) { mapper_result = invalid_param })
      × ((handled one_digit_json quiet one_handler (asked (pos 3) [])).1 ≡ one_handler))
    ⊎ IsAnswered one_digit_json (handled one_digit_json quiet one_handler (asked (pos 3) [])).0
unfolding cmd_of attach_rpc new_rpc_mgr
handled-IsAnswered_example =
    handled-IsAnswered one_digit_json quiet one_handler (asked (pos 3) []) get_settings_sts refl
      ((λ r i s. refl), tt)

one_handler-IsWell : IsWell one_handler.task_worker
unfolding attach_rpc new_rpc_mgr
one_handler-IsWell = new_task_worker-IsWell

-- The text of the trigger's answer is what the client sends back.
sent_back :
    find_single_param one_digit_json.params (b'1' ∷ []) "taskId" 255
    ≡ some (handled one_digit_json quiet one_handler (asked (pos 2) [])).0.custom_result_string
unfolding find_single_param decimal new_rpc_mgr attach_rpc cmd_of copied strlen first_bytes
sent_back =
    ap (λ n. some (decimal n)) (sym (next_id-new_task_worker (Packet ℕ)))
    ∙ ap (λ r. some r.0.custom_result_string)
        (sym (
          handled-trigger one_digit_json quiet one_handler (asked (pos 2) []) save
            one_handler-IsWell refl))

poll-trigger_example :
    ((handled one_digit_json quiet one_handler (asked (pos 2) [])).0
      ≡ answered_id one_digit_json (asked (pos 2) []) (next_id one_handler.task_worker))
    × (handled one_digit_json quiet
          (handled one_digit_json quiet one_handler (asked (pos 2) [])).1
          (asked (pos 0) (b'1' ∷ []))
        ≡ (
          answered_string one_digit_json (asked (pos 0) (b'1' ∷ [])) "InProgress",
          (handled one_digit_json quiet one_handler (asked (pos 2) [])).1,
        ))
unfolding cmd_of
poll-trigger_example =
    poll-trigger one_digit_json quiet quiet one_handler (asked (pos 2) [])
      (asked (pos 0) (b'1' ∷ [])) save one_handler-IsWell refl refl sent_back

abbrev save_task : WorkCmdTask (Packet ℕ)
save_task = new_task 1 2 (service_packet 9) preserve

-- The worker has begun to save.
abbrev saving : RpcMgr Value ℕ ℕ
saving = record one_handler {
  task_worker = begin_work (push_task new_task_worker 2 (service_packet 9) preserve).1 5;
}

led-IsFinal : All IsFinal (led ∷ [])
unfolding code_of
led-IsFinal = ((λ c p s. refl), tt)

saving-IsSound : IsSound saving
unfolding attach_rpc new_rpc_mgr
saving-IsSound = record {
  well = begin_work-first-IsWell 2 5 (service_packet 9) preserve;
  tidy = attached_receiver-IsTidyMgr 0;
  final = led-IsFinal;
}

poll-worker_ends_example :
    ((handled one_digit_json quiet (worker_ends saving) (asked (pos 0) (b'1' ∷ []))).0
      ≡ answered_string one_digit_json
          (asked (pos 0) (b'1' ∷ []))
          (convert_server_result_to_string (run_work saving 2 (service_packet 9)).0))
    × ((handled one_digit_json quiet
          (handled one_digit_json quiet (worker_ends saving) (asked (pos 0) (b'1' ∷ []))).1
          (asked (pos 0) (b'1' ∷ []))).0
        ≡ answered_string one_digit_json (asked (pos 0) (b'1' ∷ [])) "taskIDNotFound")
unfolding find_single_param decimal cmd_of copied strlen first_bytes done_action_of new_task
poll-worker_ends_example =
    poll-worker_ends one_digit_json quiet quiet saving save_task (asked (pos 0) (b'1' ∷ []))
      (asked (pos 0) (b'1' ∷ [])) saving-IsSound
      (begin_work-push_task 2 5 (service_packet 9) preserve) refl refl refl refl refl

handler_for-attach_methods_example :
    (is_this_method_registered (attach_methods one_handler).proxy led.rpc_name
      ≡ some (record { method = led.rpc_name; method_index = pos 24 }))
    × (cmd_of (pos 24) ≡ none)
    × (handler_for (attach_methods one_handler) (pos 24)
        ≡ some (record led { parent_index = pos 24 }))
unfolding attach_rpc new_rpc_mgr new_proxy bytes_eq
handler_for-attach_methods_example =
    handler_for-attach_methods one_handler 0 led refl refl refl refl refl

sys_steps-IsSound_example : IsSound (
    sys_steps one_digit_json one_handler (
      request quiet (asked (pos 2) [])
      ∷ worker (begins 5)
      ∷ worker ends
      ∷ request quiet (asked (pos 0) (b'1' ∷ []))
      ∷ []))
sys_steps-IsSound_example =
    sys_steps-IsSound one_digit_json (pos 7) false 0 (led ∷ [])
      (request quiet (asked (pos 2) [])
        ∷ worker (begins 5)
        ∷ worker ends
        ∷ request quiet (asked (pos 0) (b'1' ∷ []))
        ∷ [])
      led-IsFinal
