-- ===== src/Lib.antt =====
-- Formal model of the core of jsonrpc-tcp-srv, the library lib/lib-jsonrpc-tcp: a TCP server that
-- reads JSON-RPC requests and answers them, with tasks in the background and event subscriptions.
--
-- The parts and how they interact. A TCP connection's bytes go through a framer (Framer), which cuts
-- them into messages. The server (NetServer) queues each message as a request on a chain (Chain), the
-- locked queue that all parts share, and pauses a connection with too many unanswered requests. The
-- proxy (Proxy) takes the requests, checks them and makes each a task for the mapper's thread, or
-- answers it with an error; finished tasks go back through the proxy to the server's response chain,
-- from which the response thread sends them. A long action is pushed to the task worker (TaskWorker),
-- whose client polls it by its id, and reports its end as an event; the event manager (EvntMgr) sends
-- events to the subscribed servers. Threads (AdThread) are started, woken and stopped by all parts; a
-- timer (AdTimer) gives the ticks for, among others, the count of the minutes of service
-- (RuntimeMinCounter). Result codes and their strings (RpcResult) are used throughout. On top is the
-- manager (RpcMgr): the mapper's thread calls it for each task to decode the request, to work on it and
-- to encode the answer. It works itself on the commands that all services share, with the task worker
-- and the event manager, and gives the others to the handlers that the service attached. The parameters
-- of a request are read by StringProcessor.
--
--   Framer      src/ADJsonStreamFramer.cpp: feed, next, reset. The loop of `feed` is `scan_loop`, its
--               body `scan_byte`, the part behind it `feed_end`.
--   Chain       src/ADGenericChain.cpp: chain_put, chain_get, the calls by ident, remove_all,
--               chain_empty. The linked holders are a list.
--   RpcResult   include/ADCommon.hpp and src/ADCmnStringProcessor.cpp: RPC_SRV_RESULT, its strings.
--   AdThread    src/ADThread.cpp: the thread function, start_thread, stop_thread with join_thread, and
--               wakeup_thread, as the steps that they make between the waits.
--   AdTimer     src/ADTimer.cpp: the period of the interval timer, and its ticks on AdThread.
--   RuntimeMinCounter  src/ADRuntimeMinCounter.cpp: the minutes of service, counted on a heartbeat.
--   TaskWorker  src/ADTaskWorker.cpp: push_task, get_task_status, reset_task_id_and_chain,
--               evict_completed_tasks; `monoshot_callback_function` is `begin_work` up to the call of
--               the consumer's run_work and `finish_work` after it.
--   EvntMgr     src/ADEvntMgr.cpp: the subscriptions, both event queues, the delivery of events and
--               the failure counts. Each section under the lock is a function of its own.
--   NetServer   src/ADNetServer.cpp: NetServer.antt has the connections and the queueing of requests,
--               Listen the listen thread, Sending the responses and the response thread; Accounts says
--               what the count of a connection stands for, and System puts the steps of the threads
--               and of the consumer in any order.
--   Proxy       src/ADJsonRpcProxy.cpp and src/ADJsonRpcMapper.cpp: json_process_request, the mapper's
--               callback (`mapper_take` and `mapper_finish`), json_process_rsponse. Requests has the
--               requests and replies, Mapper the mapper's callback; Pipeline puts the steps of
--               their threads in any order; Standard has the requests and the errors
--               of JSON-RPC 2.0.
--   StringProcessor  src/ADCmnStringProcessor.cpp find_single_param, and the conversions of a parameter to
--               a number in include/ADCommon.hpp.
--   RpcMgr      src/ADJsonRpcMgr.cpp and include/ADJsonRpcMgr.hpp: Decode has json_to_bin_*, Process
--               process_*, Encode bin_to_json_*, Worker run_work and what the task worker's thread does,
--               Requests the three calls of a request (`handled` is all of them, as the mapper makes
--               them), Lifecycle Start and Stop. Threads puts the steps of its threads in any order.
--   XmppMgr     XmppMgr (.h, .cpp) of services/xmproxy/srv/src, a service on top of the library: the messages
--               that a bot is told (`on_xmpp_message`, `pop_cmd`) and the tasks whose end it waits for;
--               Aliases has proc_cmd_alias and the file that keeps the aliases, Subscriptions the event
--               subscriptions (proc_cmd_event_gsm, proc_cmd_event_gpio, GpioEventCallback) and their file.
-- (other paths from lib/lib-jsonrpc-tcp)
--
-- State and concurrency. A part's state is a record with the source's fields; an operation is a
-- function on it. What the source does under one lock is one step, and what its threads do is a list
-- of steps in any order. The loop of `queue_framed_requests` locks once for each request and is one
-- step here, since only the listen thread adds requests. Pointers to shared objects are idents.
--
-- Bounds and fuel. Counters and tokens are natural numbers: a chain's idents and the event manager's
-- tokens are C++ ints, and the model says nothing about a process that has given out 2^31 of them. The
-- minute counter wraps at 2^32. The name of an attached handler is at most as long as its buffer; the
-- overflow of a longer one is not modelled, nor is `atoi` beyond an int.
-- `evict_loop` takes the number of records plus one as fuel and `deregister_loop` the number of
-- records, since each round removes one. `send_loop`, `read_connection` and `Pipeline.run` are given
-- the list of what the system answers, and `reset_looks` the looks of its waiting loop. `decimal` takes
-- the number plus one, which has no more digits. Times are milliseconds of a monotonic clock.
--
-- Not modelled: memory that cannot be allocated; json-c, the JSON checker and the socket calls, which
-- are parameters or arguments; logging and printing; the start of the server, the signals of the timer
-- (ADTimer), the clients, the drivers and the services on top of the library but for XmppMgr; the
-- handlers of a service are a parameter of the manager. XmppMgr's other commands and its XMPP library
-- are not modelled.
mod Prelude
pub mod Framer
pub mod Chain
pub mod RpcResult
pub mod StringProcessor
pub mod AdThread
pub mod AdTimer
pub mod RuntimeMinCounter
pub mod TaskWorker
pub mod EvntMgr
pub mod NetServer
pub mod Proxy
pub mod RpcMgr
pub mod XmppMgr
