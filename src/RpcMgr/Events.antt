-- ===== src/RpcMgr/Events.antt =====
-- lib/lib-jsonrpc-tcp/src/ADJsonRpcMgr.cpp process_event_*: the requests about events.
use jsonrpc_tcp_srv.Prelude.{false, none, some, if◌then◌else◌, ℤ, pos}
use jsonrpc_tcp_srv.RpcResult.{success, item_not_found, item_duplicate_found}
use jsonrpc_tcp_srv.EvntMgr.{
  EventEntry, register_event_subscription, unregister_event_subscription, notify_event,
  process_event,
}
use jsonrpc_tcp_srv.RpcMgr.{EventPacket, event_packet, RequestObj, RpcMgr}
use jsonrpc_tcp_srv.RpcMgr.Packets.{event_of, answered}

pub new_event_entry : EventPacket → EventEntry
new_event_entry p = record {
  clt_token = p.clt_token;
  port_num = p.port_num;
  event_num = p.event_num;
  srv_token = 0;
  sock_descr = p.sock_descr;
  sock_id = p.sock_id;
  ip = p.ip;
  delete_flag = false;
  fail_count = 0;
  first_fail_ms = 0;
}

module _ {J V S : Type 0} where
  -- The work of a request whose packet is an event.
  unfoldable pub on_event :
      (EventPacket → ℤ × RequestObj J V × RpcMgr J V S)
      → RpcMgr J V S
      → RequestObj J V
      → ℤ × RequestObj J V × RpcMgr J V S
  unfolding event_of
  on_event work m r = elim (event_of r.req.data_ref) [ some p ↦ work p | none ↦ (pos 0, r, m) ]

  unfoldable pub process_event_subscribe :
      RpcMgr J V S → RequestObj J V → ℤ × RequestObj J V × RpcMgr J V S
  unfolding on_event answered new_event_entry
  process_event_subscribe m r =
      on_event
        (λ p.
          let (token, e) = register_event_subscription m.event_mgr (new_event_entry p) in
          let m' = record m { event_mgr = e } in
          elim token [
            | some t ↦ answered m' r success (event_packet (record p { srv_token = pos t }))
            | none ↦ answered m' r item_duplicate_found r.req.data_ref
          ])
        m r

  unfoldable pub process_event_unsubscribe :
      RpcMgr J V S → RequestObj J V → ℤ × RequestObj J V × RpcMgr J V S
  unfolding on_event answered
  process_event_unsubscribe m r =
      on_event
        (λ p.
          let (found, e) = unregister_event_subscription m.event_mgr p.srv_token in
          answered (record m { event_mgr = e }) r (if found then success else item_not_found)
            r.req.data_ref)
        m r

  unfoldable pub process_event_notify :
      RpcMgr J V S → RequestObj J V → ℤ × RequestObj J V × RpcMgr J V S
  unfolding on_event answered
  process_event_notify m r =
      on_event
        (λ p.
          answered
            (record m { event_mgr = notify_event m.event_mgr p.event_num p.event_arg p.event_arg2 })
            r success r.req.data_ref)
        m r

  unfoldable pub process_event_process :
      RpcMgr J V S → RequestObj J V → ℤ × RequestObj J V × RpcMgr J V S
  unfolding on_event answered
  process_event_process m r =
      on_event
        (λ p.
          answered
            (record m {
              event_mgr =
                  process_event m.event_mgr p.event_num p.event_arg p.clt_token p.event_arg2;
            })
            r success r.req.data_ref)
        m r
