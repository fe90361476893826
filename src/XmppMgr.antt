-- ===== src/XmppMgr.antt =====
-- services/xmproxy/srv/src XmppMgr (.h, .cpp): the bot that is told by messages what to do. Here are the
-- queue of the messages, the tasks that a message started, and the aliases with the file that keeps them.
-- A std::string is its bytes. `sent` is what send_reply was given; the help text is an argument, and so is
-- what the AI agent answers.
pub mod Aliases
pub mod Order
pub mod Pieces
pub mod Keeping
pub mod Tasks
pub mod Setting
pub mod Numerals
pub mod Subscriptions
pub mod Noted
pub mod Writes
pub mod Receivers
pub mod Loading
pub mod Saving
mod Tests
use jsonrpc_tcp_srv.Prelude.{
  ℕ, zero, suc, ◌+◌, ◌-◌, Bool, true, false, ◌||◌, ◌&&◌, not, List, [], ◌∷◌, ◌++◌, Option, none,
  some, leb, ltb, ◌==◌, if◌then◌else◌, ℤ, ◌==ℤ◌, find_first, keep_if, length, get_elem?, pos,
  negsuc,
}
use jsonrpc_tcp_srv.Framer.{Bytes}
use jsonrpc_tcp_srv.RpcResult.{RpcSrvResult, success, value_out_of_range}

pub record XmppCmdEntry : Type 0 where
  pub cmd_msg : Bytes
  pub sender : Bytes

pub record AsyncEventEntry : Type 0 where
  pub task_id : ℤ
  pub port : ℤ
  pub xmpp_tid : ℕ
  pub to : Bytes

pub data EventType : Type 0 where
  gsm_event : EventType
  gpio_event : EventType
  unknown_event : EventType
  none_event : EventType

-- `event_type`, `event_arg` and `status` are m_EvntType, m_EvntArg and m_Status.
pub record EventSubscrEntry : Type 0 where
  pub subscriber : Bytes
  pub event_type : EventType
  pub event_arg : ℤ
  pub status : Bool

-- `alias_file` and `event_file` are what the files hold; `AliasList` is in the order of its keys.
pub record XmppMgr : Type 0 where
  pub process_cmd : List XmppCmdEntry
  pub response_msg : Bytes
  pub inbox : List Bytes
  pub ai_agent : Bool
  pub sent : List (Bytes × Bytes)
  pub woken : ℕ
  pub async_task_list : List AsyncEventEntry
  pub xmpp_task_id_counter : ℕ
  pub alias_list : List (Bytes × Bytes)
  pub alias_file : Bytes
  pub has_alias_file : Bool
  pub event_list : List EventSubscrEntry
  pub event_file : Bytes
  pub has_event_file : Bool

pub same : Bytes → Bytes → Bool
same [] [] = true
same [] (y ∷ ys) = false
same (x ∷ xs) [] = false
same (x ∷ xs) (y ∷ ys) = if x == y then same xs ys else false

-- The order of std::string.
pub less : Bytes → Bytes → Bool
less xs [] = false
less [] (y ∷ ys) = true
less (x ∷ xs) (y ∷ ys) = if x == y then less xs ys else ltb x y

abbrev starts_with : Bytes → Bytes → Bool
starts_with [] s = true
starts_with (x ∷ xs) [] = false
starts_with (x ∷ xs) (y ∷ ys) = if x == y then starts_with xs ys else false

-- `msg.find(text) != npos`.
abbrev contains : Bytes → Bytes → Bool
contains text [] = starts_with text []
contains text (c ∷ s) = starts_with text (c ∷ s) || contains text s

abbrev echo_text : List Bytes
echo_text = (b'E' ∷ b'c' ∷ b'h' ∷ b'o' ∷ []) ∷ (b'e' ∷ b'c' ∷ b'h' ∷ b'o' ∷ []) ∷ []

abbrev help_word : List Bytes
help_word = (b'H' ∷ b'e' ∷ b'l' ∷ b'p' ∷ []) ∷ (b'h' ∷ b'e' ∷ b'l' ∷ b'p' ∷ []) ∷ []

abbrev return_text : Bytes
return_text = b'r' ∷ b'e' ∷ b't' ∷ b'u' ∷ b'r' ∷ b'n' ∷ b'=' ∷ []

abbrev pub is_one_of : List Bytes → Bytes → Bool
is_one_of [] s = false
is_one_of (t ∷ ts) s = same s t || is_one_of ts s

send_reply : XmppMgr → Bytes → Bytes → XmppMgr
send_reply m text to = record m { sent = m.sent ++ (text, to) ∷ [] }

on_xmpp_message : Bytes → (Bytes → Bytes) → XmppMgr → Bytes → Bytes → XmppMgr
unfolding send_reply
on_xmpp_message help ai m msg sender =
    if is_one_of echo_text msg
    then send_reply m msg sender
    else if is_one_of help_word msg
    then send_reply m help sender
    else if contains return_text msg
    then record m { response_msg = msg; inbox = m.inbox ++ msg ∷ [] }
    else if m.ai_agent
    then send_reply m (ai msg) sender
    else (record m {
      process_cmd = m.process_cmd ++ record { cmd_msg = msg; sender = sender } ∷ [];
      woken = m.woken + 1;
    })

pop_cmd : XmppMgr → Option XmppCmdEntry × XmppMgr
pop_cmd m = elim m.process_cmd [
  | [] ↦ (none, m)
  | ◌∷◌ c cs ↦ (some c, record m { process_cmd = cs })
]

abbrev pub is_entry : ℤ → ℤ → AsyncEventEntry → Bool
is_entry tid port e = (e.task_id ==ℤ tid) && (e.port ==ℤ port)

-- AccessAsyncTaskList with `insertEntryFlag`: the id that is given out.
pub insert_async_task : XmppMgr → ℤ → ℤ → Bytes → ℕ × XmppMgr
insert_async_task m tid port sender =
    let id = m.xmpp_task_id_counter + 1 in
    let e : AsyncEventEntry = record { task_id = tid; port = port; xmpp_tid = id; to = sender } in
    (id, record m { xmpp_task_id_counter = id; async_task_list = m.async_task_list ++ e ∷ [] })

-- AccessAsyncTaskList without it: the id and the sender.
pub take_async_task : XmppMgr → ℤ → ℤ → Option (ℕ × Bytes) × XmppMgr
take_async_task m tid port = elim (find_first (is_entry tid port) m.async_task_list) [
  | none ↦ (none, m)
  | some e ↦ (
    some (e.xmpp_tid, e.to),
    record m { async_task_list = keep_if (λ k. not (is_entry tid port k)) m.async_task_list },
  )
]

inbox_count : XmppMgr → ℕ
inbox_count m = length m.inbox

-- proc_cmd_get_inbox_msg.
inbox_msg : XmppMgr → ℤ → RpcSrvResult × Bytes
inbox_msg m (pos i) = elim (get_elem? m.inbox i) [
  | none ↦ (value_out_of_range, [])
  | some msg ↦ (success, msg)
]
inbox_msg m (negsuc i) = (value_out_of_range, [])

-- proc_cmd_get_inbox_empty.
inbox_empty : XmppMgr → XmppMgr
inbox_empty m = record m { inbox = [] }
