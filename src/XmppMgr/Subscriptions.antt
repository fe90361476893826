-- ===== src/XmppMgr/Subscriptions.antt =====
-- services/xmproxy/srv/src XmppMgr (.h, .cpp): the event subscriptions and the file that keeps them.
use jsonrpc_tcp_srv.Prelude.{
  Bool, true, false, ◌&&◌, List, [], ◌∷◌, ◌++◌, Option, none, some, if◌then◌else◌, ℤ, pos, ◌==ℤ◌,
  find_first, update_first,
}
use jsonrpc_tcp_srv.Framer.{Bytes}
use jsonrpc_tcp_srv.RpcResult.{RpcSrvResult, success, unknown_command, arg_error}
use jsonrpc_tcp_srv.XmppMgr.{
  XmppMgr, EventType, gsm_event, gpio_event, unknown_event, none_event, EventSubscrEntry, same,
}
use jsonrpc_tcp_srv.XmppMgr.Numerals.{int_of, to_string}
use jsonrpc_tcp_srv.XmppMgr.Aliases.{lines, skip_spaces, past_word, word, xpandarg}

-- EXMPP_EVNT_TYPES_TABL.
unfoldable pub type_name : EventType → Bytes
type_name gsm_event = b'g' ∷ b's' ∷ b'm' ∷ []
type_name gpio_event = b'g' ∷ b'p' ∷ b'i' ∷ b'o' ∷ []
type_name unknown_event = b'u' ∷ b'n' ∷ b'k' ∷ b'n' ∷ b'o' ∷ b'w' ∷ b'n' ∷ []
type_name none_event = b'n' ∷ b'o' ∷ b'n' ∷ b'e' ∷ []

abbrev pub is_type : EventType → EventType → Bool
is_type gsm_event gsm_event = true
is_type gpio_event gpio_event = true
is_type unknown_event unknown_event = true
is_type none_event none_event = true
is_type _ _ = false

-- FindEventSubscrEntry.
unfoldable pub is_subscr : Bytes → ℤ → EventType → EventSubscrEntry → Bool
is_subscr addr arg type e =
    if is_type e.event_type gsm_event
    then same e.subscriber addr && is_type e.event_type type
    else if is_type e.event_type gpio_event
    then same e.subscriber addr && (e.event_arg ==ℤ arg) && is_type e.event_type type
    else false

-- The line of an entry, in ExtendEventSubscrList and in RewriteEventSubscrList.
unfoldable pub subscr_text : EventSubscrEntry → Bytes
unfolding type_name
subscr_text e = e.subscriber ++ b' ' ∷ (type_name e.event_type ++ b' ' ∷ to_string e.event_arg)

unfoldable pub subscr_line : EventSubscrEntry → Bytes
unfolding subscr_text
subscr_line e = subscr_text e ++ b'\n' ∷ []

unfoldable pub written_subscrs : List EventSubscrEntry → Bytes
unfolding subscr_line
written_subscrs [] = []
written_subscrs (e ∷ es) =
    let rest = written_subscrs es in if e.status then subscr_line e ++ rest else rest

unfoldable pub extend_event_subscr_list : XmppMgr → EventSubscrEntry → XmppMgr
unfolding subscr_line
extend_event_subscr_list m e =
    if m.has_event_file then record m { event_file = m.event_file ++ subscr_line e } else m

unfoldable pub rewrite_event_subscr_list : XmppMgr → XmppMgr
unfolding written_subscrs
rewrite_event_subscr_list m =
    if m.has_event_file then record m { event_file = written_subscrs m.event_list } else m

-- The second and the third word of a message.
abbrev pub second_word : Bytes → Bytes
second_word msg = word (skip_spaces (past_word (skip_spaces msg)))

abbrev pub third_word : Bytes → Bytes
third_word msg = second_word (past_word (skip_spaces msg))

-- The entries that a line of these words adds to the list.
unfoldable pub subscrs_of_words : Bytes → Bytes → Bytes → List EventSubscrEntry
unfolding int_of type_name
subscrs_of_words addr type arg =
    let entry : EventType → EventSubscrEntry =
      λ t. record { subscriber = addr; event_type = t; event_arg = int_of arg; status = true } in
    if same type (type_name gsm_event)
    then entry gsm_event ∷ []
    else if same type (type_name gpio_event)
    then entry gpio_event ∷ []
    else []

unfoldable pub subscrs_of_line : Bytes → List EventSubscrEntry
unfolding subscrs_of_words word skip_spaces past_word
subscrs_of_line l = subscrs_of_words (word (skip_spaces l)) (second_word l) (third_word l)

unfoldable pub load_subscr_lines : List Bytes → List EventSubscrEntry → List EventSubscrEntry
unfolding subscrs_of_line
load_subscr_lines [] es = es
load_subscr_lines (l ∷ ls) es = load_subscr_lines ls (es ++ subscrs_of_line l)

-- LoadEventSubscrList of what the file holds, into the list.
unfoldable pub load_event_subscr_list : Bytes → List EventSubscrEntry → List EventSubscrEntry
unfolding load_subscr_lines lines
load_event_subscr_list file es = load_subscr_lines (lines file) es

abbrev pub one : Bytes
one = b'1' ∷ []

-- `returnval` of a command that reads the status.
abbrev status_reply : Option EventSubscrEntry → Bytes
status_reply none = b'0' ∷ []
status_reply (some e) = if e.status then one else b'0' ∷ []

-- A command that writes the status `on`.
unfoldable pub write_status : XmppMgr → Bytes → ℤ → EventType → Bool → XmppMgr
unfolding extend_event_subscr_list rewrite_event_subscr_list is_subscr
write_status m sender arg type on =
    let e : EventSubscrEntry = record {
      subscriber = sender;
      event_type = type;
      event_arg = arg;
      status = true;
    } in
    let found = is_subscr sender arg type in
    elim (find_first found m.event_list) [
      | some _ ↦ rewrite_event_subscr_list (record m {
        event_list = update_first found (λ k. record k { status = on }) m.event_list;
      })
      | none ↦
          if on
          then extend_event_subscr_list (record m { event_list = m.event_list ++ e ∷ [] }) e
          else m
    ]

-- A command by its status argument; without one it reads the status.
unfoldable pub event_command :
    XmppMgr → Bytes → ℤ → EventType → Bytes → (RpcSrvResult × Bytes) × XmppMgr
unfolding write_status xpandarg is_subscr
event_command m sender arg type [] =
    ((success, status_reply (find_first (is_subscr sender arg type) m.event_list)), m)
event_command m sender arg gpio_event (c ∷ cs) =
    ((success, []), write_status m sender arg gpio_event (same (xpandarg m (c ∷ cs)) one))
event_command m sender arg type (c ∷ cs) =
    ((success, []), write_status m sender arg type (same (c ∷ cs) one))

-- The commands by their words, with the result and `returnval`.
unfoldable pub gsm_words : XmppMgr → Bytes → Bytes → Bytes → (RpcSrvResult × Bytes) × XmppMgr
unfolding event_command
gsm_words m sender [] sts = ((unknown_command, []), m)
gsm_words m sender (_ ∷ _) sts = event_command m sender (pos 0) gsm_event sts

unfoldable pub gpio_words :
    XmppMgr → Bytes → Bytes → Bytes → Bytes → (RpcSrvResult × Bytes) × XmppMgr
unfolding event_command int_of xpandarg
gpio_words m sender [] io sts = ((unknown_command, []), m)
gpio_words m sender (_ ∷ _) [] sts = ((arg_error, []), m)
gpio_words m sender (_ ∷ _) (c ∷ cs) sts =
    event_command m sender (int_of (xpandarg m (c ∷ cs))) gpio_event sts

unfoldable pub proc_cmd_event_gsm : XmppMgr → Bytes → Bytes → (RpcSrvResult × Bytes) × XmppMgr
unfolding gsm_words word skip_spaces past_word
proc_cmd_event_gsm m msg sender = gsm_words m sender (word (skip_spaces msg)) (second_word msg)

unfoldable pub proc_cmd_event_gpio : XmppMgr → Bytes → Bytes → (RpcSrvResult × Bytes) × XmppMgr
unfolding gpio_words word skip_spaces past_word
proc_cmd_event_gpio m msg sender =
    gpio_words m sender (word (skip_spaces msg)) (second_word msg) (third_word msg)

abbrev pub event_text : ℤ → Bytes
unfolding to_string
event_text arg = b'e' ∷ b'v' ∷ b'e' ∷ b'n' ∷ b't' ∷ b'g' ∷ b'p' ∷ b'i' ∷ b'o' ∷ b' ' ∷ to_string arg

abbrev pub gets_event : ℤ → EventSubscrEntry → Bool
gets_event arg e = is_type e.event_type gpio_event && (e.event_arg ==ℤ arg) && e.status

-- What GpioEventCallback sends: the buddies and the texts.
unfoldable pub gpio_event_callback : ℤ → List EventSubscrEntry → List (Bytes × Bytes)
gpio_event_callback arg [] = []
gpio_event_callback arg (e ∷ es) =
    let rest = gpio_event_callback arg es in
    if gets_event arg e then (e.subscriber, event_text arg) ∷ rest else rest
