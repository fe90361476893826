-- ===== src/XmppMgr/Tests.antt =====
-- The bot's properties with a few aliases and tasks.
use jsonrpc_tcp_srv.Prelude.{
  true, false, List, [], ◌∷◌, ◌++◌, some, pos, count, keep_if, if◌then◌else◌, ◌≡◌, refl,
}
use jsonrpc_tcp_srv.Framer.{Bytes}
use jsonrpc_tcp_srv.StringProcessor.{is_space}
use jsonrpc_tcp_srv.XmppMgr.{XmppMgr, same, insert_async_task, take_async_task}
use jsonrpc_tcp_srv.XmppMgr.Aliases.{
  xpandarg, skip_spaces, alias_find, load_alias_list, proc_cmd_alias, commands_of,
}
use jsonrpc_tcp_srv.XmppMgr.Keeping.{alias_commands, load_alias_list-alias_commands}
use jsonrpc_tcp_srv.XmppMgr.Tasks.{insert, take, calls, take_async_task-insert_async_task}
use jsonrpc_tcp_srv.XmppMgr.Numerals.{int_of, to_string}
use jsonrpc_tcp_srv.XmppMgr.Subscriptions.{gpio_event_callback, load_event_subscr_list}
use jsonrpc_tcp_srv.XmppMgr.Loading.{IsWord}
use jsonrpc_tcp_srv.XmppMgr.Receivers.{
  EventCommand, on_gsm, on_gpio, event_commands, asks_words, asks, wanted, goes_to,
  gpio_event_callback-event_commands,
}
use jsonrpc_tcp_srv.XmppMgr.Saving.{load_event_subscr_list-event_commands}
use jsonrpc_tcp_srv.XmppMgr.Setting.{alias_text, alias_find-proc_cmd_alias}

abbrev idle_bot : XmppMgr
idle_bot = record {
  process_cmd = [];
  response_msg = [];
  inbox = [];
  ai_agent = false;
  sent = [];
  woken = 0;
  async_task_list = [];
  xmpp_task_id_counter = 0;
  alias_list = [];
  alias_file = [];
  has_alias_file = true;
  event_list = [];
  event_file = [];
  has_event_file = true;
}

-- "alias k=up", "alias j=d" and "alias k=", which deletes the first.
abbrev three_commands : List Bytes
three_commands =
    (alias_text ++ b'k' ∷ b'=' ∷ b'u' ∷ b'p' ∷ [])
    ∷ (alias_text ++ b'j' ∷ b'=' ∷ b'd' ∷ [])
    ∷ (alias_text ++ b'k' ∷ b'=' ∷ [])
    ∷ []

load_alias_list-alias_commands_example :
    load_alias_list (alias_commands idle_bot three_commands).alias_file []
    ≡ (alias_commands idle_bot three_commands).alias_list
load_alias_list-alias_commands_example =
    load_alias_list-alias_commands idle_bot three_commands refl refl refl (refl, (refl, (refl, tt)))

alias_find-proc_cmd_alias_example :
    (alias_find
        (b'k' ∷ [])
        (proc_cmd_alias idle_bot
          (alias_text ++ (b'k' ∷ []) ++ b'=' ∷ b'u' ∷ b'p' ∷ [])).1.alias_list
      ≡ some (b'u' ∷ b'p' ∷ []))
    × ((other : Bytes)
        → same other (b'k' ∷ []) ≡ false
        → alias_find other
            (proc_cmd_alias idle_bot
              (alias_text ++ (b'k' ∷ []) ++ b'=' ∷ b'u' ∷ b'p' ∷ [])).1.alias_list
          ≡ alias_find other idle_bot.alias_list)
unfolding is_space skip_spaces
alias_find-proc_cmd_alias_example =
    alias_find-proc_cmd_alias idle_bot (b'k' ∷ []) b'u' (b'p' ∷ []) refl refl refl refl

take_async_task-insert_async_task_example :
    (take_async_task
      (calls
        (insert_async_task idle_bot (pos 4) (pos 40001) (b'a' ∷ [])).1
        (insert (pos 4) (pos 40002) (b'b' ∷ []) ∷ take (pos 4) (pos 40002) ∷ []))
      (pos 4)
      (pos 40001)).0
    ≡ some ((insert_async_task idle_bot (pos 4) (pos 40001) (b'a' ∷ [])).0, b'a' ∷ [])
take_async_task-insert_async_task_example =
    take_async_task-insert_async_task idle_bot (pos 4) (pos 40001) (b'a' ∷ [])
      (insert (pos 4) (pos 40002) (b'b' ∷ []) ∷ take (pos 4) (pos 40002) ∷ []) refl (tt, (refl, tt))

-- An alias whose key has a capital letter is not found by a message that is this key.
capital_alias :
    commands_of (proc_cmd_alias idle_bot (alias_text ++ b'K' ∷ b'=' ∷ b'u' ∷ [])).1 (b'K' ∷ [])
    ≡ (b'k' ∷ []) ∷ []
unfolding commands_of proc_cmd_alias same is_space
capital_alias = refl

-- "g 12 1" of one address, "g 12 1" and "g 12 0" of another, and "s 1".
abbrev four_subscriptions : List EventCommand
four_subscriptions =
    on_gpio (b'g' ∷ b' ' ∷ b'1' ∷ b'2' ∷ b' ' ∷ b'1' ∷ []) (b'a' ∷ [])
    ∷ on_gpio (b'g' ∷ b' ' ∷ b'1' ∷ b'2' ∷ b' ' ∷ b'1' ∷ []) (b'b' ∷ [])
    ∷ on_gpio (b'g' ∷ b' ' ∷ b'1' ∷ b'2' ∷ b' ' ∷ b'0' ∷ []) (b'b' ∷ [])
    ∷ on_gsm (b's' ∷ b' ' ∷ b'1' ∷ []) (b'a' ∷ [])
    ∷ []

gpio_event_callback-event_commands_example :
    count
      (goes_to (b'a' ∷ []))
      (gpio_event_callback (pos 12) (event_commands idle_bot four_subscriptions).event_list)
    ≡ (if wanted (xpandarg idle_bot) (b'a' ∷ []) (pos 12) false four_subscriptions then 1 else 0)
gpio_event_callback-event_commands_example =
    gpio_event_callback-event_commands idle_bot four_subscriptions (b'a' ∷ []) (pos 12) refl

load_event_subscr_list-event_commands_example :
    load_event_subscr_list (event_commands idle_bot four_subscriptions).event_file []
    ≡ keep_if (λ e. e.status) (event_commands idle_bot four_subscriptions).event_list
unfolding is_space IsWord
load_event_subscr_list-event_commands_example =
    load_event_subscr_list-event_commands idle_bot four_subscriptions refl refl refl
      ((refl, tt), ((refl, tt), ((refl, tt), ((refl, tt), tt))))

-- Only the first of the two addresses is wanted.
wanted_first :
    (wanted (xpandarg idle_bot) (b'a' ∷ []) (pos 12) false four_subscriptions ≡ true)
    × (wanted (xpandarg idle_bot) (b'b' ∷ []) (pos 12) false four_subscriptions ≡ false)
unfolding wanted asks asks_words int_of xpandarg same is_space
wanted_first = (refl, refl)

twelve : to_string (pos 12) ≡ b'1' ∷ b'2' ∷ []
unfolding to_string
twelve = refl
