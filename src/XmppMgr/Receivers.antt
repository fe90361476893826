-- ===== src/XmppMgr/Receivers.antt =====
-- services/xmproxy/srv/src/XmppMgr.cpp: whom GpioEventCallback tells of an event, after any subscriptions.
use jsonrpc_tcp_srv.Prelude.{
  Bool, true, false, ◌&&◌, List, [], ◌∷◌, Option, none, some, if◌then◌else◌, ℤ, pos, ◌==ℤ◌, count,
  ◌≡◌, refl, sym, subst, ◌∙◌, arith, Bool-cases, inl, inr,
}
use jsonrpc_tcp_srv.Framer.{Bytes}
use jsonrpc_tcp_srv.XmppMgr.{XmppMgr, gsm_event, gpio_event, EventSubscrEntry, same}
use jsonrpc_tcp_srv.XmppMgr.Aliases.{skip_spaces, past_word, word, xpandarg}
use jsonrpc_tcp_srv.XmppMgr.Numerals.{int_of}
use jsonrpc_tcp_srv.XmppMgr.Subscriptions.{
  is_type, is_subscr, one, write_status, event_command, gsm_words, gpio_words, second_word,
  third_word, proc_cmd_event_gsm, proc_cmd_event_gpio, gpio_event_callback,
}
use jsonrpc_tcp_srv.XmppMgr.Noted.{enabled, Holds}
use jsonrpc_tcp_srv.XmppMgr.Writes.{is_type-gsm, Keeps, write-gsm, write-gpio}

-- The two event commands, each with its message and its sender.
pub data EventCommand : Type 0 where
  on_gsm : Bytes → Bytes → EventCommand
  on_gpio : Bytes → Bytes → EventCommand

abbrev pub on_command : XmppMgr → EventCommand → XmppMgr
on_command m (on_gsm msg sender) = (proc_cmd_event_gsm m msg sender).1
on_command m (on_gpio msg sender) = (proc_cmd_event_gpio m msg sender).1

abbrev pub event_commands : XmppMgr → List EventCommand → XmppMgr
event_commands m [] = m
event_commands m (c ∷ cs) = event_commands (on_command m c) cs

-- The status that a gpio command of these words asks for the events of the input `n` for an address, given
-- how arguments expand.
unfoldable pub asks_words :
    (Bytes → Bytes) → Bytes → ℤ → Bytes → Bytes → Bytes → Bytes → Option Bool
unfolding int_of
asks_words x addr n sender [] io sts = none
asks_words x addr n sender (_ ∷ _) [] sts = none
asks_words x addr n sender (_ ∷ _) (c ∷ cs) [] = none
asks_words x addr n sender (_ ∷ _) (c ∷ cs) (v ∷ vs) =
    if same sender addr && (int_of (x (c ∷ cs)) ==ℤ n) then some (same (x (v ∷ vs)) one) else none

unfoldable pub asks : (Bytes → Bytes) → Bytes → ℤ → EventCommand → Option Bool
unfolding asks_words word skip_spaces past_word
asks x addr n (on_gsm msg sender) = none
asks x addr n (on_gpio msg sender) =
    asks_words x addr n sender (word (skip_spaces msg)) (second_word msg) (third_word msg)

abbrev or_before : Bool → Option Bool → Bool
or_before b none = b
or_before b (some on) = on

-- What the last of the commands that asks for a status asks for.
unfoldable pub wanted : (Bytes → Bytes) → Bytes → ℤ → Bool → List EventCommand → Bool
wanted x addr n b [] = b
wanted x addr n b (c ∷ cs) = wanted x addr n (or_before b (asks x addr n c)) cs

gsm_words-Keeps :
    (addr : Bytes) (n : ℤ) (b : Bool) (m : XmppMgr) (sender w sts : Bytes)
    → Holds (is_subscr addr n gpio_event) b m.event_list
    → Keeps addr n b m (gsm_words m sender w sts).1
unfolding gsm_words event_command
gsm_words-Keeps addr n b m sender [] sts h = (h, refl)
gsm_words-Keeps addr n b m sender (_ ∷ _) [] h = (h, refl)
gsm_words-Keeps addr n b m sender (_ ∷ _) (v ∷ vs) h =
    write-gsm addr n b m sender (pos 0) (same (v ∷ vs) one) h

or_before-if : (t b on : Bool) → (if t then on else b) ≡ or_before b (if t then some on else none)
or_before-if true b on = refl
or_before-if false b on = refl

gpio_words-Keeps :
    (addr : Bytes) (n : ℤ) (b : Bool) (m : XmppMgr) (sender w io sts : Bytes)
    → Holds (is_subscr addr n gpio_event) b m.event_list
    → Keeps addr n
        (or_before b (asks_words (xpandarg m) addr n sender w io sts))
        m
        (gpio_words m sender w io sts).1
unfolding gpio_words event_command asks_words
gpio_words-Keeps addr n b m sender [] io sts h = (h, refl)
gpio_words-Keeps addr n b m sender (_ ∷ _) [] sts h = (h, refl)
gpio_words-Keeps addr n b m sender (_ ∷ _) (c ∷ cs) [] h = (h, refl)
gpio_words-Keeps addr n b m sender (_ ∷ _) (c ∷ cs) (v ∷ vs) h =
    let arg = int_of (xpandarg m (c ∷ cs)) in
    let on = same (xpandarg m (v ∷ vs)) one in
    subst (λ z. Keeps addr n z m (write_status m sender arg gpio_event on))
      (or_before-if (same sender addr && (arg ==ℤ n)) b on) (write-gpio addr n b m sender arg on h)

on_command-Keeps :
    (addr : Bytes) (n : ℤ) (b : Bool) (m : XmppMgr) (c : EventCommand)
    → Holds (is_subscr addr n gpio_event) b m.event_list
    → Keeps addr n (or_before b (asks (xpandarg m) addr n c)) m (on_command m c)
unfolding proc_cmd_event_gsm proc_cmd_event_gpio asks
on_command-Keeps addr n b m (on_gsm msg sender) h =
    gsm_words-Keeps addr n b m sender (word (skip_spaces msg)) (second_word msg) h
on_command-Keeps addr n b m (on_gpio msg sender) h =
    gpio_words-Keeps addr n b m sender (word (skip_spaces msg)) (second_word msg) (third_word msg) h

xpandarg-aliases : (m m' : XmppMgr) → m'.alias_list ≡ m.alias_list → xpandarg m' ≡ xpandarg m
unfolding xpandarg
xpandarg-aliases m m' a = λ i s. xpandarg (record m { alias_list = a i }) s

event_commands-Holds :
    (addr : Bytes) (n : ℤ) (b : Bool) (m : XmppMgr) (cs : List EventCommand)
    → Holds (is_subscr addr n gpio_event) b m.event_list
    → Holds
        (is_subscr addr n gpio_event)
        (wanted (xpandarg m) addr n b cs)
        (event_commands m cs).event_list
unfolding wanted
event_commands-Holds addr n b m [] h = h
event_commands-Holds addr n b m (c ∷ cs) h =
    let (s, a) = on_command-Keeps addr n b m c h in
    let b' = or_before b (asks (xpandarg m) addr n c) in
    subst
      (λ x.
        Holds (is_subscr addr n gpio_event) (wanted x addr n b' cs)
          (event_commands (on_command m c) cs).event_list)
      (xpandarg-aliases m (on_command m c) a) (event_commands-Holds addr n b' (on_command m c) cs s)

-- The address that a message goes to.
abbrev pub goes_to : Bytes → Bytes × Bytes → Bool
goes_to addr p = same p.0 addr

count-gpio_event_callback :
    (addr : Bytes) (n : ℤ) (es : List EventSubscrEntry)
    → count (goes_to addr) (gpio_event_callback n es)
      ≡ count (enabled (is_subscr addr n gpio_event)) es
unfolding gpio_event_callback is_subscr
count-gpio_event_callback addr n [] = refl
count-gpio_event_callback addr n (e ∷ es) = elim (Bool-cases (is_type e.event_type gsm_event)) [
  | inl g ↦ ground (arith, g, is_type-gsm e.event_type g, count-gpio_event_callback addr n es)
  | inr g ↦ ground (arith, g, count-gpio_event_callback addr n es)
]

-- A bot without subscriptions is given any gsm and gpio commands from any senders. Then an event of the input
-- `n` is sent to an address once, when the last of its gpio commands that names `n` and a status, their aliases
-- expanded, has the status "1", and is not sent to it when that status is another one or there is no such
-- command.
pub gpio_event_callback-event_commands :
    (m : XmppMgr) (cs : List EventCommand) (addr : Bytes) (n : ℤ)
    → m.event_list ≡ []
    → count (goes_to addr) (gpio_event_callback n (event_commands m cs).event_list)
      ≡ (if wanted (xpandarg m) addr n false cs then 1 else 0)
gpio_event_callback-event_commands m cs addr n e =
    let start = subst (Holds (is_subscr addr n gpio_event) false) (sym e) (refl, refl) in
    count-gpio_event_callback addr n (event_commands m cs).event_list
    ∙ (event_commands-Holds addr n false m cs start).1
