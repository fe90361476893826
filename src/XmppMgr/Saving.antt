-- ===== src/XmppMgr/Saving.antt =====
-- services/xmproxy/srv/src/XmppMgr.cpp: the file of the event subscriptions follows the list, and is read back.
use jsonrpc_tcp_srv.Prelude.{
  Bool, true, List, [], ◌∷◌, ◌++◌, append_assoc, append-nil, ℤ, pos, find_first, update_first,
  keep_if, All, All-append, ◌≡◌, refl, ap, sym, subst, ◌∙◌, Bool-cases, Option-cases, inl, inr,
}
use jsonrpc_tcp_srv.Framer.{Bytes}
use jsonrpc_tcp_srv.XmppMgr.{XmppMgr, EventType, gsm_event, gpio_event, EventSubscrEntry, same}
use jsonrpc_tcp_srv.XmppMgr.Aliases.{skip_spaces, word, xpandarg}
use jsonrpc_tcp_srv.XmppMgr.Numerals.{int_of}
use jsonrpc_tcp_srv.XmppMgr.Subscriptions.{
  is_subscr, subscr_line, written_subscrs, extend_event_subscr_list, rewrite_event_subscr_list, one,
  write_status, event_command, gsm_words, gpio_words, second_word, third_word, proc_cmd_event_gsm,
  proc_cmd_event_gpio, load_event_subscr_list,
}
use jsonrpc_tcp_srv.XmppMgr.Noted.{switch}
use jsonrpc_tcp_srv.XmppMgr.Loading.{IsWord, IsKnown, IsListed, load_event_subscr_list-written}
use jsonrpc_tcp_srv.XmppMgr.Receivers.{EventCommand, on_gsm, on_gpio, on_command, event_commands}

-- There is a file, it holds the enabled entries of the list, and the list's entries can be written.
abbrev pub IsKept : XmppMgr → Type 0
IsKept m =
    (m.has_event_file ≡ true)
    × (m.event_file ≡ written_subscrs m.event_list)
    × All IsListed m.event_list

written_subscrs-append :
    (es : List EventSubscrEntry) (e : EventSubscrEntry)
    → e.status ≡ true
    → written_subscrs es ++ subscr_line e ≡ written_subscrs (es ++ e ∷ [])
unfolding written_subscrs
written_subscrs-append [] e s = simp s (sym (append-nil (subscr_line e)))
written_subscrs-append (k ∷ es) e s = elim (Bool-cases k.status) [
  | inl t ↦ simp t (
      append_assoc (subscr_line k) (written_subscrs es) (subscr_line e)
      ∙ ap (λ f. subscr_line k ++ f) (written_subscrs-append es e s))
  | inr t ↦ simp t (written_subscrs-append es e s)
]

update_first-All :
    (p : EventSubscrEntry → Bool) (on : Bool) (es : List EventSubscrEntry)
    → All IsListed es
    → All IsListed (update_first p (switch on) es)
update_first-All p on [] h = h
update_first-All p on (e ∷ es) h = elim (Bool-cases (p e)) [
  | inl t ↦ rw t h
  | inr t ↦ rw t (h.0, update_first-All p on es h.1)
]

rewrite-IsKept :
    (m : XmppMgr)
    → m.has_event_file ≡ true
    → All IsListed m.event_list
    → IsKept (rewrite_event_subscr_list m)
unfolding rewrite_event_subscr_list
rewrite-IsKept m f h = rw f (refl, refl, h)

extend-IsKept :
    (m : XmppMgr) (e : EventSubscrEntry)
    → IsKept m
    → IsListed e
    → e.status ≡ true
    → IsKept (extend_event_subscr_list (record m { event_list = m.event_list ++ e ∷ [] }) e)
unfolding extend_event_subscr_list
extend-IsKept m e (f, w, h) l s = rw f (
  refl,
  ap (λ k. k ++ subscr_line e) w ∙ written_subscrs-append m.event_list e s,
  All-append IsListed m.event_list (e ∷ []) h (l, tt),
)

write_status-IsKept :
    (m : XmppMgr) (sender : Bytes) (arg : ℤ) (type : EventType) (on : Bool)
    → IsWord sender
    → IsKnown type
    → IsKept m
    → IsKept (write_status m sender arg type on)
unfolding write_status
write_status-IsKept m sender arg type on w t k =
    let q = is_subscr sender arg type in
    let e : EventSubscrEntry = record {
      subscriber = sender;
      event_type = type;
      event_arg = arg;
      status = true;
    } in
    elim (Option-cases (find_first q m.event_list)) [
      | inl f ↦
          rw (f, write_status)
            (elim (Bool-cases on) [
              | inl o ↦ rw o (extend-IsKept m e k (w, t) refl)
              | inr o ↦ rw o k
            ])
      | inr (old, f) ↦
          rw (f, write_status)
            (rewrite-IsKept (record m { event_list = update_first q (switch on) m.event_list }) k.0
              (update_first-All q on m.event_list k.2))
    ]

gsm_words-IsKept :
    (m : XmppMgr) (sender w sts : Bytes)
    → IsWord sender
    → IsKept m
    → IsKept (gsm_words m sender w sts).1
unfolding gsm_words event_command
gsm_words-IsKept m sender [] sts s k = k
gsm_words-IsKept m sender (_ ∷ _) [] s k = k
gsm_words-IsKept m sender (_ ∷ _) (v ∷ vs) s k =
    write_status-IsKept m sender (pos 0) gsm_event (same (v ∷ vs) one) s tt k

gpio_words-IsKept :
    (m : XmppMgr) (sender w io sts : Bytes)
    → IsWord sender
    → IsKept m
    → IsKept (gpio_words m sender w io sts).1
unfolding gpio_words event_command
gpio_words-IsKept m sender [] io sts s k = k
gpio_words-IsKept m sender (_ ∷ _) [] sts s k = k
gpio_words-IsKept m sender (_ ∷ _) (c ∷ cs) [] s k = k
gpio_words-IsKept m sender (_ ∷ _) (c ∷ cs) (v ∷ vs) s k =
    write_status-IsKept m sender (int_of (xpandarg m (c ∷ cs))) gpio_event
      (same (xpandarg m (v ∷ vs)) one) s tt k

-- The command comes from an address that `>>` reads as a whole.
abbrev IsFromWord : EventCommand → Type 0
IsFromWord (on_gsm msg sender) = IsWord sender
IsFromWord (on_gpio msg sender) = IsWord sender

on_command-IsKept :
    (m : XmppMgr) (c : EventCommand) → IsFromWord c → IsKept m → IsKept (on_command m c)
unfolding proc_cmd_event_gsm proc_cmd_event_gpio
on_command-IsKept m (on_gsm msg sender) s k =
    gsm_words-IsKept m sender (word (skip_spaces msg)) (second_word msg) s k
on_command-IsKept m (on_gpio msg sender) s k =
    gpio_words-IsKept m sender (word (skip_spaces msg)) (second_word msg) (third_word msg) s k

event_commands-IsKept :
    (m : XmppMgr) (cs : List EventCommand)
    → All IsFromWord cs
    → IsKept m
    → IsKept (event_commands m cs)
event_commands-IsKept m [] h k = k
event_commands-IsKept m (c ∷ cs) h k =
    event_commands-IsKept (on_command m c) cs h.1 (on_command-IsKept m c h.0 k)

-- A bot whose subscriptions and their file are empty is given any gsm and gpio commands, from addresses that
-- are not empty and hold no space: a bot that is started then loads exactly the subscriptions that are
-- enabled, in their order.
pub load_event_subscr_list-event_commands :
    (m : XmppMgr) (cs : List EventCommand)
    → m.has_event_file ≡ true
    → m.event_list ≡ []
    → m.event_file ≡ []
    → All IsFromWord cs
    → load_event_subscr_list (event_commands m cs).event_file []
      ≡ keep_if (λ e. e.status) (event_commands m cs).event_list
unfolding written_subscrs
load_event_subscr_list-event_commands m cs f l e h =
    let start : IsKept m = (f, e ∙ ap written_subscrs (sym l), subst (All IsListed) (sym l) tt) in
    let k = event_commands-IsKept m cs h start in
    ap (λ file. load_event_subscr_list file []) k.1
    ∙ load_event_subscr_list-written (event_commands m cs).event_list [] k.2
