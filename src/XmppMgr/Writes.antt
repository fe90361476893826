-- ===== src/XmppMgr/Writes.antt =====
-- services/xmproxy/srv/src/XmppMgr.cpp proc_cmd_event_gsm, proc_cmd_event_gpio: what a write of a status keeps.
use jsonrpc_tcp_srv.Prelude.{
  Bool, true, false, ◌&&◌, [], ◌∷◌, ◌++◌, if◌then◌else◌, ℤ, ◌==ℤ◌, ==ℤ_iff, find_first,
  update_first, ◌≡◌, refl, ap, sym, subst, ◌∙◌, arith, Bool-cases, Option-cases, inl, inr,
}
use jsonrpc_tcp_srv.Framer.{Bytes}
use jsonrpc_tcp_srv.XmppMgr.{XmppMgr, EventType, gsm_event, gpio_event, EventSubscrEntry, same}
use jsonrpc_tcp_srv.XmppMgr.Order.{same-≡, same_refl}
use jsonrpc_tcp_srv.XmppMgr.Subscriptions.{
  is_type, is_subscr, extend_event_subscr_list, rewrite_event_subscr_list, write_status,
}
use jsonrpc_tcp_srv.XmppMgr.Noted.{switch, Holds, noted, Blind, noted-same, noted-other}

extend-list :
    (m : XmppMgr) (e : EventSubscrEntry)
    → ((extend_event_subscr_list m e).event_list ≡ m.event_list)
      × ((extend_event_subscr_list m e).alias_list ≡ m.alias_list)
unfolding extend_event_subscr_list
extend-list m e = elim (Bool-cases m.has_event_file) [
  | inl h ↦ rw h (refl, refl)
  | inr h ↦ rw h (refl, refl)
]

rewrite-list :
    (m : XmppMgr)
    → ((rewrite_event_subscr_list m).event_list ≡ m.event_list)
      × ((rewrite_event_subscr_list m).alias_list ≡ m.alias_list)
unfolding rewrite_event_subscr_list
rewrite-list m = elim (Bool-cases m.has_event_file) [
  | inl h ↦ rw h (refl, refl)
  | inr h ↦ rw h (refl, refl)
]

abbrev new_entry : Bytes → ℤ → EventType → EventSubscrEntry
new_entry sender arg type = record {
  subscriber = sender;
  event_type = type;
  event_arg = arg;
  status = true;
}

write_status-list :
    (m : XmppMgr) (sender : Bytes) (arg : ℤ) (type : EventType) (on : Bool)
    → ((write_status m sender arg type on).event_list
        ≡ noted (is_subscr sender arg type) (new_entry sender arg type) on m.event_list)
      × ((write_status m sender arg type on).alias_list ≡ m.alias_list)
unfolding write_status
write_status-list m sender arg type on =
    let q = is_subscr sender arg type in
    elim (Option-cases (find_first q m.event_list)) [
      | inl f ↦
          rw (f, write_status, noted)
            (elim (Bool-cases on) [
              | inl o ↦ rw o (
                  extend-list
                    (record m { event_list = m.event_list ++ new_entry sender arg type ∷ [] })
                    (new_entry sender arg type))
              | inr o ↦ rw o (refl, refl)
            ])
      | inr (k, f) ↦
          rw (f, write_status, noted)
            (rewrite-list (record m { event_list = update_first q (switch on) m.event_list }))
    ]

is_subscr-Blind : (addr : Bytes) (n : ℤ) (type : EventType) → Blind (is_subscr addr n type)
unfolding Blind is_subscr
is_subscr-Blind addr n type on e = refl

pub is_type-gsm : (t : EventType) → is_type t gsm_event ≡ true → is_type t gpio_event ≡ false
is_type-gsm gsm_event h = refl
is_type-gsm gpio_event h = absurd (ground arith)
is_type-gsm _ h = absurd (ground arith)

apart-gsm :
    (sender addr : Bytes) (arg n : ℤ) (e : EventSubscrEntry)
    → is_subscr sender arg gsm_event e ≡ true
    → is_subscr addr n gpio_event e ≡ false
unfolding is_subscr
apart-gsm sender addr arg n e h =
    let g : is_type e.event_type gsm_event ≡ true = ground arith in
    ground (arith, g, is_type-gsm e.event_type g)

apart-gpio :
    (sender addr : Bytes) (arg n : ℤ)
    → same sender addr && (arg ==ℤ n) ≡ false
    → (e : EventSubscrEntry) → is_subscr sender arg gpio_event e ≡ true
    → is_subscr addr n gpio_event e ≡ false
unfolding is_subscr
apart-gpio sender addr arg n o e h = elim (Bool-cases (is_type e.event_type gsm_event)) [
  | inl g ↦ ground (arith, g, is_type-gsm e.event_type g)
  | inr g ↦
      let s : e.subscriber ≡ sender = same-≡ e.subscriber sender (ground arith) in
      let a : e.event_arg ≡ arg = (==ℤ_iff e.event_arg arg).0 (ground arith) in
      let u : same e.subscriber addr && (e.event_arg ==ℤ n) ≡ false =
        subst (λ z. same z addr && (e.event_arg ==ℤ n) ≡ false) (sym s)
          (subst (λ z. same sender addr && (z ==ℤ n) ≡ false) (sym a) o) in
      ground (arith, g, u)
]

new_entry-gsm :
    (sender : Bytes) (arg : ℤ)
    → is_subscr sender arg gsm_event (new_entry sender arg gsm_event) ≡ true
unfolding is_subscr
new_entry-gsm sender arg = ground (arith, same_refl sender)

new_entry-gpio :
    (sender : Bytes) (arg : ℤ)
    → is_subscr sender arg gpio_event (new_entry sender arg gpio_event) ≡ true
unfolding is_subscr
new_entry-gpio sender arg = ground (arith, same_refl sender, (==ℤ_iff arg arg).1 refl)

-- After a step from `m`: the list holds the status `b`, and the aliases are those of `m`.
abbrev pub Keeps : Bytes → ℤ → Bool → XmppMgr → XmppMgr → Type 0
Keeps addr n b m m' =
    Holds (is_subscr addr n gpio_event) b m'.event_list × (m'.alias_list ≡ m.alias_list)

pub write-gsm :
    (addr : Bytes) (n : ℤ) (b : Bool) (m : XmppMgr) (sender : Bytes) (arg : ℤ) (on : Bool)
    → Holds (is_subscr addr n gpio_event) b m.event_list
    → Keeps addr n b m (write_status m sender arg gsm_event on)
write-gsm addr n b m sender arg on h =
    let (l, a) = write_status-list m sender arg gsm_event on in
    (
      subst (Holds (is_subscr addr n gpio_event) b) (sym l) (
          noted-other (is_subscr sender arg gsm_event) (is_subscr addr n gpio_event)
            (is_subscr-Blind addr n gpio_event) (apart-gsm sender addr arg n)
            (new_entry sender arg gsm_event) b on m.event_list (new_entry-gsm sender arg) h),
      a,
    )

pub write-gpio :
    (addr : Bytes) (n : ℤ) (b : Bool) (m : XmppMgr) (sender : Bytes) (arg : ℤ) (on : Bool)
    → Holds (is_subscr addr n gpio_event) b m.event_list
    → Keeps addr n
        (if same sender addr && (arg ==ℤ n) then on else b)
        m
        (write_status m sender arg gpio_event on)
write-gpio addr n b m sender arg on h =
    let (l, a) = write_status-list m sender arg gpio_event on in
    let q = is_subscr addr n gpio_event in
    elim (Bool-cases (same sender addr && (arg ==ℤ n))) [
      | inl t ↦
          let s : sender ≡ addr = same-≡ sender addr (ground arith) in
          let i : arg ≡ n = (==ℤ_iff arg n).0 (ground arith) in
          let self : is_subscr addr n gpio_event (new_entry sender arg gpio_event) ≡ true =
            subst (λ z. is_subscr z n gpio_event (new_entry sender arg gpio_event) ≡ true) s
              (subst (λ z. is_subscr sender z gpio_event (new_entry sender arg gpio_event) ≡ true) i
                (new_entry-gpio sender arg)) in
          let p_q : is_subscr sender arg gpio_event ≡ q =
            ap (λ z. is_subscr z arg gpio_event) s ∙ ap (λ z. is_subscr addr z gpio_event) i in
          rw t (
            subst (Holds q on) (sym l) (
                subst (λ p. Holds q on (noted p (new_entry sender arg gpio_event) on m.event_list))
                  (sym p_q)
                  (noted-same q (is_subscr-Blind addr n gpio_event)
                    (new_entry sender arg gpio_event) b on m.event_list self refl h)),
            a,
          )
      | inr t ↦ rw t (
        subst (Holds q b) (sym l) (
            noted-other (is_subscr sender arg gpio_event) q (is_subscr-Blind addr n gpio_event)
              (apart-gpio sender addr arg n t) (new_entry sender arg gpio_event) b on m.event_list
              (new_entry-gpio sender arg) h),
        a,
      )
    ]
