-- ===== src/XmppMgr/Loading.antt =====
-- services/xmproxy/srv/src/XmppMgr.cpp LoadEventSubscrList, ExtendEventSubscrList, RewriteEventSubscrList: the file
-- of the event subscriptions.
use jsonrpc_tcp_srv.Prelude.{
  ℕ, true, false, List, [], ◌∷◌, ◌++◌, append_assoc, append-nil, ℤ, keep_if, All, ◌≡◌, refl, ap,
  sym, ◌∙◌, arith, Bool-cases, inl, inr,
}
use jsonrpc_tcp_srv.Framer.{Bytes}
use jsonrpc_tcp_srv.StringProcessor.{is_space}
use jsonrpc_tcp_srv.XmppMgr.{
  EventType, gsm_event, gpio_event, unknown_event, none_event, EventSubscrEntry, same,
}
use jsonrpc_tcp_srv.XmppMgr.Aliases.{lines, skip_spaces, past_word, word}
use jsonrpc_tcp_srv.XmppMgr.Pieces.{IsFree, IsFree-append, lines-line}
use jsonrpc_tcp_srv.XmppMgr.Numerals.{to_string, int_of-to_string, IsUnspaced, to_string-IsUnspaced}
use jsonrpc_tcp_srv.XmppMgr.Subscriptions.{
  type_name, subscr_text, subscr_line, written_subscrs, second_word, third_word, subscrs_of_words,
  subscrs_of_line, load_subscr_lines, load_event_subscr_list,
}

-- A text that `>>` reads as a whole.
unfoldable pub IsWord : Bytes → Type 0
IsWord [] = ⊥
IsWord (x ∷ xs) = IsUnspaced (x ∷ xs)

word-append :
    (s r : Bytes) (d : ℕ)
    → IsUnspaced s
    → is_space d ≡ true
    → (word (s ++ d ∷ r) ≡ s) × (past_word (s ++ d ∷ r) ≡ d ∷ r)
unfolding word past_word
word-append [] r d h t = rw t (refl, refl)
word-append (x ∷ s) r d h t =
    let no : is_space x ≡ false = h.0 in
    let (w, p) = word-append s r d h.1 t in rw no (ap (λ z. x ∷ z) w, p)

word-whole : (s : Bytes) → IsUnspaced s → (word s ≡ s) × (skip_spaces s ≡ s)
unfolding word skip_spaces
word-whole [] h = (refl, refl)
word-whole (x ∷ s) h =
    let no : is_space x ≡ false = h.0 in rw no (ap (λ z. x ∷ z) (word-whole s h.1).0, refl)

skip_spaces-append : (s r : Bytes) → IsWord s → skip_spaces (s ++ r) ≡ s ++ r
unfolding skip_spaces IsWord
skip_spaces-append [] r h = absurd h
skip_spaces-append (x ∷ s) r h = let no : is_space x ≡ false = h.0 in rw no refl

IsWord-IsUnspaced : (s : Bytes) → IsWord s → IsUnspaced s
unfolding IsWord
IsWord-IsUnspaced [] h = tt
IsWord-IsUnspaced (x ∷ s) h = h

IsUnspaced-IsFree : (s : Bytes) → IsUnspaced s → IsFree b'\n' s
unfolding is_space
IsUnspaced-IsFree [] h = refl
IsUnspaced-IsFree (x ∷ s) h = ground (arith, h.0, IsUnspaced-IsFree s h.1)

-- The three words of a line.
words_lem :
    (a t z : Bytes)
    → IsWord a
    → IsWord t
    → IsUnspaced z
    → let l = a ++ b' ' ∷ (t ++ b' ' ∷ z) in
      (word (skip_spaces l) ≡ a) × (second_word l ≡ t) × (third_word l ≡ z)
unfolding skip_spaces is_space
words_lem a t z ha ht hz =
    let r = t ++ b' ' ∷ z in
    let s = skip_spaces-append a (b' ' ∷ r) ha in
    let (w, p) = word-append a r b' ' (IsWord-IsUnspaced a ha) refl in
    let s2 = skip_spaces-append t (b' ' ∷ z) ht in
    let (w2, p2) = word-append t z b' ' (IsWord-IsUnspaced t ht) refl in
    let (w3, s3) = word-whole z hz in
    let behind : past_word (skip_spaces (a ++ b' ' ∷ r)) ≡ b' ' ∷ r = ap past_word s ∙ p in
    (
      ap word s ∙ w,
      ap (λ l. word (skip_spaces l)) behind ∙ ap word s2 ∙ w2,
      ap (λ l. word (skip_spaces (past_word (skip_spaces l)))) behind
          ∙ ap (λ l. word (skip_spaces (past_word l))) s2
          ∙ ap (λ l. word (skip_spaces l)) p2
          ∙ ap word s3
          ∙ w3,
    )

-- The type has a name that the loading knows.
abbrev pub IsKnown : EventType → Type 0
IsKnown gsm_event = Unit {0}
IsKnown gpio_event = Unit {0}
IsKnown unknown_event = ⊥
IsKnown none_event = ⊥

subscrs_of_words-text :
    (a : Bytes) (t : EventType) (z : ℤ)
    → IsKnown t
    → subscrs_of_words a (type_name t) (to_string z)
      ≡ record { subscriber = a; event_type = t; event_arg = z; status = true } ∷ []
unfolding subscrs_of_words type_name same
subscrs_of_words-text a gsm_event z k =
    ap (λ n. record { subscriber = a; event_type = gsm_event; event_arg = n; status = true } ∷ [])
      (int_of-to_string z)
subscrs_of_words-text a gpio_event z k =
    ap (λ n. record { subscriber = a; event_type = gpio_event; event_arg = n; status = true } ∷ [])
      (int_of-to_string z)
subscrs_of_words-text a unknown_event z k = absurd k
subscrs_of_words-text a none_event z k = absurd k

type_name-IsWord : (t : EventType) → IsKnown t → IsWord (type_name t)
unfolding type_name IsWord is_space
type_name-IsWord gsm_event k = (refl, (refl, (refl, tt)))
type_name-IsWord gpio_event k = (refl, (refl, (refl, (refl, tt))))
type_name-IsWord unknown_event k = absurd k
type_name-IsWord none_event k = absurd k

-- An entry that a line can hold.
abbrev pub IsListed : EventSubscrEntry → Type 0
IsListed e = IsWord e.subscriber × IsKnown e.event_type

subscr_text-IsFree : (e : EventSubscrEntry) → IsListed e → IsFree b'\n' (subscr_text e)
unfolding subscr_text
subscr_text-IsFree e h =
    let u = IsUnspaced-IsFree in
    let t = IsWord-IsUnspaced (type_name e.event_type) (type_name-IsWord e.event_type h.1) in
    IsFree-append b'\n' e.subscriber
      (b' ' ∷ (type_name e.event_type ++ b' ' ∷ to_string e.event_arg))
      (u e.subscriber (IsWord-IsUnspaced e.subscriber h.0))
      (IsFree-append b'\n' (type_name e.event_type) (b' ' ∷ to_string e.event_arg)
        (u (type_name e.event_type) t)
        (u (to_string e.event_arg) (to_string-IsUnspaced e.event_arg)))

subscrs_of_line-text :
    (e : EventSubscrEntry) → IsListed e → e.status ≡ true → subscrs_of_line (subscr_text e) ≡ e ∷ []
unfolding subscrs_of_line subscr_text
subscrs_of_line-text e h s =
    let (w, v, u) =
      words_lem e.subscriber (type_name e.event_type) (to_string e.event_arg) h.0
        (type_name-IsWord e.event_type h.1) (to_string-IsUnspaced e.event_arg) in
    ap (λ x. subscrs_of_words x (second_word (subscr_text e)) (third_word (subscr_text e))) w
    ∙ ap (λ x. subscrs_of_words e.subscriber x (third_word (subscr_text e))) v
    ∙ ap (λ x. subscrs_of_words e.subscriber (type_name e.event_type) x) u
    ∙ subscrs_of_words-text e.subscriber e.event_type e.event_arg h.1
    ∙ ap (λ b. record e { status = b } ∷ []) (sym s)

pub load_event_subscr_list-written :
    (es before : List EventSubscrEntry)
    → All IsListed es
    → load_event_subscr_list (written_subscrs es) before ≡ before ++ keep_if (λ e. e.status) es
unfolding load_event_subscr_list load_subscr_lines written_subscrs subscr_line lines
load_event_subscr_list-written [] before h = sym (append-nil before)
load_event_subscr_list-written (e ∷ es) before h = elim (Bool-cases e.status) [
  | inl s ↦
      let rest = written_subscrs es in
      let whole = append_assoc (subscr_text e) (b'\n' ∷ []) rest in
      let l = subscr_text e in
      simp s (
        ap (λ f. load_subscr_lines (lines f) before) whole
        ∙ ap (λ ls. load_subscr_lines ls before) (lines-line l rest (subscr_text-IsFree e h.0))
        ∙ ap (λ k. load_subscr_lines (lines rest) (before ++ k)) (subscrs_of_line-text e h.0 s)
        ∙ load_event_subscr_list-written es (before ++ e ∷ []) h.1
        ∙ append_assoc before (e ∷ []) (keep_if (λ k. k.status) es))
  | inr s ↦ rw s (load_event_subscr_list-written es before h.1)
]
