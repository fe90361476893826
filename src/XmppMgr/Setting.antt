-- ===== src/XmppMgr/Setting.antt =====
-- services/xmproxy/srv/src/XmppMgr.cpp proc_cmd_alias: an alias command sets its alias and no other.
use jsonrpc_tcp_srv.Prelude.{
  ℕ, false, List, [], ◌∷◌, ◌++◌, some, ◌≡◌, refl, ap, sym, subst, ◌∙◌, arith, Bool-cases,
  Option-cases, inl, inr,
}
use jsonrpc_tcp_srv.Framer.{Bytes}
use jsonrpc_tcp_srv.StringProcessor.{is_space}
use jsonrpc_tcp_srv.XmppMgr.{XmppMgr, same, less}
use jsonrpc_tcp_srv.XmppMgr.Aliases.{
  cut, key_of, second_piece, skip_spaces, past_word, alias_find, alias_set, extend_alias_list,
  rewrite_alias_list, alias_change, proc_cmd_alias,
}
use jsonrpc_tcp_srv.XmppMgr.Order.{same-≡, same_refl}
use jsonrpc_tcp_srv.XmppMgr.Pieces.{IsFree, cut-found, cut-whole}

-- The text of a command that sets an alias.
abbrev pub alias_text : Bytes
alias_text = b'a' ∷ b'l' ∷ b'i' ∷ b'a' ∷ b's' ∷ b' ' ∷ []

alias_find-alias_set :
    (key value : Bytes) (es : List (Bytes × Bytes))
    → alias_find key (alias_set key value es) ≡ some value
unfolding alias_find alias_set
alias_find-alias_set key value [] = rw (same_refl key) refl
alias_find-alias_set key value ((k, v) ∷ es) = elim (Bool-cases (same key k)) [
  | inl e ↦ rw (e, same_refl key) refl
  | inr e ↦ elim (Bool-cases (less key k)) [
    | inl b ↦ rw (e, b, same_refl key) refl
    | inr b ↦ rw (e, b, e) (alias_find-alias_set key value es)
  ]
]

alias_find-other :
    (other key value : Bytes) (es : List (Bytes × Bytes))
    → same other key ≡ false
    → alias_find other (alias_set key value es) ≡ alias_find other es
unfolding alias_find alias_set
alias_find-other other key value [] o = rw o refl
alias_find-other other key value ((k, v) ∷ es) o = elim (Bool-cases (same key k)) [
  | inl e ↦
      let unlike : same other k ≡ false = subst (λ z. same other z ≡ false) (same-≡ key k e) o in
      rw (e, o, unlike) refl
  | inr e ↦ elim (Bool-cases (less key k)) [
    | inl b ↦ rw (e, b, o) refl
    | inr b ↦ elim (Bool-cases (same other k)) [
      | inl t ↦ rw (e, b, t) refl
      | inr t ↦ rw (e, b, t) (alias_find-other other key value es o)
    ]
  ]
]

key_of-alias_text :
    (key : Bytes) → skip_spaces key ≡ key → IsFree b'\n' key → key_of (alias_text ++ key) ≡ key
unfolding key_of skip_spaces past_word is_space cut
key_of-alias_text key s f = ap skip_spaces (cut-whole b'\n' key f) ∙ s

change-list :
    (m : XmppMgr) (key : Bytes) (b : ℕ) (bs : Bytes)
    → (alias_change m key (b ∷ bs)).alias_list ≡ alias_set key (b ∷ bs) m.alias_list
unfolding alias_change extend_alias_list rewrite_alias_list
change-list m key b bs = elim (Option-cases (alias_find key m.alias_list)) [
  | inl e ↦ rw (e, alias_change) (ground arith)
  | inr (old, e) ↦ rw (e, alias_change) (ground arith)
]

-- The command "alias KEY=VALUE", whose key begins with no space and holds no equals sign and no newline, and
-- whose value is not empty and holds no equals sign, makes VALUE the text of the alias KEY, and every other
-- alias stays what it was.
pub alias_find-proc_cmd_alias :
    (m : XmppMgr) (key : Bytes) (b : ℕ) (bs : Bytes)
    → skip_spaces key ≡ key
    → IsFree b'\n' key
    → IsFree b'=' key
    → IsFree b'=' (b ∷ bs)
    → let (r, m') = proc_cmd_alias m (alias_text ++ key ++ b'=' ∷ b ∷ bs) in
      (alias_find key m'.alias_list ≡ some (b ∷ bs))
      × ((other : Bytes)
          → same other key ≡ false
          → alias_find other m'.alias_list ≡ alias_find other m.alias_list)
unfolding proc_cmd_alias second_piece same
alias_find-proc_cmd_alias m key b bs s n e v =
    let c = cut-found b'=' key (b ∷ bs) e in
    let is : (proc_cmd_alias m (alias_text ++ key ++ b'=' ∷ b ∷ bs)).1.alias_list
        ≡ alias_set key (b ∷ bs) m.alias_list =
      ap (λ p. (alias_change m (key_of (alias_text ++ p.0)) (second_piece p.1)).alias_list) c
      ∙ ap (λ k. (alias_change m k (second_piece (some (b ∷ bs)))).alias_list)
          (key_of-alias_text key s n)
      ∙ ap (λ u. (alias_change m key u).alias_list) (cut-whole b'=' (b ∷ bs) v)
      ∙ change-list m key b bs in
    subst
      (λ es.
        (alias_find key es ≡ some (b ∷ bs))
        × ((other : Bytes)
            → same other key ≡ false
            → alias_find other es ≡ alias_find other m.alias_list))
      (sym is)
      (
        alias_find-alias_set key (b ∷ bs) m.alias_list,
        λ other o. alias_find-other other key (b ∷ bs) m.alias_list o,
      )
