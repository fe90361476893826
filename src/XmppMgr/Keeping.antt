-- ===== src/XmppMgr/Keeping.antt =====
-- services/xmproxy/srv/src/XmppMgr.cpp: the file of the aliases holds what the list holds.
use jsonrpc_tcp_srv.Prelude.{
  true, List, [], ◌∷◌, ◌++◌, All, All-append, append_assoc, append-nil, ◌≡◌, refl, ap, sym, subst,
  ◌∙◌, arith, Bool-cases, Option-cases, inl, inr,
}
use jsonrpc_tcp_srv.Framer.{Bytes}
use jsonrpc_tcp_srv.XmppMgr.{XmppMgr, same, less, is_one_of}
use jsonrpc_tcp_srv.XmppMgr.Aliases.{
  cut, key_of, second_piece, alias_find, alias_set, alias_erase, line_of, written, load_lines,
  load_alias_list, lines, extend_alias_list, rewrite_alias_list, alias_change, proc_cmd_alias,
  alias_words,
}
use jsonrpc_tcp_srv.XmppMgr.Order.{
  IsSorted, alias_set-IsSorted, alias_erase-IsSorted, alias_set-last, IsSorted-before,
}
use jsonrpc_tcp_srv.XmppMgr.Pieces.{
  IsFree, IsClean, key_of-IsFree, second_piece-IsFree, load_alias_list-line,
}

set_all : List (Bytes × Bytes) → List (Bytes × Bytes) → List (Bytes × Bytes)
set_all es [] = es
set_all es ((k, v) ∷ bs) = set_all (alias_set k v es) bs

load-written :
    (bs es : List (Bytes × Bytes))
    → All IsClean bs
    → load_alias_list (written bs) es ≡ set_all es bs
unfolding set_all written load_alias_list load_lines lines
load-written [] es h = refl
load-written ((k, v) ∷ bs) es h =
    load_alias_list-line k v (written bs) es h.0 ∙ load-written bs (alias_set k v es) h.1

set_all-append :
    (bs es : List (Bytes × Bytes)) (k v : Bytes)
    → set_all es (bs ++ (k, v) ∷ []) ≡ alias_set k v (set_all es bs)
unfolding set_all
set_all-append [] es k v = refl
set_all-append ((k', v') ∷ bs) es k v = set_all-append bs (alias_set k' v' es) k v

written-append :
    (bs : List (Bytes × Bytes)) (k v : Bytes)
    → written (bs ++ (k, v) ∷ []) ≡ written bs ++ line_of k v
unfolding written
written-append [] k v = append-nil (line_of k v)
written-append ((k', v') ∷ bs) k v =
    ap (λ t. line_of k' v' ++ t) (written-append bs k v)
    ∙ sym (append_assoc (line_of k' v') (written bs) (line_of k v))

-- The entries of a sorted list, set one after the other, make the list.
set_all-sorted : (es bs : List (Bytes × Bytes)) → IsSorted (es ++ bs) → set_all es bs ≡ es ++ bs
unfolding set_all
set_all-sorted es [] h = sym (append-nil es)
set_all-sorted es ((k, v) ∷ bs) h =
    let moved : (es ++ (k, v) ∷ []) ++ bs ≡ es ++ (k, v) ∷ bs = append_assoc es ((k, v) ∷ []) bs in
    ap (λ l. set_all l bs) (alias_set-last k v es (IsSorted-before es k v bs h))
    ∙ set_all-sorted (es ++ (k, v) ∷ []) bs (subst IsSorted (sym moved) h)
    ∙ moved

alias_set-IsClean :
    (k v : Bytes) (es : List (Bytes × Bytes))
    → IsClean (k, v)
    → All IsClean es
    → All IsClean (alias_set k v es)
unfolding alias_set
alias_set-IsClean k v [] c h = (c, tt)
alias_set-IsClean k v ((k', v') ∷ es) c h = elim (Bool-cases (same k k')) [
  | inl e ↦ rw e (c, h.1)
  | inr e ↦ elim (Bool-cases (less k k')) [
    | inl b ↦ rw (e, b) (c, h)
    | inr b ↦ rw (e, b) (h.0, alias_set-IsClean k v es c h.1)
  ]
]

alias_erase-IsClean :
    (k : Bytes) (es : List (Bytes × Bytes)) → All IsClean es → All IsClean (alias_erase k es)
unfolding alias_erase
alias_erase-IsClean k [] h = tt
alias_erase-IsClean k ((k', v') ∷ es) h = elim (Bool-cases (same k k')) [
  | inl e ↦ rw e h.1
  | inr e ↦ rw e (h.0, alias_erase-IsClean k es h.1)
]

-- The file is a log of entries whose effect is the list.
record IsKept (m : XmppMgr) : Type 0 where
  filed : m.has_alias_file ≡ true
  log : List (Bytes × Bytes)
  file : m.alias_file ≡ written log
  logged : All IsClean log
  effect : set_all [] log ≡ m.alias_list
  sorted : IsSorted m.alias_list
  listed : All IsClean m.alias_list

IsKept-load : (m : XmppMgr) → IsKept m → load_alias_list m.alias_file [] ≡ m.alias_list
IsKept-load m h = ap (λ f. load_alias_list f []) h.file ∙ load-written h.log [] h.logged ∙ h.effect

rewritten :
    (m : XmppMgr)
    → m.has_alias_file ≡ true
    → IsSorted m.alias_list
    → All IsClean m.alias_list
    → IsKept (rewrite_alias_list m)
unfolding rewrite_alias_list
rewritten m f s c =
    let after : XmppMgr = record m { alias_file = written m.alias_list } in
    let is : after ≡ rewrite_alias_list m = ground arith in
    let kept : IsKept after = record {
      filed = f;
      log = m.alias_list;
      file = refl;
      logged = c;
      effect = set_all-sorted [] m.alias_list s;
      sorted = s;
      listed = c;
    } in
    subst IsKept is kept

extended :
    (m : XmppMgr) (k v : Bytes)
    → IsKept m
    → IsClean (k, v)
    → IsKept (extend_alias_list (record m { alias_list = alias_set k v m.alias_list }) k v)
unfolding extend_alias_list
extended m k v h c =
    let after : XmppMgr = record m {
      alias_list = alias_set k v m.alias_list;
      alias_file = m.alias_file ++ line_of k v;
    } in
    let e = h.filed in
    let is : after ≡ extend_alias_list (record m { alias_list = alias_set k v m.alias_list }) k v =
      ground arith in
    let kept : IsKept after = record {
      filed = h.filed;
      log = h.log ++ (k, v) ∷ [];
      file = ap (λ f. f ++ line_of k v) h.file ∙ sym (written-append h.log k v);
      logged = All-append IsClean h.log ((k, v) ∷ []) h.logged (c, tt);
      effect = set_all-append h.log [] k v ∙ ap (alias_set k v) h.effect;
      sorted = alias_set-IsSorted k v m.alias_list h.sorted;
      listed = alias_set-IsClean k v m.alias_list c h.listed;
    } in
    subst IsKept is kept

alias_change-IsKept :
    (m : XmppMgr) (k v : Bytes) → IsKept m → IsClean (k, v) → IsKept (alias_change m k v)
unfolding alias_change
alias_change-IsKept m k [] h c =
    rewritten (record m { alias_list = alias_erase k m.alias_list }) h.filed
      (alias_erase-IsSorted k m.alias_list h.sorted) (alias_erase-IsClean k m.alias_list h.listed)
alias_change-IsKept m k (b ∷ bs) h c =
    let v = b ∷ bs in
    elim (Option-cases (alias_find k m.alias_list)) [
      | inl e ↦ rw (e, alias_change) (extended m k v h c)
      | inr (old, e) ↦
          rw (e, alias_change)
            (rewritten (record m { alias_list = alias_set k v m.alias_list }) h.filed
              (alias_set-IsSorted k v m.alias_list h.sorted)
              (alias_set-IsClean k v m.alias_list c h.listed))
    ]

proc_cmd_alias-IsKept :
    (m : XmppMgr) (msg : Bytes) → IsKept m → IsFree b'\n' msg → IsKept (proc_cmd_alias m msg).1
unfolding proc_cmd_alias
proc_cmd_alias-IsKept m msg h f = elim (Bool-cases (is_one_of alias_words msg)) [
  | inl e ↦ rw e h
  | inr e ↦
      let key = key_of-IsFree msg in
      let value = second_piece-IsFree msg (cut b'=' msg).1 refl f in
      rw e (
        alias_change-IsKept m (key_of (cut b'=' msg).0) (second_piece (cut b'=' msg).1) h (record {
          unequal = key.0;
          unbroken = key.1;
          value_unequal = value.0;
          value_unbroken = value.1;
        }))
]

abbrev pub alias_commands : XmppMgr → List Bytes → XmppMgr
alias_commands m [] = m
alias_commands m (msg ∷ msgs) = alias_commands (proc_cmd_alias m msg).1 msgs

commands-IsKept :
    (msgs : List Bytes) (m : XmppMgr)
    → All (IsFree b'\n') msgs
    → IsKept m
    → IsKept (alias_commands m msgs)
commands-IsKept [] m f h = h
commands-IsKept (msg ∷ msgs) m f h =
    commands-IsKept msgs (proc_cmd_alias m msg).1 f.1 (proc_cmd_alias-IsKept m msg h f.0)

-- A bot whose alias file and list were empty, after any alias commands that hold no newline: a bot that is
-- started anew and loads the file has the same aliases.
pub load_alias_list-alias_commands :
    (m : XmppMgr) (msgs : List Bytes)
    → m.has_alias_file ≡ true
    → m.alias_file ≡ []
    → m.alias_list ≡ []
    → All (IsFree b'\n') msgs
    → load_alias_list (alias_commands m msgs).alias_file [] ≡ (alias_commands m msgs).alias_list
unfolding written set_all
load_alias_list-alias_commands m msgs filed empty bare f =
    let kept : IsKept m = record {
      filed = filed;
      log = [];
      file = empty;
      logged = tt;
      effect = sym bare;
      sorted = subst IsSorted (sym bare) tt;
      listed = subst (λ es. All IsClean es) (sym bare) tt;
    } in
    IsKept-load (alias_commands m msgs) (commands-IsKept msgs m f kept)
