-- ===== src/XmppMgr/Aliases.antt =====
-- services/xmproxy/srv/src/XmppMgr.cpp: the aliases. `cut`, `first_word` and `past_word` are std::getline and
-- the extraction of a word from a stringstream.
use jsonrpc_tcp_srv.Prelude.{
  ℕ, Bool, List, [], ◌∷◌, ◌++◌, Option, none, some, ◌==◌, if◌then◌else◌, leb, ◌&&◌, ◌+◌,
}
use jsonrpc_tcp_srv.Framer.{Bytes}
use jsonrpc_tcp_srv.RpcResult.{RpcSrvResult, success}
use jsonrpc_tcp_srv.StringProcessor.{is_space}
use jsonrpc_tcp_srv.XmppMgr.{XmppMgr, same, less, is_one_of}

-- What is before the first `d`, and the rest behind it, which is none when there is no `d`.
unfoldable pub cut : ℕ → Bytes → Bytes × Option Bytes
cut d [] = ([], none)
cut d (x ∷ xs) = let (piece, rest) = cut d xs in if x == d then ([], some xs) else (x ∷ piece, rest)

-- The pieces between the `d`s, at least one.
split : ℕ → Bytes → List Bytes
split d [] = [] ∷ []
split d (x ∷ xs) =
    let rest = split d xs in
    if x == d then [] ∷ rest else elim rest [ [] ↦ (x ∷ []) ∷ [] | ◌∷◌ l ls ↦ (x ∷ l) ∷ ls ]

-- The lines of a file; the last need not end.
unfoldable pub lines : Bytes → List Bytes
lines [] = []
lines (x ∷ xs) =
    let rest = lines xs in
    if x == b'\n' then [] ∷ rest else elim rest [ [] ↦ (x ∷ []) ∷ [] | ◌∷◌ l ls ↦ (x ∷ l) ∷ ls ]

unfoldable pub skip_spaces : Bytes → Bytes
skip_spaces [] = []
skip_spaces (x ∷ xs) = let rest = skip_spaces xs in if is_space x then rest else x ∷ xs

unfoldable pub word : Bytes → Bytes
word [] = []
word (x ∷ xs) = let rest = word xs in if is_space x then [] else x ∷ rest

unfoldable pub past_word : Bytes → Bytes
past_word [] = []
past_word (x ∷ xs) = let rest = past_word xs in if is_space x then x ∷ xs else rest

-- The operations of `AliasList`.
unfoldable pub alias_find : Bytes → List (Bytes × Bytes) → Option Bytes
alias_find key [] = none
alias_find key ((k, v) ∷ es) = let rest = alias_find key es in if same key k then some v else rest

unfoldable pub alias_set : Bytes → Bytes → List (Bytes × Bytes) → List (Bytes × Bytes)
alias_set key value [] = (key, value) ∷ []
alias_set key value ((k, v) ∷ es) =
    let rest = alias_set key value es in
    if same key k
    then (key, value) ∷ es
    else if less key k
    then (key, value) ∷ (k, v) ∷ es
    else (k, v) ∷ rest

unfoldable pub alias_erase : Bytes → List (Bytes × Bytes) → List (Bytes × Bytes)
alias_erase key [] = []
alias_erase key ((k, v) ∷ es) =
    let rest = alias_erase key es in if same key k then es else (k, v) ∷ rest

unfoldable pub line_of : Bytes → Bytes → Bytes
line_of key value = key ++ b'=' ∷ value ++ b'\n' ∷ []

unfoldable pub written : List (Bytes × Bytes) → Bytes
unfolding line_of
written [] = []
written ((k, v) ∷ es) = line_of k v ++ written es

-- What is behind the first `=` up to the next.
unfoldable pub second_piece : Option Bytes → Bytes
unfolding cut
second_piece none = []
second_piece (some rest) = (cut b'=' rest).0

unfoldable pub load_lines : List Bytes → List (Bytes × Bytes) → List (Bytes × Bytes)
unfolding cut second_piece alias_set
load_lines [] es = es
load_lines (l ∷ ls) es =
    let (key, rest) = cut b'=' l in load_lines ls (alias_set key (second_piece rest) es)

-- LoadAliasList of what the file holds, into the list.
unfoldable pub load_alias_list : Bytes → List (Bytes × Bytes) → List (Bytes × Bytes)
unfolding load_lines lines
load_alias_list file es = load_lines (lines file) es

unfoldable pub extend_alias_list : XmppMgr → Bytes → Bytes → XmppMgr
unfolding line_of
extend_alias_list m key value =
    if m.has_alias_file then record m { alias_file = m.alias_file ++ line_of key value } else m

unfoldable pub rewrite_alias_list : XmppMgr → XmppMgr
unfolding written
rewrite_alias_list m =
    if m.has_alias_file then record m { alias_file = written m.alias_list } else m

abbrev pub alias_words : List Bytes
alias_words = (b'A' ∷ b'l' ∷ b'i' ∷ b'a' ∷ b's' ∷ []) ∷ (b'a' ∷ b'l' ∷ b'i' ∷ b'a' ∷ b's' ∷ []) ∷ []

-- The key, from what is before the first `=`: behind the first word, without the space before it.
unfoldable pub key_of : Bytes → Bytes
unfolding skip_spaces past_word cut
key_of cmd = skip_spaces (cut b'\n' (past_word (skip_spaces cmd))).0

-- `proc_cmd_alias` once the key and the value are known.
unfoldable pub alias_change : XmppMgr → Bytes → Bytes → XmppMgr
unfolding alias_find alias_set alias_erase extend_alias_list rewrite_alias_list
alias_change m key [] = rewrite_alias_list (record m { alias_list = alias_erase key m.alias_list })
alias_change m key (v ∷ vs) =
    let set : XmppMgr = record m { alias_list = alias_set key (v ∷ vs) m.alias_list } in
    elim (alias_find key m.alias_list) [
      | some old ↦ rewrite_alias_list set
      | none ↦ extend_alias_list set key (v ∷ vs)
    ]

-- The result and `returnval`; the result is always success.
unfoldable pub proc_cmd_alias : XmppMgr → Bytes → (RpcSrvResult × Bytes) × XmppMgr
unfolding alias_change key_of cut second_piece written
proc_cmd_alias m msg =
    if is_one_of alias_words msg
    then ((success, b'\n' ∷ written m.alias_list), m)
    else let (cmd, rest) = cut b'=' msg in
      ((success, []), alias_change m (key_of cmd) (second_piece rest))

-- `tolower` in the C locale.
lower : Bytes → Bytes
lower [] = []
lower (x ∷ xs) = (if leb b'A' x && leb x b'Z' then x + 32 else x) ∷ lower xs

abbrev or_alias : Option Bytes → Bytes → Bytes
or_alias none s = s
or_alias (some v) s = v

-- The pieces of a piece that may be an alias.
nested : List (Bytes × Bytes) → List Bytes → List Bytes
unfolding split alias_find
nested es [] = []
nested es (s ∷ ss) = elim (alias_find s es) [
  | none ↦ s ∷ nested es ss
  | some v ↦ split b';' v ++ nested es ss
]

-- The commands of a message that is no alias command.
unfoldable pub commands_of : XmppMgr → Bytes → List Bytes
unfolding lower nested alias_find split
commands_of m msg =
    nested m.alias_list (split b';' (or_alias (alias_find (lower msg) m.alias_list) (lower msg)))

-- Whether the worker takes a message as an alias command.
is_alias_command : Bytes → Bool
unfolding word skip_spaces
is_alias_command msg = is_one_of alias_words (word (skip_spaces msg))

-- An argument that begins with a dollar sign is an alias.
unfoldable pub xpandarg : XmppMgr → Bytes → Bytes
unfolding lower alias_find
xpandarg m [] = []
xpandarg m (x ∷ xs) =
    if x == b'$' then or_alias (alias_find (lower xs) m.alias_list) (lower xs) else x ∷ xs
