-- ===== src/XmppMgr/Tasks.antt =====
-- services/xmproxy/srv/src/XmppMgr.cpp AccessAsyncTaskList: a task's end finds the sender who started it.
use jsonrpc_tcp_srv.Prelude.{
  Bool, true, false, ◌&&◌, not, List, [], ◌∷◌, ◌++◌, none, some, ℤ, ◌==ℤ◌, ==ℤ_iff, All, find_first,
  keep_if, ◌≡◌, refl, sym, subst, arith, Bool-cases, Option-cases, inl, inr,
}
use jsonrpc_tcp_srv.Framer.{Bytes}
use jsonrpc_tcp_srv.XmppMgr.{XmppMgr, AsyncEventEntry, is_entry, insert_async_task, take_async_task}

-- The two uses of AccessAsyncTaskList.
pub data Call : Type 0 where
  insert : ℤ → ℤ → Bytes → Call
  take : ℤ → ℤ → Call

pub call : XmppMgr → Call → XmppMgr
call m (insert tid port sender) = (insert_async_task m tid port sender).1
call m (take tid port) = (take_async_task m tid port).1

pub calls : XmppMgr → List Call → XmppMgr
calls m [] = m
calls m (k ∷ ks) = calls (call m k) ks

-- The call takes no entry of the task.
abbrev IsOther : ℤ → ℤ → Call → Type 0
IsOther tid port (insert _ _ _) = Unit {0}
IsOther tid port (take tid' port') = (tid ==ℤ tid') && (port ==ℤ port') ≡ false

find_first-kept :
    (q : AsyncEventEntry → Bool) (es : List AsyncEventEntry) (e k : AsyncEventEntry)
    → find_first q es ≡ some e
    → find_first q (es ++ k ∷ []) ≡ some e
find_first-kept q [] e k h = absurd (ground arith)
find_first-kept q (x ∷ es) e k h = elim (Bool-cases (q x)) [
  | inl t ↦ ground arith
  | inr t ↦ ground (arith, find_first-kept q es e k (ground arith))
]

find_first-added :
    (q : AsyncEventEntry → Bool) (es : List AsyncEventEntry) (k : AsyncEventEntry)
    → find_first q es ≡ none
    → q k ≡ true
    → find_first q (es ++ k ∷ []) ≡ some k
find_first-added q [] k h t = ground arith
find_first-added q (x ∷ es) k h t = elim (Bool-cases (q x)) [
  | inl u ↦ absurd (ground arith)
  | inr u ↦ ground (arith, find_first-added q es k (ground arith) t)
]

is_entry-other :
    (tid port tid' port' : ℤ) (e : AsyncEventEntry)
    → is_entry tid port e ≡ true
    → (tid ==ℤ tid') && (port ==ℤ port') ≡ false
    → is_entry tid' port' e ≡ false
is_entry-other tid port tid' port' e h o =
    let t : e.task_id ≡ tid = (==ℤ_iff e.task_id tid).0 (ground arith) in
    let p : e.port ≡ port = (==ℤ_iff e.port port).0 (ground arith) in
    subst (λ z. (z ==ℤ tid') && (e.port ==ℤ port') ≡ false) (sym t)
      (subst (λ z. (tid ==ℤ tid') && (z ==ℤ port') ≡ false) (sym p) o)

find_first-others :
    (tid port tid' port' : ℤ) (es : List AsyncEventEntry) (e : AsyncEventEntry)
    → (tid ==ℤ tid') && (port ==ℤ port') ≡ false
    → find_first (is_entry tid port) es ≡ some e
    → find_first (is_entry tid port) (keep_if (λ k. not (is_entry tid' port' k)) es) ≡ some e
find_first-others tid port tid' port' [] e o h = absurd (ground arith)
find_first-others tid port tid' port' (x ∷ es) e o h = elim (Bool-cases (is_entry tid port x)) [
  | inl t ↦ ground (arith, is_entry-other tid port tid' port' x t o)
  | inr t ↦ ground (arith, find_first-others tid port tid' port' es e o (ground arith))
]

call-find :
    (tid port : ℤ) (m : XmppMgr) (k : Call) (e : AsyncEventEntry)
    → IsOther tid port k
    → find_first (is_entry tid port) m.async_task_list ≡ some e
    → find_first (is_entry tid port) (call m k).async_task_list ≡ some e
unfolding call insert_async_task take_async_task
call-find tid port m (insert tid' port' sender) e o h =
    find_first-kept (is_entry tid port) m.async_task_list e _ h
call-find tid port m (take tid' port') e o h =
    elim (Option-cases (find_first (is_entry tid' port') m.async_task_list)) [
      | inl n ↦
          let is : m ≡ call m (take tid' port') = ground arith in
          subst (λ x. find_first (is_entry tid port) x.async_task_list ≡ some e) is h
      | inr (k, n) ↦
          let after : XmppMgr = record m {
            async_task_list = keep_if (λ k. not (is_entry tid' port' k)) m.async_task_list;
          } in
          let is : after ≡ call m (take tid' port') = ground arith in
          subst (λ x. find_first (is_entry tid port) x.async_task_list ≡ some e) is
            (find_first-others tid port tid' port' m.async_task_list e o h)
    ]

calls-find :
    (tid port : ℤ) (ks : List Call) (m : XmppMgr) (e : AsyncEventEntry)
    → All (IsOther tid port) ks
    → find_first (is_entry tid port) m.async_task_list ≡ some e
    → find_first (is_entry tid port) (calls m ks).async_task_list ≡ some e
unfolding calls
calls-find tid port [] m e o h = h
calls-find tid port (k ∷ ks) m e o h =
    calls-find tid port ks (call m k) e o.1 (call-find tid port m k e o.0 h)

taken :
    (tid port : ℤ) (m : XmppMgr) (e : AsyncEventEntry)
    → find_first (is_entry tid port) m.async_task_list ≡ some e
    → (take_async_task m tid port).0 ≡ some (e.xmpp_tid, e.to)
unfolding take_async_task
taken tid port m e h = rw (h, take_async_task) refl

-- A task of which no entry waits is inserted, and then other tasks are inserted and taken in any order, the
-- task itself not: when the task is taken, its entry gives the id that the insertion gave out, and the sender.
pub take_async_task-insert_async_task :
    (m : XmppMgr) (tid port : ℤ) (sender : Bytes) (ks : List Call)
    → find_first (is_entry tid port) m.async_task_list ≡ none
    → All (IsOther tid port) ks
    → let (id, m') = insert_async_task m tid port sender in
      (take_async_task (calls m' ks) tid port).0 ≡ some (id, sender)
unfolding insert_async_task
take_async_task-insert_async_task m tid port sender ks fresh o =
    let (id, m') = insert_async_task m tid port sender in
    let e : AsyncEventEntry = record { task_id = tid; port = port; xmpp_tid = id; to = sender } in
    let found =
      find_first-added (is_entry tid port) m.async_task_list e fresh
        (ground (arith, (==ℤ_iff tid tid).1 refl, (==ℤ_iff port port).1 refl)) in
    taken tid port (calls m' ks) e (calls-find tid port ks m' e o found)
