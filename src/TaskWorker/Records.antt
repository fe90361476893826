-- ===== src/TaskWorker/Records.antt =====
-- The in-progress records of an ADTaskWorker as a list: their rising ids, and the ids of those whose
-- task has not finished.
use jsonrpc_tcp_srv.Prelude.{
  ℕ, ◌<◌, ◌≤◌, Bool, true, false, List, [], ◌∷◌, ◌++◌, none, some, ◌==◌, if◌then◌else◌, find_first,
  remove_first, update_first, All, pos, Bool-cases, ◌≡◌, refl, sym, subst, arith, inl, inr,
}
use jsonrpc_tcp_srv.RpcResult.{RpcSrvResult, is_in_prog}
use jsonrpc_tcp_srv.TaskWorker.{
  WorkCmdTaskInProg, identify_in_prog, is_open_task, victim_of, finished,
}

-- The ids rise from above `lo` to at most `hi`.
abbrev pub Rising : ℕ → List WorkCmdTaskInProg → ℕ → Type 0
Rising lo [] hi = lo ≤ hi
Rising lo (p ∷ ps) hi = (lo < p.task_id) × Rising p.task_id ps hi

abbrev pub open_ids : List WorkCmdTaskInProg → List ℕ
open_ids [] = []
open_ids (p ∷ ps) = if is_open_task p then p.task_id ∷ open_ids ps else open_ids ps

pub Rising-weaken :
    (lo lo' : ℕ) (ps : List WorkCmdTaskInProg) (hi : ℕ)
    → lo' ≤ lo
    → Rising lo ps hi
    → Rising lo' ps hi
Rising-weaken lo lo' [] hi le r = omega arith
Rising-weaken lo lo' (p ∷ ps) hi le r = (omega (arith, r.0), r.1)

pub Rising-le : (lo : ℕ) (ps : List WorkCmdTaskInProg) (hi : ℕ) → Rising lo ps hi → lo ≤ hi
Rising-le lo [] hi r = r
Rising-le lo (p ∷ ps) hi r = omega (arith, r.0, Rising-le p.task_id ps hi r.1)

pub Rising-remove :
    (k lo : ℕ) (ps : List WorkCmdTaskInProg) (hi : ℕ)
    → Rising lo ps hi
    → Rising lo (remove_first (identify_in_prog (pos k)) ps) hi
Rising-remove k lo [] hi r = r
Rising-remove k lo (p ∷ ps) hi r = elim (Bool-cases (p.task_id == k)) [
  | inl e ↦
      let rest = Rising-weaken p.task_id lo ps hi (omega (arith, r.0)) r.1 in ground (arith, rest)
  | inr e ↦ let rest = Rising-remove k p.task_id ps hi r.1 in ground (arith, rest, r.0)
]

pub Rising-finished :
    (k lo : ℕ) (result : RpcSrvResult) (ps : List WorkCmdTaskInProg) (hi : ℕ)
    → Rising lo ps hi
    → Rising lo (update_first (identify_in_prog (pos k)) (finished result) ps) hi
unfolding finished
Rising-finished k lo result [] hi r = r
Rising-finished k lo result (p ∷ ps) hi r = elim (Bool-cases (p.task_id == k)) [
  | inl e ↦ ground (arith, r.0, r.1)
  | inr e ↦ let rest = Rising-finished k p.task_id result ps hi r.1 in ground (arith, rest, r.0)
]

pub Rising-append :
    (lo : ℕ) (ps : List WorkCmdTaskInProg) (hi : ℕ) (q : WorkCmdTaskInProg)
    → Rising lo ps hi
    → hi < q.task_id
    → Rising lo (ps ++ q ∷ []) q.task_id
Rising-append lo [] hi q r lt = (omega (arith, r, lt), omega arith)
Rising-append lo (p ∷ ps) hi q r lt = (r.0, Rising-append p.task_id ps hi q r.1 lt)

pub open_ids-append :
    (ps qs : List WorkCmdTaskInProg) → open_ids (ps ++ qs) ≡ open_ids ps ++ open_ids qs
open_ids-append [] qs = refl
open_ids-append (p ∷ ps) qs = ground (arith, open_ids-append ps qs)

-- The first open id lies above the bound of the records.
open_ids-above :
    (lo : ℕ) (ps : List WorkCmdTaskInProg) (hi k : ℕ) (ks : List ℕ)
    → Rising lo ps hi
    → open_ids ps ≡ k ∷ ks
    → lo < k
open_ids-above lo [] hi k ks r e = absurd (ground arith)
open_ids-above lo (p ∷ ps) hi k ks r e = elim (Bool-cases (is_open_task p)) [
  | inl o ↦ ground (arith, r.0)
  | inr o ↦ ground (arith, r.0, open_ids-above p.task_id ps hi k ks r.1 (ground arith))
]

-- A finished task is not open any more, and the others are as before.
pub open_ids-finished :
    (k lo : ℕ) (result : RpcSrvResult) (ps : List WorkCmdTaskInProg) (hi : ℕ) (ks : List ℕ)
    → Rising lo ps hi
    → is_in_prog result ≡ false
    → open_ids ps ≡ k ∷ ks
    → open_ids (update_first (identify_in_prog (pos k)) (finished result) ps) ≡ ks
unfolding finished
open_ids-finished k lo result [] hi ks r n e = absurd (ground arith)
open_ids-finished k lo result (p ∷ ps) hi ks r n e = elim (Bool-cases (is_open_task p)) [
  | inl o ↦ ground arith
  | inr o ↦
      let above = open_ids-above p.task_id ps hi k ks r.1 (ground arith) in
      ground (arith, above, open_ids-finished k p.task_id result ps hi ks r.1 n (ground arith))
]

pub open_ids-dropped :
    (k lo : ℕ) (ps : List WorkCmdTaskInProg) (hi : ℕ) (ks : List ℕ)
    → Rising lo ps hi
    → open_ids ps ≡ k ∷ ks
    → open_ids (remove_first (identify_in_prog (pos k)) ps) ≡ ks
open_ids-dropped k lo [] hi ks r e = absurd (ground arith)
open_ids-dropped k lo (p ∷ ps) hi ks r e = elim (Bool-cases (is_open_task p)) [
  | inl o ↦ ground arith
  | inr o ↦
      let above = open_ids-above p.task_id ps hi k ks r.1 (ground arith) in
      ground (arith, above, open_ids-dropped k p.task_id ps hi ks r.1 (ground arith))
]

-- The record that an id finds, when it is a finished one, leaves without touching the open ones.
pub open_ids-reported :
    (k : ℕ) (ps : List WorkCmdTaskInProg) (p : WorkCmdTaskInProg)
    → find_first (identify_in_prog (pos k)) ps ≡ some p
    → is_open_task p ≡ false
    → open_ids (remove_first (identify_in_prog (pos k)) ps) ≡ open_ids ps
open_ids-reported k [] p f n = refl
open_ids-reported k (q ∷ ps) p f n = elim (Bool-cases (q.task_id == k)) [
  | inl e ↦
      let q_is : q ≡ p = ground arith in
      let shut : is_open_task q ≡ false = subst (λ x. is_open_task x ≡ false) (sym q_is) n in
      ground arith
  | inr e ↦ ground (arith, open_ids-reported k ps p (ground arith) n)
]

-- The victim of an eviction is the record that its id finds, and it is a finished one.
pub victim_of-found :
    (lo : ℕ) (ps : List WorkCmdTaskInProg) (hi v : ℕ)
    → Rising lo ps hi
    → victim_of ps ≡ some v
    → (lo < v)
      × (p : WorkCmdTaskInProg) × (find_first (identify_in_prog (pos v)) ps ≡ some p)
      × (is_open_task p ≡ false)
unfolding victim_of
victim_of-found lo [] hi v r e = cc
victim_of-found lo (p ∷ ps) hi v r e = elim (Bool-cases (is_open_task p)) [
  | inl o ↦
      let (above, q, f, n) = victim_of-found p.task_id ps hi v r.1 (ground arith) in
      (omega (arith, above, r.0), q, ground (arith, above, f), n)
  | inr o ↦ (ground (arith, r.0), p, ground arith, o)
]

-- Without a victim every record is open.
pub victim_of-none :
    (ps : List WorkCmdTaskInProg) → victim_of ps ≡ none → All (λ p. is_open_task p ≡ true) ps
unfolding victim_of
victim_of-none [] e = tt
victim_of-none (p ∷ ps) e = elim (Bool-cases (is_open_task p)) [
  | inl o ↦ (o, victim_of-none ps (ground arith))
  | inr o ↦ absurd (ground arith)
]

-- An id above the bound finds nothing.
pub find_first-above :
    (k lo : ℕ) (ps : List WorkCmdTaskInProg) (hi : ℕ)
    → Rising lo ps hi
    → hi < k
    → find_first (identify_in_prog (pos k)) ps ≡ none
find_first-above k lo [] hi r lt = refl
find_first-above k lo (p ∷ ps) hi r lt =
    let le = Rising-le p.task_id ps hi r.1 in
    ground (arith, le, find_first-above k p.task_id ps hi r.1 lt)

pub find_first-append :
    (q : WorkCmdTaskInProg → Bool) (ps : List WorkCmdTaskInProg) (p : WorkCmdTaskInProg)
    → find_first q ps ≡ none
    → q p ≡ true
    → find_first q (ps ++ p ∷ []) ≡ some p
find_first-append q [] p n h = ground arith
find_first-append q (x ∷ ps) p n h = elim (Bool-cases (q x)) [
  | inl e ↦ absurd (ground arith)
  | inr e ↦ ground (arith, find_first-append q ps p (ground arith) h)
]

-- An id below the first record finds nothing.
find_first-below :
    (k lo : ℕ) (ps : List WorkCmdTaskInProg) (hi : ℕ)
    → Rising lo ps hi
    → k ≤ lo
    → find_first (identify_in_prog (pos k)) ps ≡ none
find_first-below k lo [] hi r le = refl
find_first-below k lo (p ∷ ps) hi r le =
    ground (arith, r.0, find_first-below k p.task_id ps hi r.1 (omega (arith, r.0, le)))

-- The record of the first open task, once finished, is found by its id, and after it is removed
-- nothing is.
pub find_first-finished :
    (k lo : ℕ) (result : RpcSrvResult) (ps : List WorkCmdTaskInProg) (hi : ℕ) (ks : List ℕ)
    → Rising lo ps hi
    → open_ids ps ≡ k ∷ ks
    → let q = identify_in_prog (pos k) in
      let done = update_first q (finished result) ps in
      ((p : WorkCmdTaskInProg) × (find_first q done ≡ some p) × (p.task_sts ≡ result))
      × (find_first q (remove_first q done) ≡ none)
unfolding finished
find_first-finished k lo result [] hi ks r e = absurd (ground arith)
find_first-finished k lo result (p ∷ ps) hi ks r e = elim (Bool-cases (p.task_id == k)) [
  | inl h ↦ (
    (finished result p, ground arith, refl),
    ground (arith, find_first-below k p.task_id ps hi r.1 (ground arith)),
  )
  | inr h ↦
      let o : is_open_task p ≡ false = ground arith in
      let (found, gone) = find_first-finished k p.task_id result ps hi ks r.1 (ground arith) in
      ((found.0, ground (arith, found.1), found.2), ground (arith, gone))
]
