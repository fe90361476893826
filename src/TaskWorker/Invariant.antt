-- ===== src/TaskWorker/Invariant.antt =====
-- What holds of an ADTaskWorker whatever calls come in whatever order: its queue, its running task
-- and its in-progress records describe the same tasks.
use jsonrpc_tcp_srv.Prelude.{
  ℕ, zero, suc, ◌+◌, ◌<◌, true, false, List, ◌∷◌, none, some, leb, length, find_first, remove_first,
  update_first, All, pos, Bool-cases, Option-cases, ◌≡◌, ◌⊎◌, refl, ap, sym, subst, ◌∙◌, arith, inl,
  inr,
}
use jsonrpc_tcp_srv.RpcResult.{RpcSrvResult, is_in_prog}
use jsonrpc_tcp_srv.Chain.{Chain, chain_remove_by_ident, get_chain_size}
use jsonrpc_tcp_srv.Chain.Lists.{length-remove_first, remove_first-none, length-update_first}
use jsonrpc_tcp_srv.TaskWorker.{
  preserve, delete, unknown_done, none_done, record_result, WorkCmdTaskInProg, WorkCmdAfterDone,
  identify_in_prog, is_open_task, victim_of, finished, evict_completed_tasks, evict_loop,
  max_inprog_tasks,
}
use jsonrpc_tcp_srv.TaskWorker.Records.{
  open_ids-dropped, open_ids-finished, Rising-finished, victim_of-none, Rising, open_ids,
  victim_of-found, Rising-remove, open_ids-reported,
}

-- A live chain of records with rising ids, none above the last generated.
pub record IsKept (c : Chain WorkCmdTaskInProg) : Type 0 where
  pub live : c.init_flag ≡ true
  pub attached : c.attached ≡ true
  pub sized : c.chain_size ≡ length c.items
  pub rising : Rising 0 c.items c.ident_generator

-- A removal by an id that finds nothing changes nothing.
removed-none :
    (c : Chain WorkCmdTaskInProg) (k : ℕ)
    → find_first (identify_in_prog (pos k)) c.items ≡ none
    → (chain_remove_by_ident identify_in_prog c (pos k)).1 ≡ c
unfolding chain_remove_by_ident
removed-none c k e = ground arith

pub removed-items :
    (c : Chain WorkCmdTaskInProg) (k : ℕ)
    → IsKept c
    → (chain_remove_by_ident identify_in_prog c (pos k)).1.items
      ≡ remove_first (identify_in_prog (pos k)) c.items
unfolding chain_remove_by_ident
removed-items c k h = elim (Option-cases (find_first (identify_in_prog (pos k)) c.items)) [
  | inl e ↦
      ground (arith, h.live, h.attached, remove_first-none (identify_in_prog (pos k)) c.items e)
  | inr (p, e) ↦ ground arith
]

removed-ident :
    (c : Chain WorkCmdTaskInProg) (k : ℕ)
    → (chain_remove_by_ident identify_in_prog c (pos k)).1.ident_generator ≡ c.ident_generator
unfolding chain_remove_by_ident
removed-ident c k = elim (Option-cases (find_first (identify_in_prog (pos k)) c.items)) [
  | inl e ↦ ground arith
  | inr (p, e) ↦ ground arith
]

pub removed-IsKept :
    (c : Chain WorkCmdTaskInProg) (k : ℕ)
    → IsKept c
    → IsKept (chain_remove_by_ident identify_in_prog c (pos k)).1
unfolding chain_remove_by_ident
removed-IsKept c k h = elim (Option-cases (find_first (identify_in_prog (pos k)) c.items)) [
  | inl e ↦ subst IsKept (sym (removed-none c k e)) h
  | inr (p, e) ↦ record {
    live = ground arith;
    attached = ground arith;
    sized = ground (
      arith,
      h.live,
      h.attached,
      h.sized,
      length-remove_first (identify_in_prog (pos k)) c.items p e,
    );
    rising =
        subst (λ n. Rising 0 (chain_remove_by_ident identify_in_prog c (pos k)).1.items n)
          (sym (removed-ident c k))
          (subst (λ l. Rising 0 l c.ident_generator) (sym (removed-items c k h))
            (Rising-remove k 0 c.items c.ident_generator h.rising));
  }
]

-- The same open tasks and the same generator, on a chain that is still kept.
pub record KeepsOpen (c c' : Chain WorkCmdTaskInProg) : Type 0 where
  pub kept : IsKept c'
  pub opens : open_ids c'.items ≡ open_ids c.items
  pub ident : c'.ident_generator ≡ c.ident_generator

-- Removing the finished record that an id finds.
pub reported-KeepsOpen :
    (c : Chain WorkCmdTaskInProg) (k : ℕ) (p : WorkCmdTaskInProg)
    → IsKept c
    → find_first (identify_in_prog (pos k)) c.items ≡ some p
    → is_open_task p ≡ false
    → KeepsOpen c (chain_remove_by_ident identify_in_prog c (pos k)).1
reported-KeepsOpen c k p h e n = record {
  kept = removed-IsKept c k h;
  opens = ap open_ids (removed-items c k h) ∙ open_ids-reported k c.items p e n;
  ident = removed-ident c k;
}

removed-length :
    (c : Chain WorkCmdTaskInProg) (k : ℕ) (p : WorkCmdTaskInProg)
    → IsKept c
    → find_first (identify_in_prog (pos k)) c.items ≡ some p
    → length (chain_remove_by_ident identify_in_prog c (pos k)).1.items + 1 ≡ length c.items
removed-length c k p h e = omega (
  arith,
  ap length (removed-items c k h),
  length-remove_first (identify_in_prog (pos k)) c.items p e,
)

KeepsOpen-trans : (a b c : Chain WorkCmdTaskInProg) → KeepsOpen a b → KeepsOpen b c → KeepsOpen a c
KeepsOpen-trans a b c x y = record {
  kept = y.kept;
  opens = y.opens ∙ x.opens;
  ident = y.ident ∙ x.ident;
}

-- The end of an eviction: below the cap, or nothing finished is left.
abbrev pub IsEvicted : Chain WorkCmdTaskInProg → Type 0
IsEvicted c = (c.chain_size < max_inprog_tasks) ⊎ All (λ p. is_open_task p ≡ true) c.items

evict_loop-KeepsOpen :
    (fuel : ℕ) (c : Chain WorkCmdTaskInProg)
    → IsKept c
    → length c.items < fuel
    → KeepsOpen c (evict_loop fuel c) × IsEvicted (evict_loop fuel c)
unfolding evict_loop get_chain_size
evict_loop-KeepsOpen zero c h lt = absurd (omega (arith, lt))
evict_loop-KeepsOpen (suc fuel) c h lt =
    let same : KeepsOpen c c = record { kept = h; opens = refl; ident = refl } in
    elim (Bool-cases (leb max_inprog_tasks c.chain_size)) [
      | inr e ↦
          let stays : c ≡ evict_loop (suc fuel) c = ground arith in
          subst (λ x. KeepsOpen c x × IsEvicted x) stays (same, inl (ground arith))
      | inl e ↦ elim (Option-cases (victim_of c.items)) [
        | inl n ↦
            let stays : c ≡ evict_loop (suc fuel) c = ground arith in
            subst (λ x. KeepsOpen c x × IsEvicted x) stays (same, inr (victim_of-none c.items n))
        | inr (v, f) ↦
            let (lo, p, g, o) = victim_of-found 0 c.items c.ident_generator v h.rising f in
            let c' = (chain_remove_by_ident identify_in_prog c (pos v)).1 in
            let step = reported-KeepsOpen c v p h g o in
            let (rest, done) =
              evict_loop-KeepsOpen fuel c' step.kept
                (omega (arith, lt, removed-length c v p h g)) in
            let next : evict_loop fuel c' ≡ evict_loop (suc fuel) c = ground arith in
            subst (λ x. KeepsOpen c x × IsEvicted x) next
              (KeepsOpen-trans c c' (evict_loop fuel c') step rest, done)
      ]
    ]

-- On a live chain of records with rising ids, `evict_completed_tasks` ends with fewer records than
-- the cap or with no finished record left; it drops no record of a task that is queued or running,
-- and leaves the id generator alone.
pub evict_completed_tasks-KeepsOpen :
    (c : Chain WorkCmdTaskInProg)
    → IsKept c
    → KeepsOpen c (evict_completed_tasks c) × IsEvicted (evict_completed_tasks c)
unfolding evict_completed_tasks
evict_completed_tasks-KeepsOpen c h = evict_loop-KeepsOpen (suc (length c.items)) c h (omega arith)

-- Only the head of the open tasks is not open any more.
pub record Closes (c : Chain WorkCmdTaskInProg) (ks : List ℕ) : Type 0 where
  pub kept : IsKept c
  pub opens : open_ids c.items ≡ ks

dropped-Closes :
    (c : Chain WorkCmdTaskInProg) (id : ℕ) (ks : List ℕ)
    → IsKept c
    → open_ids c.items ≡ id ∷ ks
    → Closes (chain_remove_by_ident identify_in_prog c (pos id)).1 ks
dropped-Closes c id ks h e = record {
  kept = removed-IsKept c id h;
  opens =
      ap open_ids (removed-items c id h)
      ∙ open_ids-dropped id 0 c.items c.ident_generator ks h.rising e;
}

pub record_result-Closes :
    (c : Chain WorkCmdTaskInProg) (id : ℕ) (action : WorkCmdAfterDone) (result : RpcSrvResult)
    (ks : List ℕ)
    → IsKept c
    → is_in_prog result ≡ false
    → open_ids c.items ≡ id ∷ ks
    → Closes (record_result c id action result).1 ks
unfolding record_result
record_result-Closes c id preserve result ks h n e =
    let marked : Chain WorkCmdTaskInProg = record c {
      items = update_first (identify_in_prog (pos id)) (finished result) c.items;
    } in
    let is : marked ≡ (record_result c id preserve result).1 = ground arith in
    let closes : Closes marked ks = record {
      kept = record {
        live = h.live;
        attached = h.attached;
        sized =
            h.sized
            ∙ sym (length-update_first (identify_in_prog (pos id)) (finished result) c.items);
        rising = Rising-finished id 0 result c.items c.ident_generator h.rising;
      };
      opens = open_ids-finished id 0 result c.items c.ident_generator ks h.rising n e;
    } in
    subst (λ x. Closes x ks) is closes
record_result-Closes c id delete result ks h n e = dropped-Closes c id ks h e
record_result-Closes c id unknown_done result ks h n e = dropped-Closes c id ks h e
record_result-Closes c id none_done result ks h n e = dropped-Closes c id ks h e
