-- ===== src/EvntMgr/Subscriptions.antt =====
-- The subscriptions of ADEvntMgr: registering, unregistering, and what holds of the list whatever the
-- RPC thread and the notify thread do to it.
use jsonrpc_tcp_srv.Prelude.{
  ℕ, ◌+◌, ◌≤◌, ◌<◌, Bool, true, false, not, ◌&&◌, ◌||◌, List, [], ◌∷◌, ◌++◌, ◌==◌, ==ℤ-sym, ◌==ℤ◌,
  if◌then◌else◌, length, any, keep_if, map, ℤ, ◌≡◌, refl, ap, sym, subst, ◌∙◌, arith, Bool-cases,
  inl, inr,
}
use jsonrpc_tcp_srv.EvntMgr.{
  EventEntry, EvntMgr, Round, new_evnt_mgr, attach_receiver, is_duplicate, has_token,
  register_event_subscription, unregister_event_subscription, count_failure, has,
  update_failure_counts, notify_event, process_event,
}

-- No two entries are duplicates, and the tokens rise from above `lo` to at most `hi`.
abbrev pub IsTidy : ℕ → List EventEntry → ℕ → Type 0
IsTidy lo [] hi = lo ≤ hi
IsTidy lo (e ∷ es) hi =
    (lo < e.srv_token) × (any (is_duplicate e) es ≡ false) × IsTidy e.srv_token es hi

IsTidy-weaken :
    (lo lo' : ℕ) (es : List EventEntry) (hi : ℕ) → lo' ≤ lo → IsTidy lo es hi → IsTidy lo' es hi
IsTidy-weaken lo lo' [] hi le h = omega (arith, le, h)
IsTidy-weaken lo lo' (e ∷ es) hi le h = (omega (arith, le, h.0), h.1, h.2)

any-keep_if {ℓ} :
    {A : Type ℓ} (q p : A → Bool) (xs : List A) → any q xs ≡ false → any q (keep_if p xs) ≡ false
any-keep_if q p [] h = refl
any-keep_if q p (x ∷ xs) h = elim (Bool-cases (p x)) [
  | inl e ↦ ground (arith, any-keep_if q p xs (ground arith))
  | inr e ↦ ground (arith, any-keep_if q p xs (ground arith))
]

IsTidy-keep_if :
    (p : EventEntry → Bool) (lo : ℕ) (es : List EventEntry) (hi : ℕ)
    → IsTidy lo es hi
    → IsTidy lo (keep_if p es) hi
IsTidy-keep_if p lo [] hi h = h
IsTidy-keep_if p lo (e ∷ es) hi h = elim (Bool-cases (p e)) [
  | inl k ↦
      let is : e ∷ keep_if p es ≡ keep_if p (e ∷ es) = ground arith in
      subst (λ l. IsTidy lo l hi) is
        (h.0, any-keep_if (is_duplicate e) p es h.1, IsTidy-keep_if p e.srv_token es hi h.2)
  | inr k ↦
      let is : keep_if p es ≡ keep_if p (e ∷ es) = ground arith in
      subst (λ l. IsTidy lo l hi) is
        (IsTidy-keep_if p lo es hi (IsTidy-weaken e.srv_token lo es hi (omega (arith, h.0)) h.2))
]

-- The three keys decide it, so that it is symmetric and a change of the other fields is no matter.
is_duplicate-sym : (a b : EventEntry) → is_duplicate a b ≡ is_duplicate b a
unfolding is_duplicate
is_duplicate-sym a b =
    ap
      (λ x.
        if not x
        then false
        else if not (a.port_num ==ℤ b.port_num)
        then false
        else if not (a.event_num ==ℤ b.event_num)
        then false
        else true)
      (==ℤ-sym a.clt_token b.clt_token)
    ∙ ap
        (λ x.
          if not (b.clt_token ==ℤ a.clt_token)
          then false
          else if not x
          then false
          else if not (a.event_num ==ℤ b.event_num)
          then false
          else true)
        (==ℤ-sym a.port_num b.port_num)
    ∙ ap
        (λ x.
          if not (b.clt_token ==ℤ a.clt_token)
          then false
          else if not (b.port_num ==ℤ a.port_num)
          then false
          else if not x
          then false
          else true)
        (==ℤ-sym a.event_num b.event_num)

any-append_one {ℓ} :
    {A : Type ℓ} (q : A → Bool) (xs : List A) (x : A)
    → any q xs ≡ false
    → q x ≡ false
    → any q (xs ++ x ∷ []) ≡ false
any-append_one q [] x h n = ground arith
any-append_one q (y ∷ xs) x h n = ground (arith, any-append_one q xs x (ground arith) n)

IsTidy-append :
    (lo : ℕ) (es : List EventEntry) (hi : ℕ) (e : EventEntry)
    → any (is_duplicate e) es ≡ false
    → hi < e.srv_token
    → IsTidy lo es hi
    → IsTidy lo (es ++ e ∷ []) e.srv_token
IsTidy-append lo [] hi e n lt h = (omega (arith, lt, h), refl, omega arith)
IsTidy-append lo (x ∷ es) hi e n lt h = (
  h.0,
  any-append_one (is_duplicate x) es e h.1 (is_duplicate-sym x e ∙ ground arith),
  IsTidy-append x.srv_token es hi e (ground arith) lt h.2,
)

-- The loop of `update_failure_counts` keeps the fields that identify an entry.
count_failure-keys :
    (r : Round) (e x : EventEntry)
    → ((count_failure r e).srv_token ≡ e.srv_token)
      × (is_duplicate x (count_failure r e) ≡ is_duplicate x e)
      × (is_duplicate (count_failure r e) x ≡ is_duplicate e x)
unfolding count_failure is_duplicate
count_failure-keys r e x = elim (Bool-cases (has e.srv_token r.delivered)) [
  | inl d ↦ (ground arith, ground arith, ground arith)
  | inr d ↦ elim (Bool-cases (has e.srv_token r.failed)) [
    | inl f ↦ (ground arith, ground arith, ground arith)
    | inr f ↦ (ground arith, ground arith, ground arith)
  ]
]

count_failure-any :
    (r : Round) (x : EventEntry) (es : List EventEntry)
    → any (is_duplicate (count_failure r x)) (map (count_failure r) es) ≡ any (is_duplicate x) es
count_failure-any r x [] = refl
count_failure-any r x (e ∷ es) =
    let here = (count_failure-keys r e (count_failure r x)).1 ∙ (count_failure-keys r x e).2 in
    ap (λ b. b || any (is_duplicate (count_failure r x)) (map (count_failure r) es)) here
    ∙ ap (λ b. is_duplicate x e || b) (count_failure-any r x es)

IsTidy-count_failure :
    (r : Round) (lo : ℕ) (es : List EventEntry) (hi : ℕ)
    → IsTidy lo es hi
    → IsTidy lo (map (count_failure r) es) hi
IsTidy-count_failure r lo [] hi h = h
IsTidy-count_failure r lo (e ∷ es) hi h =
    let token = (count_failure-keys r e e).0 in
    (
      subst (λ t. lo < t) (sym token) h.0,
      count_failure-any r e es ∙ h.1,
      subst (λ t. IsTidy t (map (count_failure r) es) hi) (sym token)
          (IsTidy-count_failure r e.srv_token es hi h.2),
    )

-- What the threads do to the list of subscriptions.
pub data Call : Type 0 where
  register : EventEntry → Call
  unregister : ℤ → Call
  count : Round → Call

pub call : EvntMgr → Call → EvntMgr
call m (register e) = (register_event_subscription m e).1
call m (unregister token) = (unregister_event_subscription m token).1
call m (count r) = update_failure_counts m r

pub calls : EvntMgr → List Call → EvntMgr
unfolding call
calls m [] = m
calls m (k ∷ ks) = calls (call m k) ks

abbrev pub IsTidyMgr : EvntMgr → Type 0
IsTidyMgr m = IsTidy 0 m.event_list m.ack_token

pub register-IsTidyMgr :
    (m : EvntMgr) (e : EventEntry) → IsTidyMgr m → IsTidyMgr (register_event_subscription m e).1
unfolding register_event_subscription is_duplicate
register-IsTidyMgr m e h = elim (Bool-cases (any (is_duplicate e) m.event_list)) [
  | inl d ↦ let is : m ≡ (register_event_subscription m e).1 = ground arith in subst IsTidyMgr is h
  | inr d ↦
      let added : EventEntry = record e {
        srv_token = m.ack_token + 1;
        fail_count = 0;
        first_fail_ms = 0;
        delete_flag = false;
      } in
      let m' : EvntMgr = record m {
        ack_token = m.ack_token + 1;
        event_list = m.event_list ++ added ∷ [];
      } in
      let is : m' ≡ (register_event_subscription m e).1 = ground arith in
      subst IsTidyMgr is (IsTidy-append 0 m.event_list m.ack_token added d (omega arith) h)
]

pub unregister-IsTidyMgr :
    (m : EvntMgr) (token : ℤ) → IsTidyMgr m → IsTidyMgr (unregister_event_subscription m token).1
unfolding unregister_event_subscription
unregister-IsTidyMgr m token h = elim (Bool-cases (any (has_token token) m.event_list)) [
  | inl d ↦
      let m' : EvntMgr = record m {
        event_list = keep_if (λ e. not (has_token token e)) m.event_list;
      } in
      let is : m' ≡ (unregister_event_subscription m token).1 = ground arith in
      subst IsTidyMgr is
        (IsTidy-keep_if (λ e. not (has_token token e)) 0 m.event_list m.ack_token h)
  | inr d ↦
      let is : m ≡ (unregister_event_subscription m token).1 = ground arith in subst IsTidyMgr is h
]

pub count-IsTidyMgr :
    (m : EvntMgr) (r : Round) → IsTidyMgr m → IsTidyMgr (update_failure_counts m r)
unfolding update_failure_counts
count-IsTidyMgr m r h = elim (Bool-cases ((length r.failed == 0) && (length r.delivered == 0))) [
  | inl d ↦ let is : m ≡ update_failure_counts m r = ground arith in subst IsTidyMgr is h
  | inr d ↦
      let m' : EvntMgr = record m {
        event_list = keep_if (λ e. not e.delete_flag) (map (count_failure r) m.event_list);
      } in
      let is : m' ≡ update_failure_counts m r = ground arith in
      subst IsTidyMgr is (
        IsTidy-keep_if (λ e. not e.delete_flag) 0 (map (count_failure r) m.event_list) m.ack_token
          (IsTidy-count_failure r 0 m.event_list m.ack_token h))
]

pub notify_event-IsTidyMgr :
    (m : EvntMgr) (num arg arg2 : ℤ) → IsTidyMgr m → IsTidyMgr (notify_event m num arg arg2)
unfolding notify_event
notify_event-IsTidyMgr m num arg arg2 h = h

pub process_event-IsTidyMgr :
    (m : EvntMgr) (num arg token arg2 : ℤ)
    → IsTidyMgr m
    → IsTidyMgr (process_event m num arg token arg2)
unfolding process_event
process_event-IsTidyMgr m num arg token arg2 h = h

pub attached_receiver-IsTidyMgr : (c : ℕ) → IsTidyMgr (attach_receiver new_evnt_mgr c)
unfolding attach_receiver new_evnt_mgr
attached_receiver-IsTidyMgr c = omega arith

calls-from : (ks : List Call) (m : EvntMgr) → IsTidyMgr m → IsTidyMgr (calls m ks)
unfolding calls call
calls-from [] m h = h
calls-from (register e ∷ ks) m h = calls-from ks (call m (register e)) (register-IsTidyMgr m e h)
calls-from (unregister t ∷ ks) m h =
    calls-from ks (call m (unregister t)) (unregister-IsTidyMgr m t h)
calls-from (count r ∷ ks) m h = calls-from ks (call m (count r)) (count-IsTidyMgr m r h)

-- Whatever registrations, removals and failure counts come in whatever order at a new event manager,
-- no two subscriptions are for the same client token, port and event, and their tokens rise, none
-- above the last that was given out.
pub calls-IsTidyMgr : (ks : List Call) → IsTidyMgr (calls new_evnt_mgr ks)
unfolding new_evnt_mgr
calls-IsTidyMgr ks = calls-from ks new_evnt_mgr (omega arith)
