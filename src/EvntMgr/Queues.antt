-- ===== src/EvntMgr/Queues.antt =====
-- The bounded queues of ADEvntMgr.
use jsonrpc_tcp_srv.Prelude.{
  ℕ, zero, suc, ◌+◌, ◌-◌, ◌≤◌, List, [], ◌∷◌, ◌++◌, leb, length, drop, map, ℤ, pos, ◌≡◌, refl, ap,
  sym, ◌∙◌, arith, Bool-cases, inl, inr, length-append, append-nil, append_assoc, leb→le,
}
use jsonrpc_tcp_srv.EvntMgr.{
  EventProcEntry, EvntMgr, push_bounded, notify_event, process_event, process_thread,
  receive_events, max_queued,
}

-- The last `max_queued` elements.
pub newest : List EventProcEntry → List EventProcEntry
newest xs = drop (length xs - max_queued) xs

pub notify_events : EvntMgr → List (ℤ × ℤ × ℤ) → EvntMgr
notify_events m [] = m
notify_events m ((num, arg, arg2) ∷ es) = notify_events (notify_event m num arg arg2) es

pub process_events : EvntMgr → List (ℤ × ℤ × ℤ × ℤ) → EvntMgr
process_events m [] = m
process_events m ((num, arg, token, arg2) ∷ es) =
    process_events (process_event m num arg token arg2) es

-- The queue entry of a call.
abbrev pub notified : ℤ × ℤ × ℤ → EventProcEntry
notified (num, arg, arg2) = record {
  event_num = num;
  event_arg = arg;
  clt_token = pos 0;
  event_arg2 = arg2;
}

abbrev pub processed : ℤ × ℤ × ℤ × ℤ → EventProcEntry
processed (num, arg, token, arg2) = record {
  event_num = num;
  event_arg = arg;
  clt_token = token;
  event_arg2 = arg2;
}

module _ {ℓ} {A : Type ℓ} where
  length-drop : (n : ℕ) (xs : List A) → length (drop n xs) ≡ length xs - n
  length-drop zero xs = omega arith
  length-drop (suc n) [] = omega arith
  length-drop (suc n) (x ∷ xs) = omega (arith, length-drop n xs)

  drop-drop-one : (n : ℕ) (xs : List A) → drop 1 (drop n xs) ≡ drop (suc n) xs
  drop-drop-one zero xs = refl
  drop-drop-one (suc n) [] = refl
  drop-drop-one (suc n) (x ∷ xs) = drop-drop-one n xs

  drop-append_le : (n : ℕ) (xs ys : List A) → n ≤ length xs → drop n (xs ++ ys) ≡ drop n xs ++ ys
  drop-append_le zero xs ys h = refl
  drop-append_le (suc n) [] ys h = absurd (omega (arith, h))
  drop-append_le (suc n) (x ∷ xs) ys h = drop-append_le n xs ys (omega (arith, h))

push_bounded-newest :
    (xs : List EventProcEntry) (e : EventProcEntry)
    → (push_bounded (newest xs) e).1 ≡ newest (xs ++ e ∷ [])
unfolding push_bounded newest
push_bounded-newest xs e =
    let n = length xs - max_queued in
    let len = length-append xs (e ∷ []) in
    let short = length-drop n xs in
    elim (Bool-cases (leb max_queued (length xs))) [
      | inl h ↦
          let le = leb→le max_queued (length xs) h in
          let one : suc n ≡ n + 1 = omega arith in
          let more : length (xs ++ e ∷ []) - max_queued ≡ n + 1 = omega (arith, len, le) in
          let kept : drop 1 (drop n xs) ++ e ∷ [] ≡ drop (n + 1) (xs ++ e ∷ []) =
            ap (λ l. l ++ e ∷ []) (drop-drop-one n xs ∙ ap (λ k. drop k xs) one)
            ∙ sym (drop-append_le (n + 1) xs (e ∷ []) (omega (arith, le))) in
          let full : (push_bounded (newest xs) e).1 ≡ drop 1 (drop n xs) ++ e ∷ [] =
            ground (arith, short, le) in
          full ∙ kept ∙ ap (λ k. drop k (xs ++ e ∷ [])) (sym more)
      | inr h ↦
          let none_left : n ≡ 0 = ground arith in
          let none_left' : length (xs ++ e ∷ []) - max_queued ≡ 0 = ground (arith, len) in
          let all : drop n xs ≡ xs = ap (λ k. drop k xs) none_left in
          let not_full : (push_bounded (newest xs) e).1 ≡ drop n xs ++ e ∷ [] =
            ground (arith, short) in
          not_full ∙ ap (λ l. l ++ e ∷ []) all ∙ ap (λ k. drop k (xs ++ e ∷ [])) (sym none_left')
    ]

newest-short : (q : List EventProcEntry) → length q ≤ max_queued → newest q ≡ q
unfolding newest
newest-short q h =
    let whole : length q - max_queued ≡ 0 = omega (arith, h) in ap (λ k. drop k q) whole

notify_events-from :
    (es : List (ℤ × ℤ × ℤ)) (m : EvntMgr) (xs : List EventProcEntry)
    → m.notify_queue ≡ newest xs
    → (notify_events m es).notify_queue ≡ newest (xs ++ map notified es)
unfolding notify_events notify_event
notify_events-from [] m xs h = h ∙ ap newest (sym (append-nil xs))
notify_events-from ((num, arg, arg2) ∷ es) m xs h =
    let e = notified (num, arg, arg2) in
    notify_events-from es (notify_event m num arg arg2) (xs ++ e ∷ [])
      (ap (λ q. (push_bounded q e).1) h ∙ push_bounded-newest xs e)
    ∙ ap newest (append_assoc xs (e ∷ []) (map notified es))

process_events-from :
    (es : List (ℤ × ℤ × ℤ × ℤ)) (m : EvntMgr) (xs : List EventProcEntry)
    → m.process_queue ≡ newest xs
    → (process_events m es).process_queue ≡ newest (xs ++ map processed es)
unfolding process_events process_event
process_events-from [] m xs h = h ∙ ap newest (sym (append-nil xs))
process_events-from ((num, arg, token, arg2) ∷ es) m xs h =
    let e = processed (num, arg, token, arg2) in
    process_events-from es (process_event m num arg token arg2) (xs ++ e ∷ [])
      (ap (λ q. (push_bounded q e).1) h ∙ push_bounded-newest xs e)
    ∙ ap newest (append_assoc xs (e ∷ []) (map processed es))

process_events-subscribers :
    (es : List (ℤ × ℤ × ℤ × ℤ)) (m : EvntMgr) → (process_events m es).subscribers ≡ m.subscribers
unfolding process_events process_event
process_events-subscribers [] m = refl
process_events-subscribers ((num, arg, token, arg2) ∷ es) m =
    process_events-subscribers es (process_event m num arg token arg2)

-- After any calls of `notify_event`, the queue that was within its bound holds the newest 1024 of
-- what it held and the events of the calls, oldest first: only the oldest are dropped.
pub notify_events-newest :
    (m : EvntMgr) (es : List (ℤ × ℤ × ℤ))
    → length m.notify_queue ≤ max_queued
    → (notify_events m es).notify_queue ≡ newest (m.notify_queue ++ map notified es)
notify_events-newest m es h =
    notify_events-from es m m.notify_queue (sym (newest-short m.notify_queue h))

-- After any calls of `process_event` on a queue within its bound, the process thread hands its
-- subscribers the newest 1024 of what was queued and of the events of the calls, oldest first, and
-- leaves the queue empty.
pub process_thread-process_events :
    (m : EvntMgr) (es : List (ℤ × ℤ × ℤ × ℤ))
    → length m.process_queue ≤ max_queued
    → let (calls, m') = process_thread (process_events m es) in
      (calls ≡ receive_events m.subscribers (newest (m.process_queue ++ map processed es)))
      × (m'.process_queue ≡ [])
unfolding process_thread
process_thread-process_events m es h = (
  ap (λ cs. receive_events cs (process_events m es).process_queue) (process_events-subscribers es m)
      ∙ ap (receive_events m.subscribers)
          (process_events-from es m m.process_queue (sym (newest-short m.process_queue h))),
  refl,
)
