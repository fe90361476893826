-- ===== src/EvntMgr/Failures.antt =====
-- When the notify thread of ADEvntMgr drops a subscription: the failure counts against the history
-- of the deliveries.
use jsonrpc_tcp_srv.Prelude.{
  ℕ, ◌-◌, Bool, true, false, not, ◌&&◌, ◌||◌, List, [], ◌∷◌, ◌++◌, leb, if◌then◌else◌, length,
  keep_if, map, All, ◌≡◌, refl, ap, sym, ◌∙◌, arith, Bool-cases, List-cases, subst, inl, inr,
  length-append,
}
use jsonrpc_tcp_srv.EvntMgr.{
  EventEntry, EvntMgr, Round, count_failure, update_failure_counts, has, max_failures,
  fail_window_ms,
}

pub update_rounds : EvntMgr → List Round → EvntMgr
update_rounds m [] = m
update_rounds m (r ∷ rs) = update_rounds (update_failure_counts m r) rs

-- The history of one subscription: the times of its failed deliveries since the last that
-- succeeded, the first of them first.
pub streak : ℕ → List ℕ → Round → List ℕ
streak token times r =
    if has token r.delivered then [] else if has token r.failed then times ++ r.now ∷ [] else times

-- At least `max_failures` deliveries in a row have failed, over `fail_window_ms` or more.
pub is_overdue : List ℕ → ℕ → Bool
is_overdue [] now = false
is_overdue (first ∷ rest) now =
    leb max_failures (length (first ∷ rest)) && leb fail_window_ms (now - first)

-- Whether a delivery to the subscription failed in the round and made it overdue, in one of the
-- rounds that follow the history.
pub is_expired : ℕ → List ℕ → List Round → Bool
unfolding streak is_overdue
is_expired token times [] = false
is_expired token times (r ∷ rs) =
    let times' = streak token times r in
    (not (has token r.delivered) && has token r.failed && is_overdue times' r.now)
    || is_expired token times' rs

-- The fields of an entry and its history.
abbrev First : List ℕ → ℕ → Type 0
First [] first = Unit {0}
First (t ∷ _) first = first ≡ t

record IsCounted (e : EventEntry) (times : List ℕ) : Type 0 where
  counted : e.fail_count ≡ length times
  first : First times e.first_fail_ms
  kept : e.delete_flag ≡ false

count_failure-IsCounted :
    (r : Round) (e : EventEntry) (times : List ℕ)
    → IsCounted e times
    → let e' = count_failure r e in
      let times' = streak e.srv_token times r in
      (e'.srv_token ≡ e.srv_token)
      × (e'.fail_count ≡ length times')
      × First times' e'.first_fail_ms
      × (e'.delete_flag ≡ (
          not (has e.srv_token r.delivered) && has e.srv_token r.failed && is_overdue times' r.now))
unfolding count_failure streak is_overdue
count_failure-IsCounted r e [] h = elim (Bool-cases (has e.srv_token r.delivered)) [
  | inl d ↦ (ground arith, ground arith, ground arith, ground arith)
  | inr d ↦ elim (Bool-cases (has e.srv_token r.failed)) [
    | inl f ↦ (ground arith, ground arith, ground arith, ground arith)
    | inr f ↦ (ground arith, ground arith, ground arith, ground arith)
  ]
]
count_failure-IsCounted r e (t ∷ ts) h = elim (Bool-cases (has e.srv_token r.delivered)) [
  | inl d ↦ (ground arith, ground arith, ground arith, ground arith)
  | inr d ↦ elim (Bool-cases (has e.srv_token r.failed)) [
    | inl f ↦
        let len = length-append ts (r.now ∷ []) in
        (
          ground arith,
          ground (arith, h.counted, len),
          ground arith,
          ground (arith, h.counted, h.first, h.kept, len),
        )
    | inr f ↦ (ground arith, ground arith, ground arith, ground arith)
  ]
]

abbrev pub tokens : List EventEntry → List ℕ
tokens [] = []
tokens (e ∷ es) = e.srv_token ∷ tokens es

keep_if-keep_if :
    (f g : ℕ → Bool) (ts : List ℕ)
    → keep_if (λ t. not (f t)) (keep_if (λ t. not (g t)) ts) ≡ keep_if (λ t. not (g t || f t)) ts
keep_if-keep_if f g [] = refl
keep_if-keep_if f g (t ∷ ts) = elim (Bool-cases (g t)) [
  | inl a ↦ ground (arith, keep_if-keep_if f g ts)
  | inr a ↦ elim (Bool-cases (f t)) [
    | inl b ↦ ground (arith, keep_if-keep_if f g ts)
    | inr b ↦ ground (arith, keep_if-keep_if f g ts)
  ]
]

keep_if-all : (ts : List ℕ) → keep_if (λ t. true) ts ≡ ts
keep_if-all [] = refl
keep_if-all (t ∷ ts) = ap (◌∷◌ t) (keep_if-all ts)

-- A failed delivery in this round made the subscription overdue.
fails : Round → (ℕ → List ℕ) → ℕ → Bool
fails r times t =
    not (has t r.delivered) && has t r.failed && is_overdue (streak t (times t) r) r.now

record IsRound (times : ℕ → List ℕ) (r : Round) (es es' : List EventEntry) : Type 0 where
  pub tokens : tokens es' ≡ keep_if (λ t. not (fails r times t)) (tokens es)
  counted : All (λ e. IsCounted e (streak e.srv_token (times e.srv_token) r)) es'

counted-IsRound :
    (times : ℕ → List ℕ) (r : Round) (es : List EventEntry)
    → All (λ e. IsCounted e (times e.srv_token)) es
    → IsRound times r es (keep_if (λ e. not e.delete_flag) (map (count_failure r) es))
unfolding fails
counted-IsRound times r [] h = record { tokens = refl; counted = tt }
counted-IsRound times r (e ∷ es) h =
    let (tok, cnt, fst, del) = count_failure-IsCounted r e (times e.srv_token) h.0 in
    let rest = counted-IsRound times r es h.1 in
    let e' = count_failure r e in
    let es' = keep_if (λ x. not x.delete_flag) (map (count_failure r) es) in
    let bad : e'.delete_flag ≡ fails r times e.srv_token = del in
    elim (Bool-cases e'.delete_flag) [
      | inl d ↦
          let is : es' ≡ keep_if (λ x. not x.delete_flag) (map (count_failure r) (e ∷ es)) =
            ground arith in
          record {
            tokens = ap tokens (sym is) ∙ ground (arith, rest.tokens, sym bad ∙ d);
            counted =
                subst (All (λ x. IsCounted x (streak x.srv_token (times x.srv_token) r))) is
                  rest.counted;
          }
      | inr d ↦
          let is : e' ∷ es' ≡ keep_if (λ x. not x.delete_flag) (map (count_failure r) (e ∷ es)) =
            ground arith in
          let here : IsCounted e' (streak e.srv_token (times e.srv_token) r) = record {
            counted = cnt;
            first = fst;
            kept = d;
          } in
          record {
            tokens = ap tokens (sym is) ∙ ground (arith, rest.tokens, sym bad ∙ d, tok);
            counted =
                subst (All (λ x. IsCounted x (streak x.srv_token (times x.srv_token) r))) is
                  (subst (λ t. IsCounted e' (streak t (times t) r)) (sym tok) here, rest.counted);
          }
    ]

-- A round without deliveries counts nothing.
idle-IsRound :
    (times : ℕ → List ℕ) (r : Round) (es : List EventEntry)
    → r.failed ≡ []
    → r.delivered ≡ []
    → All (λ e. IsCounted e (times e.srv_token)) es
    → IsRound times r es es
unfolding fails streak
idle-IsRound times r [] f d h = record { tokens = refl; counted = tt }
idle-IsRound times r (e ∷ es) f d h =
    let rest = idle-IsRound times r es f d h.1 in
    let same : times e.srv_token ≡ streak e.srv_token (times e.srv_token) r = ground arith in
    record {
      tokens = ground (arith, rest.tokens);
      counted = (subst (IsCounted e) same h.0, rest.counted);
    }

update_failure_counts-IsRound :
    (times : ℕ → List ℕ) (r : Round) (m : EvntMgr)
    → All (λ e. IsCounted e (times e.srv_token)) m.event_list
    → IsRound times r m.event_list (update_failure_counts m r).event_list
unfolding update_failure_counts
update_failure_counts-IsRound times r m h = elim (List-cases r.failed) [
  | inr (x, xs, f) ↦
      let is : keep_if (λ e. not e.delete_flag) (map (count_failure r) m.event_list)
          ≡ (update_failure_counts m r).event_list =
        ground (arith, f) in
      subst (IsRound times r m.event_list) is (counted-IsRound times r m.event_list h)
  | inl f ↦ elim (List-cases r.delivered) [
    | inr (x, xs, d) ↦
        let is : keep_if (λ e. not e.delete_flag) (map (count_failure r) m.event_list)
            ≡ (update_failure_counts m r).event_list =
          ground (arith, f, d) in
        subst (IsRound times r m.event_list) is (counted-IsRound times r m.event_list h)
    | inl d ↦
        let is : m.event_list ≡ (update_failure_counts m r).event_list = ground (arith, f, d) in
        subst (IsRound times r m.event_list) is (idle-IsRound times r m.event_list f d h)
  ]
]

rounds-expired :
    (rs : List Round) (times : ℕ → List ℕ) (m : EvntMgr)
    → All (λ e. IsCounted e (times e.srv_token)) m.event_list
    → tokens (update_rounds m rs).event_list
      ≡ keep_if (λ t. not (is_expired t (times t) rs)) (tokens m.event_list)
unfolding update_rounds is_expired fails
rounds-expired [] times m h = sym (keep_if-all (tokens m.event_list))
rounds-expired (r ∷ rs) times m h =
    let round = update_failure_counts-IsRound times r m h in
    let times' : ℕ → List ℕ = λ t. streak t (times t) r in
    rounds-expired rs times' (update_failure_counts m r) round.counted
    ∙ ap (keep_if (λ t. not (is_expired t (times' t) rs))) round.tokens
    ∙ keep_if-keep_if (λ t. is_expired t (times' t) rs) (fails r times) (tokens m.event_list)

fresh-IsCounted :
    (es : List EventEntry)
    → All (λ e. (e.fail_count ≡ 0) × (e.delete_flag ≡ false)) es
    → All (λ e. IsCounted e []) es
fresh-IsCounted [] h = tt
fresh-IsCounted (e ∷ es) h =
    (record { counted = h.0.0; first = tt; kept = h.0.1 }, fresh-IsCounted es h.1)

-- Over any rounds of deliveries to subscriptions that have not failed yet, exactly those leave, the
-- others in their order, of which at some round at least five deliveries in a row had failed, the
-- last of them in that round and 60 s or more after the first.
pub update_rounds-is_expired :
    (m : EvntMgr) (rs : List Round)
    → All (λ e. (e.fail_count ≡ 0) × (e.delete_flag ≡ false)) m.event_list
    → tokens (update_rounds m rs).event_list
      ≡ keep_if (λ t. not (is_expired t [] rs)) (tokens m.event_list)
update_rounds-is_expired m rs h = rounds-expired rs (λ t. []) m (fresh-IsCounted m.event_list h)
