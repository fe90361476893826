-- ===== src/EvntMgr/Tokens.antt =====
-- The token that ADEvntMgr acknowledges a subscription with.
use jsonrpc_tcp_srv.Prelude.{
  ℕ, ◌+◌, ◌≤◌, ◌<◌, Bool, true, false, not, List, [], ◌∷◌, ◌++◌, none, some, ==ℤ_iff, any, keep_if,
  All, pos, ◌≡◌, refl, ap, sym, subst, arith, Bool-cases, inl, inr, ◌⊎◌,
}
use jsonrpc_tcp_srv.EvntMgr.{
  EventEntry, EvntMgr, is_duplicate, has_token, register_event_subscription,
  unregister_event_subscription,
}
use jsonrpc_tcp_srv.EvntMgr.Subscriptions.{IsTidy, IsTidyMgr}

is_duplicate_refl : (e : EventEntry) → is_duplicate e e ≡ true
unfolding is_duplicate
is_duplicate_refl e = ground (
  arith,
  (==ℤ_iff e.clt_token e.clt_token).1 refl,
  (==ℤ_iff e.port_num e.port_num).1 refl,
  (==ℤ_iff e.event_num e.event_num).1 refl,
)

any-append_hit {ℓ} :
    {A : Type ℓ} (q : A → Bool) (xs : List A) (x : A) → q x ≡ true → any q (xs ++ x ∷ []) ≡ true
any-append_hit q [] x h = ground arith
any-append_hit q (y ∷ xs) x h = ground (arith, any-append_hit q xs x h)

-- A token above the bound is nobody's, so that removing it removes the last entry alone.
keep_if-above :
    (lo : ℕ) (es : List EventEntry) (hi t : ℕ) (e : EventEntry)
    → e.srv_token ≡ t
    → hi < t
    → IsTidy lo es hi
    → (lo ≤ hi) × (keep_if (λ x. not (has_token (pos t) x)) (es ++ e ∷ []) ≡ es)
keep_if-above lo [] hi t e is lt h = (h, ground (arith))
keep_if-above lo (x ∷ es) hi t e is lt h =
    let (le, rest) = keep_if-above x.srv_token es hi t e is lt h.2 in
    (omega (arith, le, h.0), ground (arith, rest, le, lt))

IsTidy-le : (lo : ℕ) (es : List EventEntry) (hi : ℕ) → IsTidy lo es hi → lo ≤ hi
IsTidy-le lo [] hi h = h
IsTidy-le lo (x ∷ es) hi h = omega (arith, h.0, IsTidy-le x.srv_token es hi h.2)

tokens-below :
    (lo : ℕ) (es : List EventEntry) (hi : ℕ) → IsTidy lo es hi → All (λ x. x.srv_token < hi + 1) es
tokens-below lo [] hi h = tt
tokens-below lo (x ∷ es) hi h =
    (omega (arith, IsTidy-le x.srv_token es hi h.2), tokens-below x.srv_token es hi h.2)

-- A registration is refused, and changes nothing, exactly when there is a duplicate of it; else its
-- token is new, a second registration of it is refused, and to unregister the token brings back the
-- list as it was.
pub register_event_subscription_lem :
    (m : EvntMgr) (e : EventEntry)
    → IsTidyMgr m
    → let (r, m') = register_event_subscription m e in
      ((any (is_duplicate e) m.event_list ≡ true) × (r ≡ none) × (m' ≡ m))
      ⊎ ((any (is_duplicate e) m.event_list ≡ false)
          × (t : ℕ) × (r ≡ some t)
          × All (λ x. x.srv_token < t) m.event_list
          × (register_event_subscription m' e ≡ (none, m'))
          × ((unregister_event_subscription m' (pos t)).0 ≡ true)
          × ((unregister_event_subscription m' (pos t)).1.event_list ≡ m.event_list))
unfolding register_event_subscription unregister_event_subscription is_duplicate
register_event_subscription_lem m e h = elim (Bool-cases (any (is_duplicate e) m.event_list)) [
  | inl d ↦ inl (d, ground arith, ground arith)
  | inr d ↦
      let t = m.ack_token + 1 in
      let added : EventEntry = record e {
        srv_token = t;
        fail_count = 0;
        first_fail_ms = 0;
        delete_flag = false;
      } in
      let m' : EvntMgr = record m { ack_token = t; event_list = m.event_list ++ added ∷ [] } in
      let is : register_event_subscription m e ≡ (some t, m') = ground arith in
      let again = any-append_hit (is_duplicate e) m.event_list added (is_duplicate_refl e) in
      let there =
        any-append_hit (has_token (pos t)) m.event_list added ((==ℤ_iff (pos t) (pos t)).1 refl) in
      let gone = (keep_if-above 0 m.event_list m.ack_token t added refl (omega arith) h).1 in
      inr (
        d,
        t,
        ap (λ r. r.0) is,
        tokens-below 0 m.event_list m.ack_token h,
        subst (λ r. register_event_subscription r.1 e ≡ (none, r.1)) (sym is)
            (ground (arith, again)),
        subst (λ r. (unregister_event_subscription r.1 (pos t)).0 ≡ true) (sym is)
            (ground (arith, there)),
        subst (λ r. (unregister_event_subscription r.1 (pos t)).1.event_list ≡ m.event_list)
            (sym is) (ground (arith, there, gone)),
      )
]
