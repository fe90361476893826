-- ===== src/XmppMgr/Noted.antt =====
-- services/xmproxy/srv/src/XmppMgr.cpp: what a write of a status makes of the list of the event subscriptions.
use jsonrpc_tcp_srv.Prelude.{
  Bool, true, false, ◌&&◌, List, [], ◌∷◌, ◌++◌, none, some, if◌then◌else◌, leb, find_first,
  update_first, count, count-append, ◌≡◌, refl, ◌∙◌, arith, Bool-cases, Option-cases, inl, inr,
}
use jsonrpc_tcp_srv.XmppMgr.{EventSubscrEntry}

abbrev pub enabled : (EventSubscrEntry → Bool) → EventSubscrEntry → Bool
enabled q e = q e && e.status

abbrev pub switch : Bool → EventSubscrEntry → EventSubscrEntry
switch on e = record e { status = on }

-- There is at most one entry, and it is enabled as `b` says.
abbrev pub Holds : (EventSubscrEntry → Bool) → Bool → List EventSubscrEntry → Type 0
Holds q b es = (leb (count q es) 1 ≡ true) × (count (enabled q) es ≡ (if b then 1 else 0))

-- The list of `write_status`.
abbrev pub noted :
    (EventSubscrEntry → Bool)
    → EventSubscrEntry
    → Bool
    → List EventSubscrEntry
    → List EventSubscrEntry
noted q e on es = elim (find_first q es) [
  | some _ ↦ update_first q (switch on) es
  | none ↦ if on then es ++ e ∷ [] else es
]

unfoldable pub Blind : (EventSubscrEntry → Bool) → Type 0
Blind q = (on : Bool) (e : EventSubscrEntry) → q (switch on e) ≡ q e

count-find_none :
    (q : EventSubscrEntry → Bool) (es : List EventSubscrEntry)
    → find_first q es ≡ none
    → (count q es ≡ 0) × (count (enabled q) es ≡ 0)
count-find_none q [] f = (refl, refl)
count-find_none q (e ∷ es) f = elim (Bool-cases (q e)) [
  | inl t ↦ absurd (ground arith)
  | inr t ↦
      let rest = count-find_none q es (ground arith) in
      (ground (arith, rest.0), ground (arith, rest.1))
]

count-enabled :
    (q : EventSubscrEntry → Bool) (es : List EventSubscrEntry)
    → leb (count (enabled q) es) (count q es) ≡ true
count-enabled q [] = refl
count-enabled q (e ∷ es) = ground (arith, count-enabled q es)

count-update :
    (q : EventSubscrEntry → Bool)
    → Blind q
    → (on : Bool) (es : List EventSubscrEntry) (k : EventSubscrEntry) → find_first q es ≡ some k
    → leb (count q es) 1 ≡ true
    → Holds q on (update_first q (switch on) es)
unfolding Blind
count-update q blind on [] k f l = absurd (ground arith)
count-update q blind on (e ∷ es) k f l = elim (Bool-cases (q e)) [
  | inl t ↦
      let c = count-enabled q es in
      rw t (ground (arith, blind on e, c, t, l), ground (arith, blind on e, c, t, l))
  | inr t ↦
      let rest = count-update q blind on es k (ground arith) (ground arith) in
      rw t (ground (arith, rest.0, t), ground (arith, rest.1, t))
]

-- A write to another entry is not seen.
count-other :
    (p q : EventSubscrEntry → Bool)
    → Blind q
    → ((e : EventSubscrEntry) → p e ≡ true → q e ≡ false)
    → (on : Bool) (es : List EventSubscrEntry)
    → (count q (update_first p (switch on) es) ≡ count q es)
      × (count (enabled q) (update_first p (switch on) es) ≡ count (enabled q) es)
unfolding Blind
count-other p q blind apart on [] = (refl, refl)
count-other p q blind apart on (e ∷ es) = elim (Bool-cases (p e)) [
  | inl t ↦
      let no = apart e t in (ground (arith, t, no, blind on e), ground (arith, t, no, blind on e))
  | inr t ↦
      let rest = count-other p q blind apart on es in
      (ground (arith, t, rest.0), ground (arith, t, rest.1))
]

pub noted-same :
    (q : EventSubscrEntry → Bool)
    → Blind q
    → (e : EventSubscrEntry) (b on : Bool) (es : List EventSubscrEntry) → q e ≡ true
    → e.status ≡ true
    → Holds q b es
    → Holds q on (noted q e on es)
noted-same q blind e b on es t s h = elim (Option-cases (find_first q es)) [
  | inl f ↦
      let (c, l) = count-find_none q es f in
      let a = count-append q es (e ∷ []) in
      let d = count-append (enabled q) es (e ∷ []) in
      rw (f, noted)
        (elim (Bool-cases on) [
          | inl o ↦ rw o (ground (arith, a, c, t), ground (arith, d, l, t, s))
          | inr o ↦ rw o (h.0, l)
        ])
  | inr (k, f) ↦ rw (f, noted) (count-update q blind on es k f h.0)
]

pub noted-other :
    (p q : EventSubscrEntry → Bool)
    → Blind q
    → ((e : EventSubscrEntry) → p e ≡ true → q e ≡ false)
    → (e : EventSubscrEntry) (b on : Bool) (es : List EventSubscrEntry) → p e ≡ true
    → Holds q b es
    → Holds q b (noted p e on es)
noted-other p q blind apart e b on es t h = elim (Option-cases (find_first p es)) [
  | inl f ↦
      let no = apart e t in
      let a = count-append q es (e ∷ []) in
      let d = count-append (enabled q) es (e ∷ []) in
      rw (f, noted)
        (elim (Bool-cases on) [
          | inl o ↦ rw o (ground (arith, a, no, h.0), ground (arith, d, no, h.1))
          | inr o ↦ rw o h
        ])
  | inr (k, f) ↦
      let (c, l) = count-other p q blind apart on es in
      rw (f, noted) (ground (arith, c, h.0), l ∙ h.1)
]
