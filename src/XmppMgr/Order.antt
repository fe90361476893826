-- ===== src/XmppMgr/Order.antt =====
-- services/xmproxy/srv/src/XmppMgr.cpp: `AliasList` is in the order of its keys, each key once.
use jsonrpc_tcp_srv.Prelude.{
  true, false, List, [], ◌∷◌, ◌++◌, ◌==◌, ==_iff, All, ◌≡◌, refl, ap, sym, subst, ◌∙◌, arith,
  Bool-cases, inl, inr,
}
use jsonrpc_tcp_srv.Framer.{Bytes}
use jsonrpc_tcp_srv.XmppMgr.{same, less}
use jsonrpc_tcp_srv.XmppMgr.Aliases.{alias_set, alias_erase}

pub same-≡ : (xs ys : Bytes) → same xs ys ≡ true → xs ≡ ys
unfolding same
same-≡ [] [] e = refl
same-≡ [] (y ∷ ys) e = absurd (ground arith)
same-≡ (x ∷ xs) [] e = absurd (ground arith)
same-≡ (x ∷ xs) (y ∷ ys) e = elim (Bool-cases (x == y)) [
  | inl h ↦
      let head : x ≡ y = (==_iff x y).0 h in
      let tail : xs ≡ ys = same-≡ xs ys (ground arith) in
      ap (λ z. z ∷ xs) head ∙ ap (λ zs. y ∷ zs) tail
  | inr h ↦ absurd (ground arith)
]

pub same_refl : (xs : Bytes) → same xs xs ≡ true
unfolding same
same_refl [] = refl
same_refl (x ∷ xs) = ground (arith, (==_iff x x).1 refl, same_refl xs)

-- Of two keys, one is before the other or they are the same.
less_total : (xs ys : Bytes) → same xs ys ≡ false → less xs ys ≡ false → less ys xs ≡ true
unfolding same less
less_total [] [] e l = absurd (ground arith)
less_total [] (y ∷ ys) e l = absurd (ground arith)
less_total (x ∷ xs) [] e l = refl
less_total (x ∷ xs) (y ∷ ys) e l = elim (Bool-cases (x == y)) [
  | inl h ↦ ground (arith, less_total xs ys (ground arith) (ground arith))
  | inr h ↦ ground arith
]

less_asym : (xs ys : Bytes) → less xs ys ≡ true → (same ys xs ≡ false) × (less ys xs ≡ false)
unfolding same less
less_asym xs [] l = absurd (ground arith)
less_asym [] (y ∷ ys) l = (refl, refl)
less_asym (x ∷ xs) (y ∷ ys) l = elim (Bool-cases (x == y)) [
  | inl h ↦
      let rest = less_asym xs ys (ground arith) in (ground (arith, rest.0), ground (arith, rest.1))
  | inr h ↦ (ground arith, ground arith)
]

less_trans : (xs ys zs : Bytes) → less xs ys ≡ true → less ys zs ≡ true → less xs zs ≡ true
unfolding less
less_trans xs [] zs a b = absurd (ground arith)
less_trans xs (y ∷ ys) [] a b = absurd (ground arith)
less_trans [] (y ∷ ys) (z ∷ zs) a b = refl
less_trans (x ∷ xs) (y ∷ ys) (z ∷ zs) a b = elim (Bool-cases (x == y)) [
  | inl h ↦ elim (Bool-cases (y == z)) [
    | inl k ↦ ground (arith, less_trans xs ys zs (ground arith) (ground arith))
    | inr k ↦ ground arith
  ]
  | inr h ↦ ground arith
]

abbrev IsAbove : Bytes → List (Bytes × Bytes) → Type 0
IsAbove key es = All (λ e. less key e.0 ≡ true) es

abbrev pub IsSorted : List (Bytes × Bytes) → Type 0
IsSorted [] = Unit
IsSorted ((k, v) ∷ es) = IsAbove k es × IsSorted es

IsAbove-trans :
    (key k : Bytes) (es : List (Bytes × Bytes)) → less key k ≡ true → IsAbove k es → IsAbove key es
IsAbove-trans key k [] l h = tt
IsAbove-trans key k ((k', v) ∷ es) l h = (less_trans key k k' l h.0, IsAbove-trans key k es l h.1)

IsAbove-alias_set :
    (low key value : Bytes) (es : List (Bytes × Bytes))
    → less low key ≡ true
    → IsAbove low es
    → IsAbove low (alias_set key value es)
unfolding alias_set
IsAbove-alias_set low key value [] l h = (l, tt)
IsAbove-alias_set low key value ((k, v) ∷ es) l h = elim (Bool-cases (same key k)) [
  | inl e ↦ rw e (l, h.1)
  | inr e ↦ elim (Bool-cases (less key k)) [
    | inl b ↦ rw (e, b) (l, h)
    | inr b ↦ rw (e, b) (h.0, IsAbove-alias_set low key value es l h.1)
  ]
]

pub alias_set-IsSorted :
    (key value : Bytes) (es : List (Bytes × Bytes))
    → IsSorted es
    → IsSorted (alias_set key value es)
unfolding alias_set
alias_set-IsSorted key value [] h = (tt, tt)
alias_set-IsSorted key value ((k, v) ∷ es) h = elim (Bool-cases (same key k)) [
  | inl e ↦ rw e (subst (λ z. IsAbove z es) (sym (same-≡ key k e)) h.0, h.1)
  | inr e ↦ elim (Bool-cases (less key k)) [
    | inl b ↦ rw (e, b) ((b, IsAbove-trans key k es b h.0), h)
    | inr b ↦
        rw (e, b)
          (
            IsAbove-alias_set k key value es (less_total key k e b) h.0,
            alias_set-IsSorted key value es h.1,
          )
  ]
]

IsAbove-alias_erase :
    (low key : Bytes) (es : List (Bytes × Bytes))
    → IsAbove low es
    → IsAbove low (alias_erase key es)
unfolding alias_erase
IsAbove-alias_erase low key [] h = tt
IsAbove-alias_erase low key ((k, v) ∷ es) h = elim (Bool-cases (same key k)) [
  | inl e ↦ rw e h.1
  | inr e ↦ rw e (h.0, IsAbove-alias_erase low key es h.1)
]

pub alias_erase-IsSorted :
    (key : Bytes) (es : List (Bytes × Bytes)) → IsSorted es → IsSorted (alias_erase key es)
unfolding alias_erase
alias_erase-IsSorted key [] h = tt
alias_erase-IsSorted key ((k, v) ∷ es) h = elim (Bool-cases (same key k)) [
  | inl e ↦ rw e h.1
  | inr e ↦ rw e (IsAbove-alias_erase k key es h.0, alias_erase-IsSorted key es h.1)
]

-- A key above all others goes to the end.
pub alias_set-last :
    (key value : Bytes) (es : List (Bytes × Bytes))
    → All (λ e. less e.0 key ≡ true) es
    → alias_set key value es ≡ es ++ (key, value) ∷ []
unfolding alias_set
alias_set-last key value [] h = refl
alias_set-last key value ((k, v) ∷ es) h =
    let (s, l) = less_asym k key h.0 in
    rw (s, l) (ap (λ r. (k, v) ∷ r) (alias_set-last key value es h.1))

above-member :
    (k key value : Bytes) (bs es : List (Bytes × Bytes))
    → IsAbove k (bs ++ (key, value) ∷ es)
    → less k key ≡ true
above-member k key value [] es h = h.0
above-member k key value (b ∷ bs) es h = above-member k key value bs es h.1

-- The keys before one of a sorted list are below it.
pub IsSorted-before :
    (bs : List (Bytes × Bytes)) (key value : Bytes) (es : List (Bytes × Bytes))
    → IsSorted (bs ++ (key, value) ∷ es)
    → All (λ e. less e.0 key ≡ true) bs
IsSorted-before [] key value es h = tt
IsSorted-before ((k, v) ∷ bs) key value es h =
    (above-member k key value bs es h.0, IsSorted-before bs key value es h.1)
