-- ===== src/Chain/Idents.antt =====
-- Finding an element of an ADGenericChain by its ident, and the idents that it generates.
use jsonrpc_tcp_srv.Prelude.{
  ℕ, ◌-◌, ◌<◌, Bool, true, false, List, [], ◌∷◌, ◌++◌, none, some, Bool-cases, Option-cases,
  find_first, remove_first, All, ◌≡◌, refl, ap, subst, arith, inl, inr, ◌⊎◌,
}
use jsonrpc_tcp_srv.Chain.Calls.{Call, attach, put, get, remove_by, generate, clear, empty, effect}
use jsonrpc_tcp_srv.Chain.{
  Chain, attach_helper, chain_put, chain_get, chain_remove_by_ident, chain_generate_ident,
  remove_all, remove_each, chain_get_by_ident,
}

module _ {ℓ} {A : Type ℓ} where
  -- The list is cut at the first element that passes the test.
  pub record Cut (q : A → Bool) (xs : List A) (a : A) : Type ℓ where
    pub before : List A
    pub after : List A
    pub whole : xs ≡ before ++ a ∷ after
    pub left : remove_first q xs ≡ before ++ after
    pub misses : All (λ x. q x ≡ false) before
    pub hit : q a ≡ true

  pub find_first-Cut : (q : A → Bool) (xs : List A) (a : A) → find_first q xs ≡ some a → Cut q xs a
  find_first-Cut q [] a e = cc
  find_first-Cut q (x ∷ xs) a e = elim (Bool-cases (q x)) [
    | inl h ↦ record {
      before = [];
      after = xs;
      whole = ground arith;
      left = ground arith;
      misses = tt;
      hit = ground arith;
    }
    | inr h ↦
        let rest = find_first-Cut q xs a (ground arith) in
        record {
          before = x ∷ rest.before;
          after = rest.after;
          whole = ap (◌∷◌ x) rest.whole;
          left = ground (arith, rest.left);
          misses = (h, rest.misses);
          hit = rest.hit;
        }
  ]

  pub find_first-none :
      (q : A → Bool) (xs : List A) → find_first q xs ≡ none → All (λ x. q x ≡ false) xs
  find_first-none q [] e = tt
  find_first-none q (x ∷ xs) e = elim (Bool-cases (q x)) [
    | inl h ↦ absurd (ground arith)
    | inr h ↦ (h, find_first-none q xs (ground arith))
  ]

module _ {ℓ κ} {A : Type ℓ} {I : Type κ} (identify : I → A → Bool) where
  -- On a live chain with a consumer, `chain_remove_by_ident` returns the element that
  -- `chain_get_by_ident` finds. If there is one, it is the first that the consumer identifies, and
  -- it alone leaves, the others in their order; if there is none, no element is identified and
  -- nothing changes.
  pub chain_remove_by_ident-Cut :
      (c : Chain A) (i : I)
      → c.init_flag ≡ true
      → c.attached ≡ true
      → let (r, c') = chain_remove_by_ident identify c i in
        (r ≡ chain_get_by_ident identify c i)
        × (((a : A) × (r ≡ some a)
              × (k : Cut (identify i) c.items a) × (c'.items ≡ k.before ++ k.after))
            ⊎ ((r ≡ none) × (c' ≡ c) × All (λ x. identify i x ≡ false) c.items))
  unfolding chain_remove_by_ident chain_get_by_ident
  chain_remove_by_ident-Cut c i l h = elim (Option-cases (find_first (identify i) c.items)) [
    | inl e ↦
        (ground arith, inr (ground arith, ground arith, find_first-none (identify i) c.items e))
    | inr (a, e) ↦
        let k = find_first-Cut (identify i) c.items a e in
        (ground arith, inl (a, ground arith, k, ground (arith, k.left)))
  ]

  -- The idents that a chain hands out over the calls.
  pub idents : Chain A → List (Call A I) → List ℕ
  idents c [] = []
  idents c (k ∷ ks) =
      let rest = idents (effect identify c k).chain ks in
      elim k [ generate ↦ (chain_generate_ident c).0 ∷ rest | _ ↦ rest ]

  -- Each number is above `n` and above those before it.
  abbrev pub Rising : ℕ → List ℕ → Type 0
  Rising n [] = Unit {0}
  Rising n (i ∷ is) = (n < i) × Rising i is

  abbrev pub KeepsIdents : Call A I → Type 0
  KeepsIdents empty = ⊥
  KeepsIdents _ = Unit {0}

  remove_each-ident :
      (c : Chain A) (xs : List A) → (remove_each c xs).1.ident_generator ≡ c.ident_generator
  unfolding remove_each
  remove_each-ident c [] = refl
  remove_each-ident c (a ∷ rest) =
      remove_each-ident (record c { items = rest; chain_size = c.chain_size - 1 }) rest

  -- Whether a call leaves the generator alone.
  abbrev GeneratesNone : Call A I → Type 0
  GeneratesNone empty = ⊥
  GeneratesNone generate = ⊥
  GeneratesNone _ = Unit {0}

  ident_generator-effect :
      (c : Chain A) (k : Call A I)
      → GeneratesNone k
      → (effect identify c k).chain.ident_generator ≡ c.ident_generator
  unfolding effect attach_helper chain_put chain_get chain_remove_by_ident remove_all
  ident_generator-effect c attach h = ground arith
  ident_generator-effect c (put a) h = ground arith
  ident_generator-effect c get h = ground arith
  ident_generator-effect c (remove_by i) h = ground arith
  ident_generator-effect c generate h = absurd h
  ident_generator-effect c clear h = remove_each-ident c c.items
  ident_generator-effect c empty h = absurd h

  Rising-effect :
      (c : Chain A) (k : Call A I) (is : List ℕ)
      → GeneratesNone k
      → Rising (effect identify c k).chain.ident_generator is
      → Rising c.ident_generator is
  Rising-effect c k is h r = subst (λ n. Rising n is) (ident_generator-effect c k h) r

  -- Until the chain is emptied, the idents that it generates rise, above all that it generated
  -- before: none is handed out twice.
  pub idents-Rising :
      (c : Chain A) (ks : List (Call A I))
      → All KeepsIdents ks
      → Rising c.ident_generator (idents c ks)
  unfolding idents effect chain_generate_ident
  idents-Rising c [] h = tt
  idents-Rising c (attach ∷ ks) h =
      Rising-effect c attach _ tt (idents-Rising (effect identify c attach).chain ks h.1)
  idents-Rising c (put a ∷ ks) h =
      Rising-effect c (put a) _ tt (idents-Rising (effect identify c (put a)).chain ks h.1)
  idents-Rising c (get ∷ ks) h =
      Rising-effect c get _ tt (idents-Rising (effect identify c get).chain ks h.1)
  idents-Rising c (remove_by i ∷ ks) h =
      Rising-effect c (remove_by i) _ tt
        (idents-Rising (effect identify c (remove_by i)).chain ks h.1)
  idents-Rising c (generate ∷ ks) h =
      (omega arith, idents-Rising (effect identify c generate).chain ks h.1)
  idents-Rising c (clear ∷ ks) h =
      Rising-effect c clear _ tt (idents-Rising (effect identify c clear).chain ks h.1)
  idents-Rising c (empty ∷ ks) h = absurd h.0
