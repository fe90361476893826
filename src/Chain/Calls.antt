-- ===== src/Chain/Calls.antt =====
-- Sequences of calls of ADGenericChain: sizes, conservation of elements, order, fresh idents.
use jsonrpc_tcp_srv.Prelude.{
  ◌+◌, ◌-◌, ◌≤◌, Bool, false, List, [], ◌∷◌, ◌++◌, Option, none, some, if◌then◌else◌, Option-cases,
  length, length-append, find_first, count, count-append, ◌≡◌, refl, ◌∙◌, arith, inl, inr,
}
use jsonrpc_tcp_srv.Chain.Lists.{length-remove_first, count-remove_first}
use jsonrpc_tcp_srv.Chain.{
  Chain, new_chain, attach_helper, chain_put, chain_get, chain_remove_by_ident,
  chain_generate_ident, chain_empty, remove_all, remove_each,
}

-- The calls that change a chain. `I` is the type of idents.
pub data Call {ℓ κ} (A : Type ℓ) (I : Type κ) : Type (ℓ ⊔ κ) where
  attach : Call A I
  put : A → Call A I
  get : Call A I
  remove_by : I → Call A I
  generate : Call A I
  clear : Call A I
  empty : Call A I

-- What a call takes in, what it gives out (to its caller or to the deleter), and the chain after.
pub record Effect {ℓ} (A : Type ℓ) : Type ℓ where
  pub taken : List A
  pub given : List A
  pub chain : Chain A

abbrev pub from_option {ℓ} : {A : Type ℓ} → Option A → List A
from_option none = []
from_option (some a) = a ∷ []

module _ {ℓ κ} {A : Type ℓ} {I : Type κ} (identify : I → A → Bool) where
  unfoldable pub effect : Chain A → Call A I → Effect A
  effect c attach = record { taken = []; given = []; chain = (attach_helper c).1 }
  effect c (put a) =
      let (done, c') = chain_put c a in
      record { taken = if done then a ∷ [] else []; given = []; chain = c' }
  effect c get =
      let (out, c') = chain_get c in record { taken = []; given = from_option out; chain = c' }
  effect c (remove_by i) =
      let (out, c') = chain_remove_by_ident identify c i in
      record { taken = []; given = from_option out; chain = c' }
  effect c generate = record { taken = []; given = []; chain = (chain_generate_ident c).1 }
  effect c clear =
      let (freed, c') = remove_all c in record { taken = []; given = freed; chain = c' }
  effect c empty =
      let (freed, c') = chain_empty c in record { taken = []; given = freed; chain = c' }

  pub effects : Chain A → List (Call A I) → Effect A
  effects c [] = record { taken = []; given = []; chain = c }
  effects c (k ∷ ks) =
      let one = effect c k in
      let more = effects one.chain ks in
      record {
        taken = one.taken ++ more.taken;
        given = one.given ++ more.given;
        chain = more.chain;
      }

pub record IsValid {ℓ} {A : Type ℓ} (c : Chain A) : Type 0 where
  pub sized : c.chain_size ≡ length c.items
  pub peak : c.chain_size ≤ c.chain_peak_size

module _ {ℓ} {A : Type ℓ} where
  remove_each-lem :
      (c : Chain A) (xs : List A)
      → c.items ≡ xs
      → c.chain_size ≡ length xs
      → let (freed, c') = remove_each c xs in
        (c'.items ≡ [])
        × (c'.chain_size ≡ 0)
        × (c'.chain_peak_size ≡ c.chain_peak_size)
        × (c'.disable_autoremove ≡ c.disable_autoremove)
        × (freed ≡ (if c.disable_autoremove then [] else xs))
  unfolding remove_each
  remove_each-lem c [] e h = ground arith
  remove_each-lem c (a ∷ rest) e h = ground (
    arith,
    remove_each-lem (record c { items = rest; chain_size = c.chain_size - 1 }) rest refl
        (omega arith),
  )

module _ {ℓ κ} {A : Type ℓ} {I : Type κ} (identify : I → A → Bool) where
  -- After every call the size kept is the number of elements, and the peak is at least it.
  effect-IsValid : (c : Chain A) (k : Call A I) → IsValid c → IsValid (effect identify c k).chain
  unfolding effect attach_helper chain_put chain_get chain_remove_by_ident chain_generate_ident
      chain_empty
  effect-IsValid c attach v = ground (arith, v.sized, v.peak)
  effect-IsValid c (put a) v = ground (arith, v.sized, v.peak, length-append c.items (a ∷ []))
  effect-IsValid c get v = ground (arith, v.sized, v.peak)
  effect-IsValid c (remove_by i) v = elim (Option-cases (find_first (identify i) c.items)) [
    | inl e ↦ ground (arith, v.sized, v.peak)
    | inr (a, e) ↦ ground (arith, v.sized, v.peak, length-remove_first (identify i) c.items a e)
  ]
  effect-IsValid c generate v = ground (arith, v.sized, v.peak)
  effect-IsValid c clear v = ground (arith, v.peak, remove_each-lem c c.items refl v.sized)
  effect-IsValid c empty v = ground (arith, v.peak, remove_each-lem c c.items refl v.sized)

  effects-IsValid :
      (c : Chain A) (ks : List (Call A I)) → IsValid c → IsValid (effects identify c ks).chain
  unfolding effects
  effects-IsValid c [] v = v
  effects-IsValid c (k ∷ ks) v =
      effects-IsValid (effect identify c k).chain ks (effect-IsValid c k v)

  -- After any calls on a new chain, among them the attaching of its consumer, which the calls by ident
  -- need, `get_chain_size` is the number of elements, and the peak size is at least that.
  pub effects-new_chain-IsValid :
      (ks : List (Call A I)) → IsValid (effects identify new_chain ks).chain
  unfolding new_chain
  effects-new_chain-IsValid ks = effects-IsValid new_chain ks (ground arith)

  disable_autoremove-effect :
      (c : Chain A) (k : Call A I)
      → IsValid c
      → (effect identify c k).chain.disable_autoremove ≡ c.disable_autoremove
  unfolding effect attach_helper chain_put chain_get chain_remove_by_ident chain_generate_ident
      chain_empty
  disable_autoremove-effect c attach v = ground arith
  disable_autoremove-effect c (put a) v = ground arith
  disable_autoremove-effect c get v = ground arith
  disable_autoremove-effect c (remove_by i) v = ground arith
  disable_autoremove-effect c generate v = refl
  disable_autoremove-effect c clear v = ground (arith, remove_each-lem c c.items refl v.sized)
  disable_autoremove-effect c empty v = ground (arith, remove_each-lem c c.items refl v.sized)

  effect-count :
      (p : A → Bool) (c : Chain A) (k : Call A I)
      → IsValid c
      → c.disable_autoremove ≡ false
      → let r = effect identify c k in
        count p c.items + count p r.taken ≡ count p r.given + count p r.chain.items
  unfolding effect attach_helper chain_put chain_get chain_remove_by_ident chain_generate_ident
      chain_empty
  effect-count p c attach v d = ground arith
  effect-count p c (put a) v d = ground (arith, count-append p c.items (a ∷ []))
  effect-count p c get v d = ground arith
  effect-count p c (remove_by i) v d = elim (Option-cases (find_first (identify i) c.items)) [
    | inl e ↦ ground arith
    | inr (a, e) ↦ ground (arith, count-remove_first p (identify i) c.items a e)
  ]
  effect-count p c generate v d = ground arith
  effect-count p c clear v d = ground (arith, remove_each-lem c c.items refl v.sized)
  effect-count p c empty v d = ground (arith, remove_each-lem c c.items refl v.sized)

  -- No element is lost or made up: over any calls, the elements that the chain held and took in are
  -- those that it gave out (to callers of `chain_get` and `chain_remove_by_ident`, or to the
  -- deleter), and those that it still holds, each as often. The chain owns its elements (auto
  -- remove is on).
  pub effects_conserve :
      (c : Chain A) (ks : List (Call A I)) (p : A → Bool)
      → IsValid c
      → c.disable_autoremove ≡ false
      → let r = effects identify c ks in
        count p c.items + count p r.taken ≡ count p r.given + count p r.chain.items
  unfolding effects
  effects_conserve c [] p v d = omega arith
  effects_conserve c (k ∷ ks) p v d =
      let one = effect identify c k in
      omega (
        arith,
        effect-count p c k v d,
        effects_conserve one.chain ks p (effect-IsValid c k v)
            (disable_autoremove-effect c k v ∙ d),
        count-append p one.taken (effects identify one.chain ks).taken,
        count-append p one.given (effects identify one.chain ks).given,
      )

  -- The calls of a queue.
  abbrev pub IsQueueCall : Call A I → Type 0
  IsQueueCall (remove_by _) = ⊥
  IsQueueCall _ = Unit {0}
