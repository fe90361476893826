-- ===== src/Chain.antt =====
-- lib/lib-jsonrpc-tcp ADGenericChain (.hpp, .cpp): a locked queue of elements, shared by a producer
-- and its consumer. The holders linked through `pNext` behind `base_chain` are the list `items`,
-- first to last. `attached` says that a consumer was attached; `identify ident element` is its
-- answer, true for the return code 0. A NULL result is `none`, a return code -1 is `false`. An
-- operation runs under the chain's mutex and is one step here; `malloc` succeeds.
pub mod Lists
pub mod Calls
pub mod Idents
mod Tests
use jsonrpc_tcp_srv.Prelude.{
  ℕ, zero, suc, ◌+◌, ◌-◌, ◌<◌, Bool, true, false, not, List, [], ◌∷◌, ◌++◌, Option, none, some, ltb,
  leb, if◌then◌else◌, length, find_first, remove_first, ℤ, pos, negsuc, is_negative,
}

pub record Chain {ℓ} (A : Type ℓ) : Type ℓ where
  pub items : List A
  pub chain_size : ℕ
  pub chain_peak_size : ℕ
  pub ident_generator : ℕ
  pub init_flag : Bool
  pub attached : Bool
  pub disable_autoremove : Bool

module _ {ℓ} {A : Type ℓ} where
  unfoldable pub new_chain : Chain A
  new_chain = record {
    items = [];
    chain_size = 0;
    chain_peak_size = 0;
    ident_generator = 0;
    init_flag = true;
    attached = false;
    disable_autoremove = false;
  }

  -- The first consumer stays; the id of the producer is not kept.
  unfoldable pub attach_helper : Chain A → Bool × Chain A
  attach_helper c = if c.attached then (false, c) else (true, record c { attached = true })

  unfoldable pub chain_add : Chain A → A → Chain A
  chain_add c data_ = record c {
    items = c.items ++ data_ ∷ [];
    chain_size = c.chain_size + 1;
    chain_peak_size =
        if ltb c.chain_peak_size (c.chain_size + 1) then c.chain_size + 1 else c.chain_peak_size;
  }

  unfoldable pub chain_put : Chain A → A → Bool × Chain A
  unfolding chain_add
  chain_put c data_ = if not c.init_flag then (false, c) else (true, chain_add c data_)

  unfoldable pub remove_head : Chain A → List A → Bool × Chain A
  remove_head c [] = (false, c)
  remove_head c (_ ∷ rest) = (true, record c { items = rest; chain_size = c.chain_size - 1 })

  -- The first element leaves; `remove` is the same code.
  unfoldable pub chain_remove : Chain A → Bool × Chain A
  unfolding remove_head
  chain_remove c = remove_head c c.items

  unfoldable pub top_of : List A → Option A
  top_of [] = none
  top_of (a ∷ _) = some a

  unfoldable pub get_top : Chain A → Option A
  unfolding top_of
  get_top c = if not c.init_flag then none else top_of c.items

  unfoldable pub get_from : Chain A → Option A → Option A × Chain A
  unfolding chain_remove
  get_from c none = (none, c)
  get_from c (some a) = (some a, (chain_remove c).1)

  unfoldable pub chain_get : Chain A → Option A × Chain A
  unfolding get_from top_of
  chain_get c = if not c.init_flag then (none, c) else get_from c (top_of c.items)

  nth : List A → ℕ → Option A
  nth [] i = none
  nth (a ∷ _) zero = some a
  nth (_ ∷ rest) (suc i) = nth rest i

  -- `index >= chain_size` is tested on ints; a negative index walks nowhere and gives the first.
  unfoldable pub chain_get_by_index : Chain A → ℤ → Option A
  unfolding nth top_of
  chain_get_by_index c (negsuc _) = top_of c.items
  chain_get_by_index c (pos index) = if leb c.chain_size index then none else nth c.items index

  unfoldable pub get_chain_size : Chain A → ℕ
  get_chain_size c = c.chain_size

  unfoldable pub chain_generate_ident : Chain A → ℕ × Chain A
  chain_generate_ident c =
      (c.ident_generator + 1, record c { ident_generator = c.ident_generator + 1 })

  unfoldable pub disable_auto_remove : Chain A → Chain A
  disable_auto_remove c = record c { disable_autoremove = true }

  pub enable_auto_remove : Chain A → Chain A
  enable_auto_remove c = record c { disable_autoremove = false }

  -- The elements handed to `free_chain_element_data` and to the deleter, and the chain after.
  unfoldable pub remove_each : Chain A → List A → List A × Chain A
  unfolding remove_head
  remove_each c [] = ([], c)
  remove_each c (a ∷ rest) =
      let (freed, c') = remove_each (remove_head c (a ∷ rest)).1 rest in
      (if c.disable_autoremove then freed else a ∷ freed, c')

  unfoldable pub remove_all : Chain A → List A × Chain A
  unfolding remove_each
  remove_all c = remove_each c c.items

  unfoldable pub chain_empty : Chain A → List A × Chain A
  unfolding remove_all
  chain_empty c = let (freed, c') = remove_all c in (freed, record c' { ident_generator = 0 })

  -- `~ADGenericChain`.
  pub destroy : Chain A → List A × Chain A
  unfolding remove_all
  destroy c = let (freed, c') = remove_all c in (freed, record c' { init_flag = false })

  -- The ident is an int, or the two ints of the `double_ident` calls.
  module _ {κ} {I : Type κ} (identify : I → A → Bool) where
    -- Also `chain_get_by_double_ident`.
    unfoldable pub chain_get_by_ident : Chain A → I → Option A
    chain_get_by_ident c ident =
        if not c.attached then none else find_first (identify ident) c.items

    unfoldable pub unlink : Chain A → I → Option A → Option A × Chain A
    unlink c ident none = (none, c)
    unlink c ident (some a) = (
      some a,
      record c { items = remove_first (identify ident) c.items; chain_size = c.chain_size - 1 },
    )

    -- Also `chain_remove_by_double_ident`.
    unfoldable pub chain_remove_by_ident : Chain A → I → Option A × Chain A
    unfolding unlink
    chain_remove_by_ident c ident =
        if not c.init_flag
        then (none, c)
        else if not c.attached
        then (none, c)
        else unlink c ident (find_first (identify ident) c.items)
