-- ===== src/Prelude/Maps.antt =====
-- `std::map` with numbers as keys, as an association list.
use Prim.Native.Nat.{ℕ}
use mathlib.Core.Path.{◌≡◌, refl}
use mathlib.Core.Bool.{false}
use mathlib.Core.List.{List, [], ◌∷◌}
use mathlib.Core.Logic.{inl, inr}
use mathlib.Core.Option.{Option, none, some}
use native.Mathlib.Omega.{arith}
use jsonrpc_tcp_srv.Prelude.Tests.{◌==◌, if◌then◌else◌, Bool-cases}

abbrev pub Map {ℓ} : Type ℓ → Type ℓ
Map V = List (ℕ × V)

module _ {ℓ} {V : Type ℓ} where
  abbrev pub lookup : ℕ → Map V → Option V
  lookup k [] = none
  lookup k ((j, v) ∷ m) = if k == j then some v else lookup k m

  -- `m[k] = v`.
  abbrev pub insert : ℕ → V → Map V → Map V
  insert k v [] = (k, v) ∷ []
  insert k v ((j, w) ∷ m) = if k == j then (k, v) ∷ m else (j, w) ∷ insert k v m

  abbrev pub erase : ℕ → Map V → Map V
  erase k [] = []
  erase k ((j, v) ∷ m) = if k == j then erase k m else (j, v) ∷ erase k m

  pub lookup-insert : (k : ℕ) (v : V) (m : Map V) → lookup k (insert k v m) ≡ some v
  lookup-insert k v [] = ground arith
  lookup-insert k v ((j, w) ∷ m) = ground (arith, lookup-insert k v m)

  pub lookup-insert_other :
      (i k : ℕ) (v : V) (m : Map V) → (i == k) ≡ false → lookup i (insert k v m) ≡ lookup i m
  lookup-insert_other i k v [] h = ground arith
  lookup-insert_other i k v ((j, w) ∷ m) h = elim (Bool-cases (k == j)) [
    | inl e ↦ ground arith
    | inr e ↦ elim (Bool-cases (i == j)) [
      | inl d ↦ ground arith
      | inr d ↦ ground (arith, lookup-insert_other i k v m h)
    ]
  ]

  pub lookup-erase : (k : ℕ) (m : Map V) → lookup k (erase k m) ≡ none
  lookup-erase k [] = refl
  lookup-erase k ((j, w) ∷ m) = elim (Bool-cases (k == j)) [
    | inl e ↦ ground (arith, lookup-erase k m)
    | inr e ↦ ground (arith, lookup-erase k m)
  ]

  pub lookup-erase_other :
      (i k : ℕ) (m : Map V) → (i == k) ≡ false → lookup i (erase k m) ≡ lookup i m
  lookup-erase_other i k [] h = refl
  lookup-erase_other i k ((j, w) ∷ m) h = elim (Bool-cases (k == j)) [
    | inl e ↦ ground (arith, lookup-erase_other i k m h)
    | inr e ↦ elim (Bool-cases (i == j)) [
      | inl d ↦ ground arith
      | inr d ↦ ground (arith, lookup-erase_other i k m h)
    ]
  ]
