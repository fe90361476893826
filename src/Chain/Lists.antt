-- ===== src/Chain/Lists.antt =====
-- The list lemmas that the chain's operations rest on.
use jsonrpc_tcp_srv.Prelude.{
  ◌+◌, Bool, List, [], ◌∷◌, some, if◌then◌else◌, length, find_first, remove_first, update_first,
  count, ◌≡◌, none, refl, arith,
}

module _ {ℓ} {A : Type ℓ} where
  pub length-remove_first :
      (q : A → Bool) (xs : List A) (a : A)
      → find_first q xs ≡ some a
      → length (remove_first q xs) + 1 ≡ length xs
  length-remove_first q [] a e = cc
  length-remove_first q (x ∷ xs) a e = ground (arith, length-remove_first q xs a)

  -- The element that is found is the one that leaves.
  pub count-remove_first :
      (p q : A → Bool) (xs : List A) (a : A)
      → find_first q xs ≡ some a
      → count p (remove_first q xs) + (if p a then 1 else 0) ≡ count p xs
  count-remove_first p q [] a e = cc
  count-remove_first p q (x ∷ xs) a e = ground (arith, count-remove_first p q xs a)

  pub remove_first-none :
      (q : A → Bool) (xs : List A) → find_first q xs ≡ none → remove_first q xs ≡ xs
  remove_first-none q [] e = refl
  remove_first-none q (x ∷ xs) e = ground (arith, remove_first-none q xs)

  pub length-update_first :
      (q : A → Bool) (f : A → A) (xs : List A) → length (update_first q f xs) ≡ length xs
  length-update_first q f [] = refl
  length-update_first q f (x ∷ xs) = ground (arith, length-update_first q f xs)
