-- ===== src/RpcResult/Strings.antt =====
-- The strings that ADCmnStringProcessor gives to results and enumerators, read back.
use Prim.Native.String.{String}
use text.Mathlib.Text.{◌==◌ as str_eq}
use text.Mathlib.TextEquality.{eq_iff}
use jsonrpc_tcp_srv.Prelude.{
  ℕ, zero, suc, ◌+◌, ◌≤◌, ◌<◌, List, [], ◌∷◌, some, get_elem?, ◌≡◌, ap, ◌∙◌, arith, false, length,
  ltb, Bool-cases, inl, inr, ◌≢◌,
}
use jsonrpc_tcp_srv.RpcResult.{string_to_enum, enum_from}

-- What the loop of `string_to_enum` finds from `index` on.
record Found (string : String) (max index : ℕ) (table : List String) (r : ℕ) : Type 0 where
  offset : ℕ
  at : r ≡ index + offset
  bound : r ≤ max
  hit : r < max → get_elem? table offset ≡ some string
  misses : (i : ℕ) → i < offset → get_elem? table i ≢ some string

Found-cons :
    (string : String) (max index : ℕ) (s : String) (ss : List String) (r : ℕ)
    → str_eq s string ≡ false
    → Found string max (index + 1) ss r
    → Found string max index (s ∷ ss) r
Found-cons string max index s ss r q f = record {
  offset = suc f.offset;
  at = omega (arith, f.at);
  bound = f.bound;
  hit = f.hit;
  misses = misses;
}
  where
    misses : (i : ℕ) → i < suc f.offset → get_elem? (s ∷ ss) i ≢ some string
    misses zero l e = ground (arith, eq_iff s string)
    misses (suc i) l e = f.misses i (omega arith) e

enum_from-Found :
    (string : String) (max index : ℕ) (table : List String)
    → index ≤ max
    → max ≤ index + length table
    → Found string max index table (enum_from string max index table)
unfolding enum_from
enum_from-Found string max index [] h k = record {
  offset = 0;
  at = omega arith;
  bound = omega arith;
  hit = λ l. absurd (omega arith);
  misses = λ i l. absurd (omega arith);
}
enum_from-Found string max index (s ∷ ss) h k = elim (Bool-cases (ltb index max)) [
  | inr e ↦ record {
    offset = 0;
    at = ground arith;
    bound = ground arith;
    hit = λ l. absurd (ground arith);
    misses = λ i l. absurd (omega arith);
  }
  | inl e ↦ elim (Bool-cases (str_eq s string)) [
    | inl q ↦ record {
      offset = 0;
      at = ground arith;
      bound = ground arith;
      hit = λ l. ground (arith, eq_iff s string);
      misses = λ i l. absurd (omega arith);
    }
    | inr q ↦
        let rest = enum_from-Found string max (index + 1) ss (ground arith) (omega arith) in
        rw (e, q) (Found-cons string max index s ss _ q rest)
  ]
]

-- `string_to_enum` gives the first index below the maximum at which the table holds the string, and
-- the maximum if there is none. The table has at least that many entries.
pub string_to_enum_first :
    (table : List String) (string : String) (max : ℕ)
    → max ≤ length table
    → let r = string_to_enum table string max in
      (r ≤ max)
      × (r < max → get_elem? table r ≡ some string)
      × ((i : ℕ) → i < r → get_elem? table i ≢ some string)
unfolding string_to_enum
string_to_enum_first table string max h =
    let f = enum_from-Found string max 0 table (omega arith) (omega arith) in
    let same : enum_from string max 0 table ≡ f.offset = omega (arith, f.at) in
    (f.bound, λ l. ap (get_elem? table) same ∙ f.hit l, λ i l. f.misses i (omega (arith, same)))
