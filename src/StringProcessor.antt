-- ===== src/StringProcessor.antt =====
-- lib/lib-jsonrpc-tcp/src/ADCmnStringProcessor.cpp find_single_param, and the conversions of its
-- result: `atoi` and `sscanf("%lu")` of the C library, as JSON_STRING_TO_INT and JSON_STRING_TO_ULONG
-- of include/ADCommon.hpp use them. A C string is a String whose characters are its bytes. An
-- unsigned long has 32 bits, as on the target boards. json-c is the parameter `JsonParams`.
pub mod Params
pub mod Numbers
use Prim.Native.Char.{code}
use Prim.Native.String.{String}
use jsonrpc_tcp_srv.Prelude.{
  ℕ, zero, suc, ◌+◌, ◌-◌, ◌*◌, ◌%◌, Bool, true, false, ◌&&◌, ◌||◌, Option, none, some, leb, ltb,
  ◌==◌, if◌then◌else◌, ℤ, pos, negsuc,
}
use jsonrpc_tcp_srv.Framer.{Bytes}

-- `tokener_parse` is json_tokener_parse, `object_get` json_object_object_get, which is none also for
-- a JSON null and for what is no object, `get_string` json_object_get_string.
pub record JsonParams (J : Type 0) : Type 0 where
  pub tokener_parse : Bytes → Option J
  pub object_get : J → String → Option J
  pub get_string : J → Option String

-- `strlen`.
unfoldable pub strlen : String → ℕ
strlen String.[] = 0
strlen (String.◌∷◌ c s) = suc (strlen s)

-- The first `n` bytes, as `memcpy` copies them.
unfoldable pub first_bytes : ℕ → String → String
first_bytes zero s = String.[]
first_bytes (suc n) String.[] = String.[]
first_bytes (suc n) (String.◌∷◌ c s) = String.◌∷◌ c (first_bytes n s)

-- The copy of the value into a buffer of `value_size` bytes.
unfoldable pub copied : ℕ → String → String
unfolding strlen first_bytes
copied value_size src =
    if leb value_size (strlen src)
    then first_bytes (value_size - 1) src
    else first_bytes (strlen src) src

module _ {J : Type 0} (json : JsonParams J) where
  -- `json_object_get_string` of a member; a NULL member has none.
  abbrev pub text_of : Option J → Option String
  text_of none = none
  text_of (some j) = json.get_string j

  -- The member's text, once the "params" are there.
  pub param_of : Option J → String → ℕ → Option String
  unfolding copied
  param_of none param_name value_size = none
  param_of (some params) param_name value_size = elim (json.get_string params) [
    | none ↦ none
    | some _ ↦ elim (text_of (json.object_get params param_name)) [
      | none ↦ none
      | some src ↦ some (copied value_size src)
    ]
  ]

  -- The result is `value`, or none for the return code -1.
  unfoldable pub find_single_param : Bytes → String → ℕ → Option String
  unfolding param_of
  find_single_param json_string param_name value_size =
      if value_size == 0 then none else elim (json.tokener_parse json_string) [
        | none ↦ none
        | some obj ↦ param_of (json.object_get obj "params") param_name value_size
      ]

-- `isspace` in the C locale.
unfoldable pub is_space : ℕ → Bool
is_space c = (c == 32) || (leb 9 c && leb c 13)

pub is_digit : ℕ → Bool
is_digit c = leb b'0' c && leb c b'9'

-- The value that the digits at the front spell, behind `n`.
pub digits_from : ℕ → String → ℕ
unfolding is_digit
digits_from n String.[] = n
digits_from n (String.◌∷◌ c s) =
    let rest = digits_from (n * 10 + (code c - b'0')) s in if is_digit (code c) then rest else n

abbrev minus : ℕ → ℤ
minus zero = pos 0
minus (suc n) = negsuc n

-- The sign, if any, and the digits.
pub signed : String → ℤ
unfolding digits_from
signed String.[] = pos 0
signed (String.◌∷◌ c s) =
    if code c == b'-'
    then minus (digits_from 0 s)
    else if code c == b'+'
    then pos (digits_from 0 s)
    else pos (digits_from 0 (String.◌∷◌ c s))

pub skip_space : String → String
unfolding is_space
skip_space String.[] = String.[]
skip_space (String.◌∷◌ c s) =
    let rest = skip_space s in if is_space (code c) then rest else String.◌∷◌ c s

-- `atoi`; values beyond an int are undefined there, and are the number itself here.
pub atoi : String → ℤ
unfolding signed skip_space
atoi s = signed (skip_space s)

abbrev pub ulong_mod : ℕ
ulong_mod = 4294967296

-- `strtoul`'s result: it stops at the largest value, and a minus sign negates it.
pub ulong_of : Bool → ℕ → ℕ
ulong_of negative n =
    if leb ulong_mod n then ulong_mod - 1 else if negative then (ulong_mod - n) % ulong_mod else n

pub starts_digit : String → Bool
unfolding is_digit
starts_digit String.[] = false
starts_digit (String.◌∷◌ c s) = is_digit (code c)

pub scan_digits : ℕ → Bool → String → ℕ
unfolding starts_digit ulong_of digits_from
scan_digits tmp negative s = if starts_digit s then ulong_of negative (digits_from 0 s) else tmp

pub scan_signed : ℕ → String → ℕ
unfolding scan_digits
scan_signed tmp String.[] = tmp
scan_signed tmp (String.◌∷◌ c s) =
    if code c == b'-'
    then scan_digits tmp true s
    else if code c == b'+'
    then scan_digits tmp false s
    else scan_digits tmp false (String.◌∷◌ c s)

-- `sscanf(s, "%lu", &tmp)`: the new value of `tmp`, which stays when there is no number.
pub sscanf_lu : ℕ → String → ℕ
unfolding scan_signed skip_space
sscanf_lu tmp s = scan_signed tmp (skip_space s)
