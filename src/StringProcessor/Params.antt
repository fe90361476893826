-- ===== src/StringProcessor/Params.antt =====
-- lib/lib-jsonrpc-tcp/src/ADCmnStringProcessor.cpp: what `find_single_param` writes into its buffer.
use Prim.Native.String.{String}
use jsonrpc_tcp_srv.Prelude.{
  ℕ, zero, suc, ◌-◌, ◌<◌, ◌==◌, Option, none, some, true, false, leb, if◌then◌else◌, ◌≡◌, refl, ap,
  arith, ◌⊎◌, inl, inr, Bool-cases, Option-cases,
}
use jsonrpc_tcp_srv.Framer.{Bytes}
use jsonrpc_tcp_srv.StringProcessor.{
  JsonParams, strlen, first_bytes, copied, find_single_param, param_of, text_of,
}

strlen-first_bytes :
    (n : ℕ) (s : String) → strlen (first_bytes n s) ≡ (if leb (strlen s) n then strlen s else n)
unfolding strlen first_bytes
strlen-first_bytes zero String.[] = refl
strlen-first_bytes zero (String.◌∷◌ c s) = ground arith
strlen-first_bytes (suc n) String.[] = ground arith
strlen-first_bytes (suc n) (String.◌∷◌ c s) = ground (arith, strlen-first_bytes n s)

first_bytes-all : (s : String) → first_bytes (strlen s) s ≡ s
unfolding strlen first_bytes
first_bytes-all String.[] = refl
first_bytes-all (String.◌∷◌ c s) = ap (String.◌∷◌ c) (first_bytes-all s)

-- The copy fits with its terminator, and is the whole text if that does.
copied_lem :
    (value_size : ℕ) (src : String)
    → (value_size == 0) ≡ false
    → (strlen (copied value_size src) < value_size)
      × ((leb value_size (strlen src) ≡ true) ⊎ (copied value_size src ≡ src))
unfolding copied
copied_lem value_size src h = elim (Bool-cases (leb value_size (strlen src))) [
  | inl e ↦ (ground (arith, strlen-first_bytes (value_size - 1) src), inl e)
  | inr e ↦ (
    ground (arith, strlen-first_bytes (strlen src) src),
    inr (ground (arith, first_bytes-all src)),
  )
]

module _ {J : Type 0} (json : JsonParams J) where
  param_of-copied :
      (o : Option J) (param_name : String) (value_size : ℕ) (v : String)
      → param_of json o param_name value_size ≡ some v
      → (src : String) × (copied value_size src ≡ v)
  unfolding param_of
  param_of-copied none param_name value_size v h = absurd (cc)
  param_of-copied (some params) param_name value_size v h =
      elim (Option-cases (json.get_string params)) [
        | inl e ↦ absurd (ground arith)
        | inr (a, e) ↦ elim (Option-cases (text_of json (json.object_get params param_name))) [
          | inl f ↦ absurd (ground arith)
          | inr (src, f) ↦ (src, ground arith)
        ]
      ]

  -- A value that is found is a copy of a text, and fits with its terminator into a buffer of that
  -- size; without a buffer nothing is found.
  find_single_param-fits :
      (json_string : Bytes) (param_name : String) (value_size : ℕ) (v : String)
      → find_single_param json json_string param_name value_size ≡ some v
      → (src : String) × (copied value_size src ≡ v) × (strlen v < value_size)
  unfolding find_single_param
  find_single_param-fits json_string param_name value_size v h =
      elim (Bool-cases (value_size == 0)) [
        | inl z ↦ absurd (ground arith)
        | inr z ↦ elim (Option-cases (json.tokener_parse json_string)) [
          | inl e ↦ absurd (ground arith)
          | inr (obj, e) ↦
              let (src, is) =
                param_of-copied (json.object_get obj "params") param_name value_size v
                  (ground arith) in
              (src, is, ground (arith, (copied_lem value_size src z).0, is))
        ]
      ]
