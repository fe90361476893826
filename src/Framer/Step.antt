-- ===== src/Framer/Step.antt =====
-- One round of the loop of ADJsonStreamFramer::feed, against the specification.
use jsonrpc_tcp_srv.Prelude.{
  ℕ, suc, ◌+◌, ◌-◌, ◌<◌, true, false, [], ◌∷◌, ◌++◌, ltb, ◌==◌, Bool-cases, length, take, drop,
  length-append, drop-append, append_assoc, ◌≡◌, refl, sym, ap, ◌∙◌, inl, inr, arith,
}
use jsonrpc_tcp_srv.Framer.Spec.{View, read_byte, fail}
use jsonrpc_tcp_srv.Framer.{
  Bytes, Framer, is_separator, is_open, is_close, scan_byte, scan_inside, scan_outside, scan_string,
  scan_close, advance,
}

abbrev pub at_view : Framer → Bytes → View
at_view f partial = record {
  partial = partial;
  ready = f.ready;
  depth = f.depth;
  in_string = f.in_string;
  escape = f.escape;
  error = f.error;
}

-- The loop at a byte: `pre` is done with, `partial` is the unfinished message, `rest` is unread.
pub record IsScanning (f : Framer) (consumed max_msg : ℕ) (pre partial rest : Bytes) : Type 0 where
  pub splits : f.buf ≡ pre ++ (partial ++ rest)
  pub scanned : f.scan ≡ length pre + length partial
  pub passed : consumed ≡ length pre
  pub outside : f.depth ≡ 0 → partial ≡ []
  pub inside : 0 < f.depth → f.start ≡ length pre
  pub limit : f.max_msg ≡ max_msg
  pub no_error : f.error ≡ false

take_snoc : (xs ys : Bytes) (c : ℕ) → take (length xs + 1) (xs ++ c ∷ ys) ≡ xs ++ c ∷ []
take_snoc [] ys c = refl
take_snoc (x ∷ xs) ys c = rw (suc_add (length xs)) (ap (◌∷◌ x) (take_snoc xs ys c))
  where
    suc_add : (n : ℕ) → suc n + 1 ≡ suc (n + 1)
    suc_add n = omega arith

-- The message that ends at this byte.
slice_lem :
    (pre partial rest : Bytes) (c scan start : ℕ)
    → scan ≡ length pre + length partial
    → start ≡ length pre
    → take (scan - start + 1) (drop start (pre ++ (partial ++ c ∷ rest))) ≡ partial ++ c ∷ []
slice_lem pre partial rest c scan start h k =
    rw (k, drop-append pre (partial ++ c ∷ rest), h, width (length pre) (length partial))
      (take_snoc partial rest c)
  where
    width : (a b : ℕ) → a + b - a ≡ b
    width a b = omega arith

-- What one round of the loop does, against the specification.
pub data Stepped (f : Framer) (consumed max_msg : ℕ) (partial rest : Bytes) (c : ℕ) : Type 0 where
  fails :
      scan_byte f consumed c ≡ (record f { error = true }, consumed)
      → read_byte max_msg (at_view f partial) c ≡ fail (at_view f partial)
      → Stepped f consumed max_msg partial rest c
  goes :
      (pre' partial' : Bytes) (g : Framer) (n : ℕ)
      → scan_byte f consumed c ≡ (g, n)
      → IsScanning (advance g) n max_msg pre' partial' rest
      → read_byte max_msg (at_view f partial) c ≡ at_view g partial'
      → Stepped f consumed max_msg partial rest c

-- The byte leaves the indices and the buffer alone.
record Keeps (f g : Framer) : Type 0 where
  buf : g.buf ≡ f.buf
  scan : g.scan ≡ f.scan
  start : g.start ≡ f.start
  limit : g.max_msg ≡ f.max_msg
  error : g.error ≡ f.error
  inside : 0 < g.depth

module _ (f : Framer) (consumed max_msg : ℕ) (pre partial rest : Bytes) (c : ℕ)
    (s : IsScanning f consumed max_msg pre partial (c ∷ rest)) where
  step_outside : f.depth ≡ 0 → Stepped f consumed max_msg partial rest c
  unfolding scan_byte scan_outside read_byte
  step_outside z = elim (Bool-cases (is_separator c)) [
    | inl e ↦
        goes (pre ++ c ∷ []) [] f (f.scan + 1) (ground arith)
          (record {
            splits = (rw (s.outside z) at (s.splits)) ∙ rw append_assoc;
            scanned = omega (arith, s.scanned, ap length (s.outside z), length-append pre (c ∷ []));
            passed = omega (arith, s.scanned, ap length (s.outside z), length-append pre (c ∷ []));
            outside = λ _. refl;
            inside = λ h. absurd (omega arith);
            limit = s.limit;
            no_error = s.no_error;
          })
          (ground (arith, s.outside z))
    | inr e ↦ elim (Bool-cases (is_open c)) [
      | inl o ↦
          goes pre (c ∷ [])
            (record f { start = f.scan; depth = 1; in_string = false; escape = false }) consumed
            (ground arith)
            (record {
              splits = rw (s.outside z) at (s.splits);
              scanned = omega (arith, s.scanned, ap length (s.outside z));
              passed = s.passed;
              outside = λ h. absurd (omega arith);
              inside = λ h. omega (arith, s.scanned, ap length (s.outside z));
              limit = s.limit;
              no_error = s.no_error;
            })
            (ground arith)
      | inr o ↦ fails (ground arith) (ground arith)
    ]
  ]

  -- The unfinished message takes the byte in.
  keeps :
      0 < f.depth
      → (g : Framer) → Keeps f g
      → scan_byte f consumed c ≡ (g, consumed)
      → read_byte max_msg (at_view f partial) c ≡ at_view g (partial ++ c ∷ [])
      → Stepped f consumed max_msg partial rest c
  keeps d g k e r =
      goes pre (partial ++ c ∷ []) g consumed e
        (record {
          splits = k.buf ∙ s.splits ∙ rw (append_assoc partial);
          scanned = omega (arith, s.scanned, k.scan, length-append partial (c ∷ []));
          passed = s.passed;
          outside = λ h. absurd (omega (arith, k.inside));
          inside = λ _. k.start ∙ s.inside d;
          limit = k.limit ∙ s.limit;
          no_error = k.error ∙ s.no_error;
        })
        r

  step_string :
      0 < f.depth
      → ltb max_msg (length partial + 1) ≡ false
      → f.in_string ≡ true
      → Stepped f consumed max_msg partial rest c
  unfolding scan_byte scan_inside scan_string read_byte
  step_string d e q =
      keeps d (scan_string f c) (ground arith) (ground (arith, s.inside d)) (ground arith)

  slice : 0 < f.depth → take (f.scan - f.start + 1) (drop f.start f.buf) ≡ partial ++ c ∷ []
  slice d =
      ap (λ b. take (f.scan - f.start + 1) (drop f.start b)) s.splits
      ∙ slice_lem pre partial rest c f.scan f.start s.scanned (s.inside d)

  ended : length (pre ++ (partial ++ c ∷ [])) ≡ f.scan + 1
  ended =
      omega
        (arith, s.scanned, length-append pre (partial ++ c ∷ []), length-append partial (c ∷ []))

  -- The bracket that ends the message.
  step_end :
      f.depth ≡ 1
      → ltb max_msg (length partial + 1) ≡ false
      → f.in_string ≡ false
      → (c == b'"') ≡ false
      → is_open c ≡ false
      → is_close c ≡ true
      → Stepped f consumed max_msg partial rest c
  unfolding scan_byte scan_inside scan_close read_byte
  step_end d e q n o k =
      goes (pre ++ (partial ++ c ∷ [])) []
        (record f { depth = 0; ready = f.ready ++ (partial ++ c ∷ []) ∷ [] }) (f.scan + 1)
        (ground (arith, s.inside (omega arith), slice (omega arith)))
        (record {
          splits = s.splits ∙ rw (append_assoc pre, append_assoc partial);
          scanned = omega (arith, ended);
          passed = sym ended;
          outside = λ _. refl;
          inside = λ h. absurd (omega arith);
          limit = s.limit;
          no_error = s.no_error;
        })
        (ground (arith, s.inside (omega arith)))

  step_plain :
      0 < f.depth
      → ltb max_msg (length partial + 1) ≡ false
      → f.in_string ≡ false
      → Stepped f consumed max_msg partial rest c
  unfolding scan_byte scan_inside scan_close read_byte
  step_plain d e q = elim (Bool-cases (c == b'"')) [
    | inl n ↦
        keeps d (record f { in_string = true }) (ground arith) (ground (arith, s.inside d))
          (ground arith)
    | inr n ↦ elim (Bool-cases (is_open c)) [
      | inl o ↦
          keeps d (record f { depth = f.depth + 1 }) (ground arith) (ground (arith, s.inside d))
            (ground arith)
      | inr o ↦ elim (Bool-cases (is_close c)) [
        | inl k ↦ elim (Bool-cases (f.depth == 1)) [
          | inl one ↦ step_end (ground arith) e q n o k
          | inr more ↦
              keeps d (record f { depth = f.depth - 1 }) (ground arith) (ground (arith, s.inside d))
                (ground arith)
        ]
        | inr k ↦ keeps d f (ground arith) (ground (arith, s.inside d)) (ground arith)
      ]
    ]
  ]

  step_inside : 0 < f.depth → Stepped f consumed max_msg partial rest c
  unfolding scan_byte scan_inside scan_string read_byte
  step_inside d = elim (Bool-cases (ltb max_msg (length partial + 1))) [
    | inl e ↦ fails (ground (arith, s.inside d)) (ground arith)
    | inr e ↦ elim (Bool-cases f.in_string) [ inl q ↦ step_string d e q | inr q ↦ step_plain d e q ]
  ]

  pub step : Stepped f consumed max_msg partial rest c
  step = elim (Bool-cases (f.depth == 0)) [
    | inl z ↦ step_outside (ground arith)
    | inr z ↦ step_inside (ground arith)
  ]
