-- ===== src/Framer/Refine.antt =====
-- ADJsonStreamFramer::feed reads the stream as the specification does, however it is cut.
use jsonrpc_tcp_srv.Prelude.{
  ℕ, ◌+◌, ◌<◌, true, false, [], ◌∷◌, ◌++◌, if◌then◌else◌, Bool-cases, length, drop, drop-append,
  append-nil, ℤ, pos, minus_one, ◌≡◌, refl, sym, ap, subst, ◌∙◌, inl, inr, arith,
}
use jsonrpc_tcp_srv.Framer.Spec.{View, view, read, fail, read-append, read-error}
use jsonrpc_tcp_srv.Framer.Step.{at_view, IsScanning, Stepped, step}
use jsonrpc_tcp_srv.Framer.{Bytes, Framer, new_framer, advance, scan_loop, compact, feed_end, feed}

-- A framer between two calls of `feed`: it holds the bytes of the unfinished message alone.
pub record IsResting (f : Framer) : Type 0 where
  pub scanned : f.scan ≡ length f.buf
  pub outside : f.depth ≡ 0 → f.buf ≡ []
  pub inside : 0 < f.depth → f.start ≡ 0
  pub after_error : f.error ≡ true → f.depth ≡ 0

-- What the loop comes to.
data Looped (r : Framer × ℕ) (max_msg : ℕ) (v : View) : Type 0 where
  gave_up :
      r.0.error ≡ true → r.0.max_msg ≡ max_msg → v ≡ fail (at_view r.0 []) → Looped r max_msg v
  done :
      (pre partial : Bytes)
      → IsScanning r.0 r.1 max_msg pre partial []
      → v ≡ at_view r.0 partial
      → Looped r max_msg v

loop :
    (f : Framer) (consumed max_msg : ℕ) (pre partial cs : Bytes)
    → IsScanning f consumed max_msg pre partial cs
    → Looped (scan_loop f consumed cs) max_msg (read max_msg (at_view f partial) cs)
unfolding scan_loop read
loop f consumed max_msg pre partial [] s = done pre partial s refl
loop f consumed max_msg pre partial (c ∷ cs) s = elim (step f consumed max_msg pre partial cs c s) [
  | Stepped.fails e r ↦
      rw (e, r, read-error max_msg (fail (at_view f partial)) cs refl) (gave_up refl s.limit refl)
  | Stepped.goes pre' partial' g n e t r ↦
      rw (e, r)
        (subst
          (λ b.
            Looped (if b then (g, n) else scan_loop (advance g) n cs) max_msg
              (read max_msg (at_view g partial') cs))
          (sym t.no_error) (loop (advance g) n max_msg pre' partial' cs t))
]

record Ends (r : ℤ × Framer) (max_msg : ℕ) (v : View) : Type 0 where
  view_eq : view r.1 ≡ v
  resting : IsResting r.1
  limit : r.1.max_msg ≡ max_msg
  returned : r.0 ≡ (if r.1.error then minus_one else pos (length r.1.ready))

module _ (r : Framer × ℕ) (max_msg : ℕ) (pre partial : Bytes)
    (s : IsScanning r.0 r.1 max_msg pre partial []) where
  -- What compaction keeps is the unfinished message.
  kept : drop r.1 r.0.buf ≡ partial
  kept =
      ap (drop r.1) (s.splits ∙ rw append-nil)
      ∙ ap (λ n. drop n (pre ++ partial)) s.passed
      ∙ drop-append pre partial

  kept_all : r.1 ≡ 0 → r.0.buf ≡ partial
  kept_all z = ap (λ n. drop n r.0.buf) (sym z) ∙ kept

  kept_at : r.0.scan ≡ r.1 + length partial
  kept_at = omega (arith, s.scanned, s.passed)

  finish-Ends : Ends (feed_end r) max_msg (at_view r.0 partial)
  unfolding feed_end compact
  finish-Ends = record {
    view_eq = ground (arith, kept, kept_all);
    resting = record {
      scanned = ground (arith, kept, kept_all, kept_at);
      outside = ground (arith, kept, kept_all, s.outside);
      inside = ground (arith, s.inside, s.passed);
      after_error = ground arith;
    };
    limit = ground (arith, s.limit);
    returned = ground (arith, s.no_error);
  }

feed_end-Ends :
    (r : Framer × ℕ) (max_msg : ℕ) (v : View) → Looped r max_msg v → Ends (feed_end r) max_msg v
unfolding feed_end compact
feed_end-Ends r max_msg v (gave_up e l h) = record {
  view_eq = ground arith;
  resting = ground arith;
  limit = ground arith;
  returned = ground arith;
}
feed_end-Ends r max_msg v (done pre partial s h) = rw h (finish-Ends r max_msg pre partial s)

-- What `feed` returns.
abbrev pub result_of : View → ℤ
result_of v = if v.error then minus_one else pos (length v.ready)

module _ (f : Framer) (bytes : Bytes) (h : IsResting f) where
  open_scan :
      f.error ≡ false → IsScanning (record f { buf = f.buf ++ bytes }) 0 f.max_msg [] f.buf bytes
  open_scan e = record {
    splits = refl;
    scanned = omega (arith, h.scanned);
    passed = refl;
    outside = h.outside;
    inside = h.inside;
    limit = refl;
    no_error = e;
  }

  pub feed_failed : f.error ≡ true → feed f bytes ≡ (minus_one, f)
  unfolding feed
  feed_failed e =
      ap
        (λ b.
          if b
          then (minus_one, f)
          else feed_end
              (scan_loop (record f { buf = f.buf ++ bytes }) 0 (drop f.scan (f.buf ++ bytes))))
        e

  feed_scanned :
      f.error ≡ false
      → feed f bytes ≡ feed_end (scan_loop (record f { buf = f.buf ++ bytes }) 0 bytes)
  unfolding feed
  feed_scanned e =
      ap
        (λ b.
          if b
          then (minus_one, f)
          else feed_end
              (scan_loop (record f { buf = f.buf ++ bytes }) 0 (drop f.scan (f.buf ++ bytes))))
        e
      ∙ ap
          (λ n.
            feed_end (scan_loop (record f { buf = f.buf ++ bytes }) 0 (drop n (f.buf ++ bytes))))
          h.scanned
      ∙ ap (λ cs. feed_end (scan_loop (record f { buf = f.buf ++ bytes }) 0 cs))
          (drop-append f.buf bytes)

  feed-Ends : Ends (feed f bytes) f.max_msg (read f.max_msg (view f) bytes)
  feed-Ends = elim (Bool-cases f.error) [
    | inl e ↦
        rw (feed_failed e, read-error f.max_msg (view f) bytes e)
          (record { view_eq = refl; resting = h; limit = refl; returned = ground arith })
    | inr e ↦ rw (feed_scanned e) (
        feed_end-Ends _ _ _
          (loop (record f { buf = f.buf ++ bytes }) 0 f.max_msg [] f.buf bytes (open_scan e)))
  ]

  -- A call of `feed` reads its bytes as the specification does. It returns -1 exactly on a stream
  -- that has been given up, and else the number of messages that wait.
  pub view-feed :
      (view (feed f bytes).1 ≡ read f.max_msg (view f) bytes)
      × ((feed f bytes).0 ≡ result_of (read f.max_msg (view f) bytes))
  view-feed = (feed-Ends.view_eq, feed-Ends.returned ∙ ap result_of feed-Ends.view_eq)

  pub feed-IsResting : IsResting (feed f bytes).1
  feed-IsResting = feed-Ends.resting

  pub max_msg-feed : (feed f bytes).1.max_msg ≡ f.max_msg
  max_msg-feed = feed-Ends.limit

-- However the stream is cut, the messages, the error, the unfinished rest and the last result are
-- those of one call with all the bytes.
pub feed-append :
    (f : Framer) (xs ys : Bytes)
    → IsResting f
    → (view (feed (feed f xs).1 ys).1 ≡ view (feed f (xs ++ ys)).1)
      × ((feed (feed f xs).1 ys).0 ≡ (feed f (xs ++ ys)).0)
feed-append f xs ys h =
    let one = view-feed f (xs ++ ys) h in
    let first = view-feed f xs h in
    let two = view-feed (feed f xs).1 ys (feed-IsResting f xs h) in
    let same =
      ap (λ m. read m (view (feed f xs).1) ys) (max_msg-feed f xs h)
      ∙ ap (λ v. read f.max_msg v ys) first.0
      ∙ sym (read-append f.max_msg (view f) xs ys) in
    (two.0 ∙ same ∙ sym one.0, two.1 ∙ ap result_of same ∙ sym one.1)

pub new_framer-IsResting : (m : ℕ) → IsResting (new_framer m)
unfolding new_framer
new_framer-IsResting m = ground arith
