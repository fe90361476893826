-- ===== src/NetServer/Deadline.antt =====
-- `send_with_deadline` of ADNetServer against what the socket took.
use jsonrpc_tcp_srv.Prelude.{
  ◌⊎◌, ℕ, zero, suc, ◌+◌, ◌-◌, ◌≤◌, Bool, true, false, List, [], ◌∷◌, ◌++◌, Option, none, some, leb,
  if◌then◌else◌, take, drop, ◌≡◌, ◌≢◌, refl, ap, subst, ◌∙◌, arith, Bool-cases, Option-cases, inl,
  inr, append_assoc,
}
use jsonrpc_tcp_srv.Framer.{Bytes}
use jsonrpc_tcp_srv.NetServer.Sending.{
  SendResult, took, interrupted, failed, full, SendCode, sent_all, error, timed_out, send_loop,
  send_with_deadline, send_timeout_ms,
}

-- `late deadline rs`: `send` found the socket full at or after the deadline.
unfoldable pub late : ℕ → List SendResult → Bool
late deadline [] = false
late deadline (full now poll ∷ rs) = if leb deadline now then true else late deadline rs
late deadline (_ ∷ rs) = late deadline rs

-- What went out is the start of the buffer; all of it after the code for success, and after a
-- time-out the deadline had passed.
pub record IsSent (deadline : ℕ) (buf : Bytes) (rs : List SendResult) (code : SendCode)
    (out : Bytes) : Type 0 where
  pub rest : Bytes
  pub start : out ++ rest ≡ buf
  pub complete : (code ≢ sent_all) ⊎ (rest ≡ [])
  pub timeout : (code ≢ timed_out) ⊎ (late deadline rs ≡ true)

take-drop {ℓ} : {A : Type ℓ} (n : ℕ) (xs : List A) → take n xs ++ drop n xs ≡ xs
take-drop zero xs = refl
take-drop (suc n) [] = refl
take-drop (suc n) (x ∷ xs) = ap (◌∷◌ x) (take-drop n xs)

-- The first `n` bytes went out before the rest.
took-IsSent :
    (deadline n : ℕ) (buf : Bytes) (rs : List SendResult) (code : SendCode) (out : Bytes)
    → IsSent deadline (drop n buf) rs code out
    → IsSent deadline buf (took n ∷ rs) code (take n buf ++ out)
unfolding late
took-IsSent deadline n buf rs code out h = record {
  rest = h.rest;
  start =
      append_assoc (take n buf) out h.rest ∙ ap (λ l. take n buf ++ l) h.start ∙ take-drop n buf;
  complete = h.complete;
  timeout = h.timeout;
}

-- Either the loop has not returned, or what it says is so.
abbrev pub IsSentResult : ℕ → Bytes → List SendResult → Option (SendCode × Bytes) → Type 0
IsSentResult deadline buf rs none = Unit {0}
IsSentResult deadline buf rs (some (code, out)) = IsSent deadline buf rs code out

-- A result that moves nothing and is not late changes nothing.
again :
    (deadline : ℕ) (buf : Bytes) (rs : List SendResult) (r : SendResult)
    → late deadline (r ∷ rs) ≡ late deadline rs
    → (o : Option (SendCode × Bytes)) → IsSentResult deadline buf rs o
    → IsSentResult deadline buf (r ∷ rs) o
again deadline buf rs r e none h = tt
again deadline buf rs r e (some (code, out)) h = record {
  rest = h.rest;
  start = h.start;
  complete = h.complete;
  timeout = elim h.timeout [ inl a ↦ inl a | inr a ↦ inr (e ∙ a) ];
}

-- Nothing more went out.
ended :
    (deadline : ℕ) (buf : Bytes) (rs : List SendResult) (code : SendCode)
    → code ≢ sent_all
    → ((code ≢ timed_out) ⊎ (late deadline rs ≡ true))
    → IsSent deadline buf rs code []
ended deadline buf rs code not_all timeout = record {
  rest = buf;
  start = refl;
  complete = inl not_all;
  timeout = timeout;
}

send_loop-IsSent :
    (rs : List SendResult) (deadline : ℕ) (buf : Bytes)
    → IsSentResult deadline buf rs (send_loop deadline buf rs).1
unfolding send_loop late
send_loop-IsSent rs deadline [] = record {
  rest = [];
  start = refl;
  complete = inr refl;
  timeout = inl (λ e. ground arith);
}
send_loop-IsSent [] deadline (b ∷ bs) = tt
send_loop-IsSent (took n ∷ rs) deadline (b ∷ bs) =
    let rest = send_loop-IsSent rs deadline (drop n (b ∷ bs)) in
    elim (Option-cases (send_loop deadline (drop n (b ∷ bs)) rs).1) [
      | inl f ↦
          let is : none ≡ (send_loop deadline (b ∷ bs) (took n ∷ rs)).1 = ground arith in
          subst (IsSentResult deadline (b ∷ bs) (took n ∷ rs)) is tt
      | inr ((code, out), f) ↦
          let is : some (code, take n (b ∷ bs) ++ out)
              ≡ (send_loop deadline (b ∷ bs) (took n ∷ rs)).1 =
            ground arith in
          subst (IsSentResult deadline (b ∷ bs) (took n ∷ rs)) is (
            took-IsSent deadline n (b ∷ bs) rs code out
              (subst (IsSentResult deadline (drop n (b ∷ bs)) rs) f rest))
    ]
send_loop-IsSent (interrupted ∷ rs) deadline (b ∷ bs) =
    again deadline (b ∷ bs) rs interrupted refl (send_loop deadline (b ∷ bs) rs).1
      (send_loop-IsSent rs deadline (b ∷ bs))
send_loop-IsSent (failed ∷ rs) deadline (b ∷ bs) =
    ended deadline (b ∷ bs) (failed ∷ rs) error (λ e. ground arith) (inl (λ e. ground arith))
send_loop-IsSent (full now poll ∷ rs) deadline (b ∷ bs) =
    let buf = b ∷ bs in
    let all = full now poll ∷ rs in
    elim (Bool-cases (leb deadline now)) [
      | inl l ↦
          let is : some (timed_out, []) ≡ (send_loop deadline buf all).1 = ground arith in
          subst (IsSentResult deadline buf all) is
            (ended deadline buf all timed_out (λ e. ground arith) (inr (ground arith)))
      | inr l ↦ elim (Bool-cases (poll (deadline - now)).0) [
        | inl p ↦
            let is : (send_loop deadline buf rs).1 ≡ (send_loop deadline buf all).1 =
              ground arith in
            subst (IsSentResult deadline buf all) is (
              again deadline buf rs (full now poll) (ground arith) (send_loop deadline buf rs).1
                (send_loop-IsSent rs deadline buf))
        | inr p ↦
            let is : some (error, []) ≡ (send_loop deadline buf all).1 = ground arith in
            subst (IsSentResult deadline buf all) is
              (ended deadline buf all error (λ e. ground arith) (inl (λ e. ground arith)))
      ]
    ]

-- Whatever `send`, the clock and `poll` answer: when `send_with_deadline` returns, what went out is
-- the start of the buffer; it is the whole buffer if the code is the one for success, and if the
-- code is the one for a time-out, the socket was full a second or more after the start.
pub send_with_deadline-IsSent :
    (start : ℕ) (buf : Bytes) (rs : List SendResult)
    → IsSentResult (start + send_timeout_ms) buf rs (send_with_deadline start buf rs).1
unfolding send_with_deadline
send_with_deadline-IsSent start buf rs = send_loop-IsSent rs (start + send_timeout_ms) buf

-- What POSIX says of `poll` and of a monotonic clock: `poll` waits no longer than its timeout, and the clock
-- is read no earlier than `now`, and behind a wait for what is left until the deadline no earlier than its end.
unfoldable pub IsTimed : ℕ → ℕ → List SendResult → Type 0
IsTimed deadline now [] = Unit {0}
IsTimed deadline now (full read poll ∷ rs) =
    (now ≤ read)
    × ((timeout : ℕ) → (poll timeout).1 ≤ timeout)
    × IsTimed deadline (read + (poll (deadline - read)).1) rs
IsTimed deadline now (took _ ∷ rs) = IsTimed deadline now rs
IsTimed deadline now (interrupted ∷ rs) = IsTimed deadline now rs
IsTimed deadline now (failed ∷ rs) = IsTimed deadline now rs
