-- ===== src/Framer.antt =====
-- lib/lib-jsonrpc-tcp ADJsonStreamFramer (.hpp, .cpp): the scanner that cuts a TCP byte stream
-- into top-level JSON messages. A byte is a number below 256; `buf[scan]`, `buf[scan + 1]`, ... are
-- the bytes of `drop scan buf`, which the loop walks. `start` never exceeds `scan`, so the
-- subtractions of the source do not wrap.
mod Step
mod Text
mod Passes
pub mod Spec
pub mod Refine
pub mod Bounds
pub mod RoundTrip
pub mod Errors
mod Tests
use jsonrpc_tcp_srv.Prelude.{
  ℕ, ◌+◌, ◌-◌, Bool, true, false, not, ◌&&◌, ◌||◌, List, [], ◌∷◌, ◌++◌, ltb, ◌==◌, if◌then◌else◌,
  length, take, drop, ℤ, pos, minus_one, Option, none, some,
}

abbrev pub Bytes : Type 0
Bytes = List ℕ

pub record Framer : Type 0 where
  pub buf : Bytes
  pub ready : List Bytes
  pub max_msg : ℕ
  pub scan : ℕ
  pub start : ℕ
  pub depth : ℕ
  pub in_string : Bool
  pub escape : Bool
  pub error : Bool

pub new_framer : ℕ → Framer
new_framer max_msg_size = record {
  buf = [];
  ready = [];
  max_msg = max_msg_size;
  scan = 0;
  start = 0;
  depth = 0;
  in_string = false;
  escape = false;
  error = false;
}

unfoldable pub reset : Framer → Framer
reset f = record f {
  buf = [];
  ready = [];
  scan = 0;
  start = 0;
  depth = 0;
  in_string = false;
  escape = false;
  error = false;
}

pub pending_bytes : Framer → ℕ
pending_bytes f = length f.buf

abbrev pub available : Framer → ℕ
available f = length f.ready

unfoldable pub next_of : Framer → List Bytes → Option Bytes × Framer
next_of f [] = (none, f)
next_of f (m ∷ ms) = (some m, record f { ready = ms })

unfoldable pub next : Framer → Option Bytes × Framer
unfolding next_of
next f = next_of f f.ready

unfoldable pub is_separator : ℕ → Bool
is_separator c = c == b' ' || c == b'\t' || c == b'\r' || c == b'\n' || c == 0 || c == b','

unfoldable pub is_open : ℕ → Bool
is_open c = c == b'{' || c == b'['

unfoldable pub is_close : ℕ → Bool
is_close c = c == b'}' || c == b']'

-- The loop body where `depth == 0`. The number is the local `consumed`.
scan_outside : Framer → ℕ → ℕ → Framer × ℕ
scan_outside f consumed c =
    if is_separator c
    then (f, f.scan + 1)
    else if not (is_open c)
    then (record f { error = true }, consumed)
    else (record f { start = f.scan; depth = 1; in_string = false; escape = false }, consumed)

-- The branch `if (in_string)`.
scan_string : Framer → ℕ → Framer
scan_string f c =
    if f.escape
    then record f { escape = false }
    else if c == b'\\'
    then record f { escape = true }
    else if c == b'"'
    then record f { in_string = false }
    else f

-- The branch of a closing bracket.
scan_close : Framer → ℕ → Framer × ℕ
scan_close f consumed =
    if f.depth - 1 == 0
    then (
      record f {
        depth = f.depth - 1;
        ready = f.ready ++ take (f.scan - f.start + 1) (drop f.start f.buf) ∷ [];
      },
      f.scan + 1,
    )
    else (record f { depth = f.depth - 1 }, consumed)

-- The loop body within a message.
scan_inside : Framer → ℕ → ℕ → Framer × ℕ
scan_inside f consumed c =
    if ltb f.max_msg (f.scan - f.start + 1)
    then (record f { error = true }, consumed)
    else if f.in_string
    then (scan_string f c, consumed)
    else if c == b'"'
    then (record f { in_string = true }, consumed)
    else if is_open c
    then (record f { depth = f.depth + 1 }, consumed)
    else if is_close c
    then scan_close f consumed
    else (f, consumed)

pub scan_byte : Framer → ℕ → ℕ → Framer × ℕ
scan_byte f consumed c =
    if f.depth == 0 then scan_outside f consumed c else scan_inside f consumed c

abbrev pub advance : Framer → Framer
advance f = record f { scan = f.scan + 1 }

-- The `for` loop: `break` on an error, else `scan++`.
scan_loop : Framer → ℕ → Bytes → Framer × ℕ
scan_loop f consumed [] = (f, consumed)
scan_loop f consumed (c ∷ cs) =
    let r = scan_byte f consumed c in
    let rest = scan_loop (advance r.0) r.1 cs in if r.0.error then r else rest

compact : Framer → ℕ → Framer
compact f consumed =
    if ltb 0 consumed
    then record f {
      buf = drop consumed f.buf;
      scan = f.scan - consumed;
      start = if ltb 0 f.depth then f.start - consumed else f.start;
    }
    else f

-- What follows the loop.
feed_end : Framer × ℕ → ℤ × Framer
feed_end (f, consumed) =
    if f.error
    then (minus_one, record f { buf = []; scan = 0; start = 0; depth = 0 })
    else let f' = compact f (if ltb 0 f.depth && ltb consumed f.start then f.start else consumed) in
      (pos (length f'.ready), f')

-- A NULL pointer or a length 0 feeds `[]`.
unfoldable pub feed : Framer → Bytes → ℤ × Framer
unfolding is_separator is_open is_close feed_end scan_loop scan_byte scan_inside scan_outside
    scan_string scan_close compact
feed f bytes =
    let g = record f { buf = f.buf ++ bytes } in
    let scanned = feed_end (scan_loop g 0 (drop g.scan g.buf)) in
    if f.error then (minus_one, f) else scanned
