-- ===== src/Rxbuf.antt =====
-- lib/rxbuf.c: the receive buffer, which grows and shrinks in steps of 1024 bytes.
-- `can_alloc n` says whether realloc() grants n bytes. A size_t holds the sums, which stay below
-- 2^33: a length is below 2^16 and an argument is an unsigned int.
pub mod Bounds
pub mod Append
mod Tests
use infod.Prelude.{
  ℕ, zero, suc, ◌+◌, ◌-◌, ◌%◌, Bool, true, false, not, Option, none, some, List, [], ◌∷◌, ◌++◌, ltb,
  leb, ◌==◌, if◌then◌else◌, length, take, drop, get_elem?,
}

-- `buf` holds the bytes written so far of the `max` that are allocated.
pub record Rxbuf : Type 0 where
  pub buf : List ℕ
  pub max : ℕ
  pub len : ℕ

-- A call that returns 0, one that returns -1, and a failed assert().
pub data Call : Type 0 where
  done failed : Rxbuf → Call
  aborted : Call

abbrev pub size_chunk : ℕ
size_chunk = 1024

-- The bytes that are in use.
abbrev pub active : Rxbuf → List ℕ
active rx = take rx.len rx.buf

-- rxbuf_init
abbrev pub empty : Rxbuf
empty = record { buf = []; max = 0; len = 0 }

unfoldable pub roundup : ℕ → ℕ → ℕ
roundup n align = if n % align == 0 then n else n + (align - n % align)

-- Bytes written at an offset; a shorter buffer is first filled up to there.
abbrev pub write_at : ℕ → List ℕ → List ℕ → List ℕ
write_at i p buf = take i buf ++ (p ++ drop (i + length p) buf)

abbrev pub on_done : Call → (Rxbuf → Call) → Call
on_done (done rx) k = k rx
on_done (failed rx) k = failed rx
on_done aborted k = aborted

module _ (can_alloc : ℕ → Bool) where
  -- The assertion, the hysteresis and the call of realloc(), with the rounded size.
  unfoldable pub resize_to : Rxbuf → ℕ → Call
  resize_to rx size =
      if ltb size rx.len
      then aborted
      else if rx.max == size
      then done rx
      else if can_alloc size
      then done (record rx { buf = take size rx.buf; max = size })
      else failed rx

  unfoldable pub resize : Rxbuf → ℕ → Call
  resize rx n = if leb 0x10000 n then failed rx else resize_to rx (roundup n size_chunk)

  -- `rx->buf[rx->len++] = ch`
  pub store_byte : ℕ → Rxbuf → Call
  store_byte ch rx = done (record rx { buf = write_at rx.len (ch ∷ []) rx.buf; len = rx.len + 1 })

  unfoldable pub addc : Rxbuf → ℕ → Call
  unfolding store_byte
  addc rx ch =
      if leb rx.max rx.len
      then on_done (resize rx (rx.len + 1)) (store_byte ch)
      else store_byte ch rx

  pub store_bytes : List ℕ → Rxbuf → Call
  store_bytes p rx = done (record rx { buf = write_at rx.len p rx.buf; len = rx.len + length p })

  unfoldable pub add : Rxbuf → List ℕ → Call
  unfolding store_bytes
  add rx p = on_done (resize rx (rx.len + length p)) (store_bytes p)

  unfoldable pub clear : Rxbuf → ℕ → Call
  clear rx n = resize (record rx { len = 0 }) n

  unfoldable pub zeropad : Rxbuf → Call
  zeropad rx = on_done (add rx (0 ∷ [])) (λ r. done (record r { len = r.len - 1 }))

-- The length without the spaces at the end.
unfoldable pub trimmed : List ℕ → ℕ → ℕ
trimmed buf zero = 0
trimmed buf (suc n) =
    let shorter = trimmed buf n in
    elim (get_elem? buf n) [ none ↦ suc n | some c ↦ if c == b' ' then shorter else suc n ]

unfoldable pub trimspace : Rxbuf → Rxbuf
unfolding trimmed
trimspace rx = record rx { len = trimmed rx.buf rx.len }
