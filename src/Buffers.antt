-- ===== src/Buffers.antt =====
-- buffer.c: a circular buffer of three pointers. A pointer is its address, 0 for NULL.
mod Tests
pub mod Queue
use avocad_os.Base.{
  ℕ, ◌+◌, ◌-◌, ◌%◌, Bool, true, false, List, [], ◌∷◌, ◌==◌, if◌then◌else◌, get_or, set,
}

-- BUFFER_SIZE
abbrev pub buffer_size : ℕ
buffer_size = 3

-- `struct circular_buffer`: the next slot to write, the next one to read, and the count.
pub record CircularBuffer : Type 0 where
  pub buffer : List ℕ
  pub head : ℕ
  pub end : ℕ
  pub count : ℕ

unfoldable pub init : CircularBuffer
init = record { buffer = 0 ∷ 0 ∷ 0 ∷ []; head = 0; end = 0; count = 0 }

unfoldable pub full : CircularBuffer → Bool
full cb = cb.count == buffer_size

unfoldable pub empty : CircularBuffer → Bool
empty cb = cb.count == 0

-- The buffer and the result, 0 for a full buffer.
unfoldable pub push_back : CircularBuffer → ℕ → CircularBuffer × ℕ
push_back cb value = elim (full cb) [
  | true ↦ (cb, 0)
  | false ↦
      let cb = record cb { buffer = set cb.buffer cb.head value } in
      let cb = record cb { head = (cb.head + 1) % buffer_size } in
      (record cb { count = cb.count + 1 }, 1)
]

-- The buffer and the pointer taken, NULL for an empty buffer.
unfoldable pub pop_front : CircularBuffer → CircularBuffer × ℕ
pop_front cb = elim (empty cb) [
  | true ↦ (cb, 0)
  | false ↦
      let value = get_or cb.buffer cb.end 0 in
      let cb = record cb { end = (cb.end + 1) % buffer_size } in
      (record cb { count = cb.count - 1 }, value)
]
