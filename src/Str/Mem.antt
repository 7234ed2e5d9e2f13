-- ===== src/Str/Mem.antt =====
-- The block operations of src/string/string.c (`memset`, `memcmp`, `memchr`, `memcpy`, `memmove`) over
-- byte-addressed memory. Both writing operations go in 32-bit words first, then in single bytes.
pub mod Laws
use avocad_os.Base.{
  ℕ, zero, suc, ◌+◌, ◌*◌, ◌/◌, ◌%◌, ◌^◌, bit_or, Bool, true, false, Option, none, some, ltb, ◌==◌,
  if◌then◌else◌,
}
use avocad_os.Base.Memory.{Memory, write}

-- `uint32_t`: the shift drops what leaves the word.
unfoldable pub shl : ℕ → ℕ → ℕ
shl x k = x * 2 ^ k % 2 ^ 32

-- A `char` is signed: as an operand of a shift it is extended to 32 bits with its sign.
unfoldable pub sign_extend : ℕ → ℕ
sign_extend b = if ltb b 128 then b else b + 0xFFFFFF00

-- `byte << 24 | byte << 16 | byte << 8 | byte`
unfoldable pub dword_value : ℕ → ℕ
unfolding shl sign_extend
dword_value c =
    let byte = sign_extend (c % 256) in
    bit_or (bit_or (bit_or (shl byte 24) (shl byte 16)) (shl byte 8)) byte

-- Four bytes at `p`, the lowest first.
unfoldable pub store_bytes : Memory → ℕ → ℕ → ℕ → ℕ → ℕ → Memory
store_bytes m p b0 b1 b2 b3 = write (write (write (write m p b0) (p + 1) b1) (p + 2) b2) (p + 3) b3

-- A store of the 32-bit word `v`, which is little-endian.
unfoldable pub store_dword : Memory → ℕ → ℕ → Memory
unfolding store_bytes
store_dword m p v = store_bytes m p (v % 256) (v / 256 % 256) (v / 65536 % 256) (v / 16777216 % 256)

-- The first loop of `memset`, `k` words from `p` on.
unfoldable pub set_dwords : ℕ → Memory → ℕ → ℕ → Memory
set_dwords zero m p v = m
set_dwords (suc k) m p v = set_dwords k (store_dword m p v) (p + 4) v

-- Its second loop, `k` bytes.
unfoldable pub set_bytes : ℕ → Memory → ℕ → ℕ → Memory
set_bytes zero m p b = m
set_bytes (suc k) m p b = set_bytes k (write m p b) (p + 1) b

unfoldable pub memset : Memory → ℕ → ℕ → ℕ → Memory
unfolding set_dwords set_bytes store_dword dword_value
memset m s c n =
    set_bytes (n % 4) (set_dwords (n / 4) m s (dword_value c)) (s + n / 4 * 4) (c % 256)

-- A word is read whole before it is written.
unfoldable pub copy_dword : Memory → ℕ → ℕ → Memory
unfolding store_bytes
copy_dword m dest source =
    store_bytes m dest (m source) (m (source + 1)) (m (source + 2)) (m (source + 3))

unfoldable pub copy_dwords : ℕ → Memory → ℕ → ℕ → Memory
copy_dwords zero m dest source = m
copy_dwords (suc k) m dest source = copy_dwords k (copy_dword m dest source) (dest + 4) (source + 4)

unfoldable pub copy_bytes : ℕ → Memory → ℕ → ℕ → Memory
copy_bytes zero m dest source = m
copy_bytes (suc k) m dest source = copy_bytes k (write m dest (m source)) (dest + 1) (source + 1)

unfoldable pub memcpy : Memory → ℕ → ℕ → ℕ → Memory
unfolding copy_dwords copy_bytes copy_dword
memcpy m dest source n =
    copy_bytes (n % 4) (copy_dwords (n / 4) m dest source) (dest + n / 4 * 4) (source + n / 4 * 4)

-- `memmove` through the block `buf` that `kzalloc` returned, cleared, or 0 for NULL: the memory, and the
-- destination or NULL. What `kfree` does to the block that it is given is not followed.
unfoldable pub memmove : Memory → (buf : ℕ) → (dest source n : ℕ) → Memory × ℕ
memmove m buf dest source n = elim (buf == 0) [
  | true ↦ (m, 0)
  | false ↦ (memcpy (memcpy (memset m buf 0 n) buf source n) dest buf n, dest)
]

-- `memcmp` says only whether the two blocks differ: it returns 0 or 1.
unfoldable pub memcmp : Memory → ℕ → ℕ → ℕ → ℕ
memcmp m s1 s2 zero = 0
memcmp m s1 s2 (suc n) = elim (m s1 == m s2) [ true ↦ memcmp m (s1 + 1) (s2 + 1) n | false ↦ 1 ]

-- The address of the first byte equal to `c`, a character below 128; `none` is NULL.
unfoldable pub memchr : Memory → ℕ → ℕ → ℕ → Option ℕ
memchr m s c zero = none
memchr m s c (suc n) = elim (c == m s) [ true ↦ some s | false ↦ memchr m (s + 1) c n ]
