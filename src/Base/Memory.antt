-- ===== src/Base/Memory.antt =====
-- Byte-addressed memory.
use Prim.Native.Nat.{ℕ, ◌+◌}
use mathlib.Core.Bool.{◌&&◌}
use avocad_os.Base.Tests.{ltb, leb, ◌==◌, if◌then◌else◌}

abbrev pub Memory : Type 0
Memory = ℕ → ℕ

abbrev pub write : Memory → ℕ → ℕ → Memory
write m p v a = if a == p then v else m a

-- `n` bytes from `p` on hold `v`.
abbrev pub fill : Memory → ℕ → ℕ → ℕ → Memory
fill m p n v a = if leb p a && ltb a (p + n) then v else m a
