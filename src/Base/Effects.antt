-- ===== src/Base/Effects.antt =====
-- What a piece of C code can do: return a value, make an access that C leaves undefined (outside
-- an array, through a null pointer), or go on for more rounds than the fuel of its loop allows.
use Prim.Native.Nat.{ℕ}

pub data Outcome {ℓ} (A : Type ℓ) : Type ℓ where
  done : A → Outcome A
  fault : Outcome A
  out_of_fuel : Outcome A

infixl 5 ◌>>=◌
abbrev pub ◌>>=◌ {ℓ κ} : {A : Type ℓ} {B : Type κ} → Outcome A → (A → Outcome B) → Outcome B
done a >>= k = k a
fault >>= k = fault
out_of_fuel >>= k = out_of_fuel

-- An `int` of the code that is a value when it succeeds and `-code` when it fails.
pub data Result {ℓ} (A : Type ℓ) : Type ℓ where
  ok : A → Result A
  err : ℕ → Result A

-- `status.h`
abbrev pub eio : ℕ
eio = 5

abbrev pub ebadf : ℕ
ebadf = 9

abbrev pub enomem : ℕ
enomem = 12

abbrev pub einval : ℕ
einval = 22

abbrev pub emfile : ℕ
emfile = 24

abbrev pub enospc : ℕ
enospc = 28

abbrev pub enomedium : ℕ
enomedium = 123

abbrev pub emediumtype : ℕ
emediumtype = 124
