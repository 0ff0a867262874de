-- ===== src/Base/Outcome.antt =====
-- Results of C functions that return a negative status code on failure, and the codes.
use Prim.Native.Nat.{ℕ}

-- `err e` stands for the return value `-e`.
pub data Result {ℓ} (A : Type ℓ) : Type ℓ where
  ok : A → Result A
  err : ℕ → Result A

infixl 5 ◌>>=◌ ◌>>◌
abbrev pub ◌>>=◌ {ℓ κ} : {A : Type ℓ} {B : Type κ} → Result A → (A → Result B) → Result B
ok a >>= k = k a
err e >>= k = err e

abbrev pub ◌>>◌ {ℓ κ} : {A : Type ℓ} {B : Type κ} → Result A → Result B → Result B
m >> k = m >>= λ _. k

abbrev pub eio : ℕ
eio = 1

abbrev pub einvarg : ℕ
einvarg = 2

abbrev pub enomem : ℕ
enomem = 3

abbrev pub ebadpath : ℕ
ebadpath = 4

abbrev pub efsnotus : ℕ
efsnotus = 5

abbrev pub erdonly : ℕ
erdonly = 6

abbrev pub eunimp : ℕ
eunimp = 7

abbrev pub eistkn : ℕ
eistkn = 8

abbrev pub einformat : ℕ
einformat = 9
