-- ===== src/KernelHeap/Blocks.antt =====
-- What src/memory/heap/kheap.c is to code that only allocates and frees: each allocation gets a name of its
-- own, a number that is not 0, which counts the allocations, and is live until it is freed. Allocations are
-- taken to succeed.
use ras_os.Base.{◌==◌, ◌<◌, if◌then◌else◌, Bool, ◌≡◌, Option, ℕ, refl, some, none, false, true, suc}

pub record Blocks : Type 0 where
  pub count : ℕ
  pub live : ℕ → Bool

abbrev set_live : (ℕ → Bool) → ℕ → Bool → ℕ → Bool
set_live live block b a = if a == block then b else live a

unfoldable pub allocate : Blocks → ℕ × Blocks
allocate b =
    (suc b.count, record { count = suc b.count; live = set_live b.live (suc b.count) true })

-- `none` is the free of what is not live: a second free, or a null pointer.
unfoldable pub free : Blocks → ℕ → Option Blocks
free b block = if b.live block then some (record b { live = set_live b.live block false }) else none

-- What is not allocated yet is not live.
abbrev pub IsFresh : Blocks → Type 0
IsFresh b = (a : ℕ) → b.count < a → b.live a ≡ false

pub free_lem :
    (b : Blocks) (block : ℕ)
    → b.live block ≡ true
    → free b block ≡ some (record b { live = λ a. if a == block then false else b.live a })
unfolding free
free_lem b block is = rw (is, free) refl
