-- ===== src/CString/Text.antt =====
-- The characters of a string before its 0, the view by which src/string/string.c is specified.
use ras_os.Base.{
  ◌∙◌, ◌+◌, drop, ap, ==→eq, Bool-cases, ◌≢◌, ◌<◌, ◌==◌, if◌then◌else◌, length, ◌≡◌, ◌∷◌, take,
  List, ℕ, arith, [], refl, inr, inl, false, suc, zero,
}
use ras_os.CString.{char_at, strlen}

-- The characters before the 0.
unfoldable pub text : List ℕ → List ℕ
text [] = []
text (c ∷ s) = if c == 0 then [] else c ∷ text s

-- At most `n` of them.
abbrev pub text_to : ℕ → List ℕ → List ℕ
text_to n s = take n (text s)

-- strlen counts the characters before the 0: there is a 0 at that place, and none before it.
pub strlen_lem :
    (s : List ℕ)
    → (strlen s ≡ length (text s))
      × (char_at s (strlen s) ≡ 0)
      × ((k : ℕ) → k < strlen s → char_at s k ≢ 0)
unfolding strlen text
strlen_lem [] = (refl, refl, λ k h. absurd (omega arith))
strlen_lem (c ∷ s) = elim (Bool-cases (c == 0)) [
  | inl z ↦ rw (z, strlen, text) (refl, ==→eq c 0 z, λ k h. absurd (omega arith))
  | inr nz ↦
      let (l, e, f) = strlen_lem s in rw (nz, strlen, text) (ap suc l, e, λ k. nonzero k nz f)
]
  where
    nonzero :
        (k : ℕ)
        → (c == 0) ≡ false
        → ((j : ℕ) → j < strlen s → char_at s j ≢ 0)
        → k < suc (strlen s)
        → char_at (c ∷ s) k ≢ 0
    nonzero zero nz f h = λ e. ground arith
    nonzero (suc k) nz f h = f k (omega arith)

-- The text in terms of its first character, which the loops read.
text_step : (s : List ℕ) → text s ≡ (if char_at s 0 == 0 then [] else char_at s 0 ∷ text (drop 1 s))
unfolding text
text_step [] = refl
text_step (c ∷ s) = refl

pub text_to_step :
    (n : ℕ) (s : List ℕ)
    → text_to (suc n) s ≡ (if char_at s 0 == 0 then [] else char_at s 0 ∷ text_to n (drop 1 s))
text_to_step n s = ap (take (suc n)) (text_step s) ∙ ground arith

pub char_at-drop : (i k : ℕ) (s : List ℕ) → char_at (drop i s) k ≡ char_at s (i + k)
char_at-drop zero k s = ap (char_at s) (omega arith)
char_at-drop (suc i) k [] = refl
char_at-drop (suc i) k (c ∷ s) =
    rw (char_at-drop i k s) (ap (char_at (c ∷ s)) {x = suc (i + k)} (omega arith))

pub drop-drop : (i : ℕ) (s : List ℕ) → drop 1 (drop i s) ≡ drop (i + 1) s
drop-drop zero s = refl
drop-drop (suc i) [] = ap (λ n. drop {A = ℕ} n []) {x = suc (suc i)} (omega arith)
drop-drop (suc i) (c ∷ s) = drop-drop i s ∙ ap (λ n. drop n (c ∷ s)) {x = suc (i + 1)} (omega arith)

pub take-strlen : (s : List ℕ) → take (strlen s) s ≡ text s
unfolding strlen text
take-strlen [] = refl
take-strlen (c ∷ s) = elim (Bool-cases (c == 0)) [
  | inl z ↦ rw (z, strlen, text)
  | inr nz ↦ rw (nz, strlen, text) (ap (λ r. c ∷ r) (take-strlen s))
]
