-- ===== src/CString/Compare.antt =====
-- strncmp and istrncmp of src/string/string.c decide equality of the texts.
use ras_os.Base.{
  sym, Bool-cases, ◌∙◌, inr, inl, zero, ◌&&◌, not, map, arith, drop, ◌∷◌, ◌==◌, if◌then◌else◌, ◌↔◌,
  ◌≡◌, ℕ, List, [], refl, suc,
}
use ras_os.Base.Int.{ℤ, pos, sub_ℕ, sub_ℕ-eq-zero}
use ras_os.CString.{char_at, strncmp, istrncmp, tolower}
use ras_os.CString.Text.{text_to, text_to_step}

-- strncmp returns 0 exactly if the first `n` characters of the two texts are the same.
pub strncmp_iff :
    (s1 s2 : List ℕ) (n : ℕ) → (strncmp s1 s2 n ≡ pos 0) ↔ (text_to n s1 ≡ text_to n s2)
unfolding strncmp
strncmp_iff s1 s2 zero = (λ e. refl, λ e. refl)
strncmp_iff s1 s2 (suc n) =
    rw (text_to_step n s1, text_to_step n s2)
      (strncmp_step (char_at s1 0) (char_at s2 0) _ _ _ (strncmp_iff (drop 1 s1) (drop 1 s2) n))
  where
    strncmp_step :
        (a b : ℕ) (x y : List ℕ) (r : ℤ)
        → (r ≡ pos 0) ↔ (x ≡ y)
        → ((if a == b then (if a == 0 then pos 0 else r) else sub_ℕ a b) ≡ pos 0)
          ↔ ((if a == 0 then [] else a ∷ x) ≡ (if b == 0 then [] else b ∷ y))
    strncmp_step a b x y r ih =
        (λ e. ground (arith, ih.0, sub_ℕ-eq-zero a b), λ e. ground (arith, ih.1, sub_ℕ-eq-zero a b))

-- Only the 0 is the 0 in lower case.
tolower-zero : (a : ℕ) → (tolower a ≡ 0) ↔ (a ≡ 0)
unfolding tolower
tolower-zero a = (λ e. ground arith, λ e. ground arith)

lower-if :
    (a : ℕ) (x : List ℕ)
    → map tolower (if a == 0 then [] else a ∷ x)
      ≡ (if a == 0 then [] else tolower a ∷ map tolower x)
lower-if a x = elim (Bool-cases (a == 0)) [ inl z ↦ rw z | inr nz ↦ rw nz ]

-- istrncmp returns 0 exactly if the first `n` characters of the two texts are the same but for the
-- case of letters.
pub istrncmp_iff :
    (s1 s2 : List ℕ) (n : ℕ)
    → (istrncmp s1 s2 n ≡ pos 0) ↔ (map tolower (text_to n s1) ≡ map tolower (text_to n s2))
unfolding istrncmp
istrncmp_iff s1 s2 zero = (λ e. refl, λ e. refl)
istrncmp_iff s1 s2 (suc n) =
    rw (text_to_step n s1, text_to_step n s2)
      (istrncmp_step (char_at s1 0) (char_at s2 0) _ _ _ (istrncmp_iff (drop 1 s1) (drop 1 s2) n))
  where
    istrncmp_step :
        (a b : ℕ) (x y : List ℕ) (r : ℤ)
        → (r ≡ pos 0) ↔ (map tolower x ≡ map tolower y)
        → ((if not (a == b) && not (tolower a == tolower b)
              then sub_ℕ a b
              else if a == 0
              then pos 0
              else r)
            ≡ pos 0)
          ↔ (map tolower (if a == 0 then [] else a ∷ x)
              ≡ map tolower (if b == 0 then [] else b ∷ y))
    istrncmp_step a b x y r ih = (
      λ e.
          lower-if a x
          ∙ ground (arith, ih.0, sub_ℕ-eq-zero a b, tolower-zero a, tolower-zero b)
          ∙ sym (lower-if b y),
      λ e. ground (
        arith,
        ih.1,
        sub_ℕ-eq-zero a b,
        sym (lower-if a x) ∙ e ∙ lower-if b y,
        tolower-zero a,
        tolower-zero b,
      ),
    )
