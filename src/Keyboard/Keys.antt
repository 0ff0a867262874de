-- ===== src/Keyboard/Keys.antt =====
-- The scan codes of src/keyboard/qwerty.c.
use ras_os.Base.{◌∷◌, ◌≤◌, length, ◌↔◌, ◌≡◌, get_elem?, ℕ, List, arith, [], refl, none, suc, zero}
use ras_os.Keyboard.{keyboard_scan_set_one, qwerty_keyboard_scancode_to_char}

get_elem?-none : (xs : List ℕ) (i : ℕ) → (get_elem? xs i ≡ none) ↔ (length xs ≤ i)
get_elem?-none [] i = (λ e. omega arith, λ h. refl)
get_elem?-none (x ∷ xs) zero = (λ e. cc, λ h. absurd (omega arith))
get_elem?-none (x ∷ xs) (suc i) =
    let (forth, back) = get_elem?-none xs i in
    (λ e. omega (arith, forth e), λ h. back (omega arith))

-- The table is read behind its end for exactly one scan code, 82.
pub scancode_to_char-none : (n : ℕ) → (qwerty_keyboard_scancode_to_char n ≡ none) ↔ (n ≡ 82)
unfolding qwerty_keyboard_scancode_to_char
scancode_to_char-none n = (
  λ e. ground (arith, (get_elem?-none keyboard_scan_set_one n).0),
  λ e. ground (arith, (get_elem?-none keyboard_scan_set_one n).1),
)
