-- ===== src/Task/Copy.antt =====
-- What copy_string_from_task of src/task/task.c copies.
use ras_os.Task.Memory.{copy_text, store_byte}
use ras_os.Base.{
  ap₂, sym, eq→==, ℕ_discrete, ◌∷◌, ne→==, ◌∙◌, ap, ◌==◌, if◌then◌else◌, ◌≢◌, ◌+◌, ◌≤◌, ◌<◌, ◌≡◌,
  List, ℕ, arith, [], refl, suc, zero,
}

-- The text at an address, up to a 0 or to a number of bytes, where `byte` gives the byte of each address.
unfoldable pub text_at : (rounds : ℕ) → (ℕ → ℕ) → ℕ → List ℕ
text_at zero byte v = []
text_at (suc rounds) byte v = if byte v == 0 then [] else byte v ∷ text_at rounds byte (v + 1)

pub text_at_cong :
    (rounds : ℕ) (f g : ℕ → ℕ) (v w : ℕ)
    → ((i : ℕ) → i < rounds → f (v + i) ≡ g (w + i))
    → text_at rounds f v ≡ text_at rounds g w
unfolding text_at
text_at_cong zero f g v w h = refl
text_at_cong (suc rounds) f g v w h =
    let first : f v ≡ g w = ap f (omega arith) ∙ h 0 (omega arith) ∙ ap g (omega arith) in
    let rest =
      text_at_cong rounds f g (v + 1) (w + 1)
        (λ i lt. ap f (omega arith) ∙ h (suc i) (omega arith) ∙ ap g (omega arith)) in
    rw (first, rest) refl

module _ (at : ℕ → ℕ) where
  -- The places of a buffer are different from each other.
  abbrev pub AreApart : (dest rounds : ℕ) → Type 0
  AreApart dest rounds = (i j : ℕ) → i ≤ rounds → j ≤ rounds → at (dest + i) ≡ at (dest + j) → i ≡ j

  -- No place of the buffer is the place of a byte of the source.
  abbrev pub IsAwayFrom : (dest src rounds : ℕ) → Type 0
  IsAwayFrom dest src rounds = (i j : ℕ) → i < rounds → j ≤ rounds → at (src + i) ≢ at (dest + j)

  unwritten : (bytes : ℕ → ℕ) (p c a : ℕ) → a ≢ p → store_byte bytes p c a ≡ bytes a
  unwritten bytes p c a ne = rw (ne→== a p ne) refl

  written : (bytes : ℕ → ℕ) (p c : ℕ) → store_byte bytes p c p ≡ c
  written bytes p c = rw (eq→== p p refl) refl

  copy_text-zero :
      (rounds : ℕ) (bytes : ℕ → ℕ) (dest src : ℕ)
      → bytes (at src) ≡ 0
      → copy_text (suc rounds) at bytes dest src ≡ store_byte bytes (at dest) 0
  unfolding copy_text
  copy_text-zero rounds bytes dest src z = rw (eq→== (bytes (at src)) 0 z) refl

  copy_text-suc :
      (rounds : ℕ) (bytes : ℕ → ℕ) (dest src : ℕ)
      → bytes (at src) ≢ 0
      → copy_text (suc rounds) at bytes dest src
        ≡ copy_text rounds at (store_byte bytes (at dest) (bytes (at src))) (dest + 1) (src + 1)
  unfolding copy_text
  copy_text-suc rounds bytes dest src n = rw (ne→== (bytes (at src)) 0 n) refl

  -- Only the buffer is written.
  copy_text-same :
      (rounds : ℕ) (bytes : ℕ → ℕ) (dest src a : ℕ)
      → ((j : ℕ) → j ≤ rounds → a ≢ at (dest + j))
      → copy_text rounds at bytes dest src a ≡ bytes a
  unfolding copy_text
  copy_text-same zero bytes dest src a h =
      unwritten bytes (at dest) 0 a (λ e. h 0 (omega arith) (e ∙ ap at (omega arith)))
  copy_text-same (suc rounds) bytes dest src a h =
      let ne : a ≢ at dest = λ e. h 0 (omega arith) (e ∙ ap at (omega arith)) in
      elim (ℕ_discrete (bytes (at src)) 0) [
        | yes z ↦
            ap (λ b. b a) (copy_text-zero rounds bytes dest src z)
            ∙ unwritten bytes (at dest) 0 a ne
        | no n ↦
            ap (λ b. b a) (copy_text-suc rounds bytes dest src n)
            ∙ copy_text-same rounds (store_byte bytes (at dest) (bytes (at src))) (dest + 1)
                (src + 1) a (λ j le e. h (suc j) (omega arith) (e ∙ ap at (omega arith)))
            ∙ unwritten bytes (at dest) (bytes (at src)) a ne
      ]

  text_at-nil : (rounds : ℕ) (f : ℕ → ℕ) (v : ℕ) → f v ≡ 0 → text_at (suc rounds) f v ≡ []
  unfolding text_at
  text_at-nil rounds f v z = rw (eq→== (f v) 0 z) refl

  text_at-cons :
      (rounds : ℕ) (f : ℕ → ℕ) (v : ℕ)
      → f v ≢ 0
      → text_at (suc rounds) f v ≡ f v ∷ text_at rounds f (v + 1)
  unfolding text_at
  text_at-cons rounds f v n = rw (ne→== (f v) 0 n) refl

  -- The buffer then has the text of the source.
  pub copy_text-text :
      (rounds : ℕ) (bytes : ℕ → ℕ) (dest src : ℕ)
      → AreApart dest rounds
      → IsAwayFrom dest src rounds
      → text_at rounds (λ v. copy_text rounds at bytes dest src (at v)) dest
        ≡ text_at rounds (λ v. bytes (at v)) src
  unfolding text_at
  copy_text-text zero bytes dest src apart away = refl
  copy_text-text (suc rounds) bytes dest src apart away = elim (ℕ_discrete (bytes (at src)) 0) [
    | yes z ↦
        text_at-nil rounds (λ v. copy_text (suc rounds) at bytes dest src (at v)) dest
          (ap (λ b. b (at dest)) (copy_text-zero rounds bytes dest src z)
            ∙ written bytes (at dest) 0)
        ∙ sym (text_at-nil rounds (λ v. bytes (at v)) src z)
    | no n ↦
        let b1 = store_byte bytes (at dest) (bytes (at src)) in
        let step = copy_text-suc rounds bytes dest src n in
        let first : copy_text (suc rounds) at bytes dest src (at dest) ≡ bytes (at src) =
          ap (λ b. b (at dest)) step
          ∙ copy_text-same rounds b1 (dest + 1) (src + 1) (at dest) (λ j le e. absurd (
              omega (
                arith,
                apart 0 (suc j) (omega arith) (omega arith)
                    (ap at (omega arith) ∙ e ∙ ap at (omega arith)),
              )))
          ∙ written bytes (at dest) (bytes (at src)) in
        let rest : text_at rounds (λ v. copy_text (suc rounds) at bytes dest src (at v)) (dest + 1)
            ≡ text_at rounds (λ v. bytes (at v)) (src + 1) =
          ap (λ b. text_at rounds (λ v. b (at v)) (dest + 1)) step
          ∙ copy_text-text rounds b1 (dest + 1) (src + 1)
              (λ i j hi hj e. omega (
                arith,
                apart (suc i) (suc j) (omega arith) (omega arith)
                    (ap at (omega arith) ∙ e ∙ ap at (omega arith)),
              ))
              (λ i j hi hj e.
                away (suc i) (suc j) (omega arith) (omega arith)
                  (ap at (omega arith) ∙ e ∙ ap at (omega arith)))
          ∙ text_at_cong rounds (λ v. b1 (at v)) (λ v. bytes (at v)) (src + 1) (src + 1)
              (λ i lt. unwritten bytes (at dest) (bytes (at src)) (at (src + 1 + i)) (λ e.
                away (suc i) 0 (omega arith) (omega arith)
                  (ap at (omega arith) ∙ e ∙ ap at (omega arith)))) in
        text_at-cons rounds (λ v. copy_text (suc rounds) at bytes dest src (at v)) dest
          (λ e. n (sym first ∙ e))
        ∙ ap₂ (λ c t. c ∷ t) first rest
        ∙ sym (text_at-cons rounds (λ v. bytes (at v)) src n)
  ]
