-- ===== src/Base/Lists.antt =====
-- C arrays and byte sequences as lists, measured and indexed by native numbers.
use Prim.Native.Nat.{ℕ, zero, suc, ◌+◌, ◌-◌, ◌<◌, ◌≤◌}
use mathlib.Core.Path.{ap₂, ◌∙◌, sym, ◌≡◌, refl, ap}
use mathlib.Core.Logic.{◌≢◌}
use mathlib.Core.List.{List, [], ◌∷◌, ◌++◌}
use mathlib.Core.Option.{Option, none, some}
use native.Mathlib.Omega.{arith}
use ras_os.Base.Tests.{◌==◌, if◌then◌else◌}

module _ {ℓ} {A : Type ℓ} where
  abbrev pub length : List A → ℕ
  length [] = 0
  length (_ ∷ xs) = suc (length xs)

  -- An array read. `d` is what a read out of range is taken to give.
  abbrev pub get_or : List A → ℕ → A → A
  get_or [] _ d = d
  get_or (x ∷ _) zero _ = x
  get_or (_ ∷ xs) (suc i) d = get_or xs i d

  abbrev pub get_elem? : List A → ℕ → Option A
  get_elem? [] _ = none
  get_elem? (x ∷ _) zero = some x
  get_elem? (_ ∷ xs) (suc i) = get_elem? xs i

  -- An array write. Out of range it changes nothing.
  abbrev pub set : List A → ℕ → A → List A
  set [] _ _ = []
  set (_ ∷ xs) zero v = v ∷ xs
  set (x ∷ xs) (suc i) v = x ∷ set xs i v

  abbrev pub take : ℕ → List A → List A
  take zero _ = []
  take (suc n) [] = []
  take (suc n) (x ∷ xs) = x ∷ take n xs

  abbrev pub drop : ℕ → List A → List A
  drop zero xs = xs
  drop (suc n) [] = []
  drop (suc n) (_ ∷ xs) = drop n xs

  -- The values of a function at `n` numbers from `p` on.
  abbrev pub tabulate : (ℕ → A) → (n p : ℕ) → List A
  tabulate f zero p = []
  tabulate f (suc n) p = f p ∷ tabulate f n (p + 1)

  abbrev pub replicate : ℕ → A → List A
  replicate zero a = []
  replicate (suc n) a = a ∷ replicate n a

module _ {ℓ} {A : Type ℓ} where
  pub length-append : (xs ys : List A) → length (xs ++ ys) ≡ length xs + length ys
  length-append [] ys = omega arith
  length-append (x ∷ xs) ys = omega (arith, length-append xs ys)

  pub length-set : (xs : List A) (i : ℕ) (v : A) → length (set xs i v) ≡ length xs
  length-set [] i v = refl
  length-set (x ∷ xs) zero v = refl
  length-set (x ∷ xs) (suc i) v = ap suc (length-set xs i v)

  pub length-replicate : (n : ℕ) (a : A) → length (replicate n a) ≡ n
  length-replicate zero a = refl
  length-replicate (suc n) a = ap suc (length-replicate n a)

  pub length-drop : (n : ℕ) (xs : List A) → length (drop n xs) ≡ length xs - n
  length-drop zero xs = omega arith
  length-drop (suc n) [] = omega arith
  length-drop (suc n) (x ∷ xs) = omega (arith, length-drop n xs)

  pub get_or-set_self :
      (xs : List A) (i : ℕ) (v d : A) → i < length xs → get_or (set xs i v) i d ≡ v
  get_or-set_self [] i v d h = absurd (omega arith)
  get_or-set_self (x ∷ xs) zero v d h = refl
  get_or-set_self (x ∷ xs) (suc i) v d h = get_or-set_self xs i v d (omega arith)

  pub get_or-set_ne :
      (xs : List A) (i j : ℕ) (v d : A) → i ≢ j → get_or (set xs i v) j d ≡ get_or xs j d
  get_or-set_ne [] i j v d h = refl
  get_or-set_ne (x ∷ xs) zero zero v d h = absurd (h refl)
  get_or-set_ne (x ∷ xs) zero (suc j) v d h = refl
  get_or-set_ne (x ∷ xs) (suc i) zero v d h = refl
  get_or-set_ne (x ∷ xs) (suc i) (suc j) v d h = get_or-set_ne xs i j v d (λ e. h (ap suc e))

  pub get_or-replicate : (n i : ℕ) (a : A) → get_or (replicate n a) i a ≡ a
  get_or-replicate zero i a = refl
  get_or-replicate (suc n) zero a = refl
  get_or-replicate (suc n) (suc i) a = get_or-replicate n i a

  pub drop-get_or :
      (n : ℕ) (xs : List A) (d : A) → n < length xs → drop n xs ≡ get_or xs n d ∷ drop (suc n) xs
  drop-get_or n [] d h = absurd (omega arith)
  drop-get_or zero (x ∷ xs) d h = refl
  drop-get_or (suc n) (x ∷ xs) d h = drop-get_or n xs d (omega arith)

  pub get_or-cons :
      (x : A) (xs : List A) (k : ℕ) (d : A) → 0 < k → get_or (x ∷ xs) k d ≡ get_or xs (k - 1) d
  get_or-cons x xs zero d h = absurd (omega arith)
  get_or-cons x xs (suc k) d h = ap (λ j. get_or xs j d) {y = suc k - 1} (omega arith)

  pub get_or-head : (x : A) (xs : List A) (k : ℕ) (d : A) → k ≡ 0 → get_or (x ∷ xs) k d ≡ x
  get_or-head x xs zero d h = refl
  get_or-head x xs (suc k) d h = absurd (omega arith)

  pub set-set : (xs : List A) (i : ℕ) (u v : A) → set (set xs i u) i v ≡ set xs i v
  set-set [] i u v = refl
  set-set (x ∷ xs) zero u v = refl
  set-set (x ∷ xs) (suc i) u v = ap (λ r. x ∷ r) (set-set xs i u v)

  pub set-get_or :
      (xs : List A) (i : ℕ) (v d : A) → get_or xs i d ≡ v → i < length xs → set xs i v ≡ xs
  set-get_or [] i v d e h = refl
  set-get_or (x ∷ xs) zero v d e h = ap (λ y. y ∷ xs) (sym e)
  set-get_or (x ∷ xs) (suc i) v d e h = ap (λ r. x ∷ r) (set-get_or xs i v d e (omega arith))

pub get_or-snoc :
    (q : List ℕ) (c i : ℕ)
    → get_or (q ++ (c ∷ [])) i 0 ≡ (if i == length q then c else get_or q i 0)
get_or-snoc [] c zero = refl
get_or-snoc [] c (suc i) = ground arith
get_or-snoc (x ∷ q) c zero = ground arith
get_or-snoc (x ∷ q) c (suc i) = get_or-snoc q c i ∙ ground arith

pub get_or-end {ℓ} : {A : Type ℓ} (xs : List A) (i : ℕ) (d : A) → length xs ≤ i → get_or xs i d ≡ d
get_or-end [] i d h = refl
get_or-end (x ∷ xs) zero d h = absurd (omega arith)
get_or-end (x ∷ xs) (suc i) d h = get_or-end xs i d (omega arith)

module _ {ℓ} {A : Type ℓ} where
  pub length-tabulate : (f : ℕ → A) (n p : ℕ) → length (tabulate f n p) ≡ n
  length-tabulate f zero p = refl
  length-tabulate f (suc n) p = ap suc (length-tabulate f n (p + 1))

  pub tabulate-add :
      (f : ℕ → A) (m n p k : ℕ)
      → m + n ≡ k
      → tabulate f k p ≡ tabulate f m p ++ tabulate f n (p + m)
  tabulate-add f zero n p k e = ap₂ (tabulate f) (omega arith) (omega arith)
  tabulate-add f (suc m) n p zero e = absurd (omega arith)
  tabulate-add f (suc m) n p (suc k) e =
      ap (λ r. f p ∷ r)
        (tabulate-add f m n (p + 1) k (omega arith)
          ∙ ap (λ q. tabulate f m (p + 1) ++ tabulate f n q) (omega arith))

  pub tabulate_cong :
      (f g : ℕ → A) (n p q : ℕ)
      → ((i : ℕ) → i < n → f (p + i) ≡ g (q + i))
      → tabulate f n p ≡ tabulate g n q
  tabulate_cong f g zero p q h = refl
  tabulate_cong f g (suc n) p q h =
      let first : f p ≡ g q =
        ap f {x = p} {y = p + 0} (omega arith) ∙ h 0 (omega arith) ∙ ap g (omega arith) in
      ap₂ ◌∷◌ first (
        tabulate_cong f g n (p + 1) (q + 1) (λ i lt.
          ap f {x = p + 1 + i} {y = p + suc i} (omega arith)
          ∙ h (suc i) (omega arith)
          ∙ ap g (omega arith)))

  -- A list is read off its entries.
  pub tabulate-get_or : (xs : List A) (d : A) → tabulate (λ i. get_or xs i d) (length xs) 0 ≡ xs
  tabulate-get_or [] d = refl
  tabulate-get_or (x ∷ xs) d =
      ap (λ r. x ∷ r)
        (tabulate_cong (λ i. get_or (x ∷ xs) i d) (λ i. get_or xs i d) (length xs) 1 0
            (λ i lt.
              get_or-cons x xs (1 + i) d (omega arith) ∙ ap (λ j. get_or xs j d) (omega arith))
          ∙ tabulate-get_or xs d)
