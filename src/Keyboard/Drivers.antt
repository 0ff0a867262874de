-- ===== src/Keyboard/Drivers.antt =====
-- The list of keyboards of src/keyboard/keyboard.c. A struct keyboard stands at an address, and the null
-- pointer is 0.
use ras_os.Base.Int.{pos}
use ras_os.Idt.{idt_register_interrupt_callback}
use ras_os.Base.{
  ok, eq→==, ◌∙◌, ne→==, sym, ◌++◌, get_or, ◌≡◌, length, ◌<◌, einvarg, ◌==◌, ◌∷◌, ◌≢◌, Result, List,
  if◌then◌else◌, ℕ, Option, arith, [], refl, err, some, none, suc,
}

pub record Driver : Type 0 where
  -- Whether there is an init function, and the status that it returns.
  pub init : Option (Result (Unit {0}))
  pub next : ℕ

pub record Drivers : Type 0 where
  pub driver_at : ℕ → Driver
  pub keyboard_list_head : ℕ
  pub keyboard_list_last : ℕ

abbrev pub link : (ℕ → Driver) → (last keyboard : ℕ) → ℕ → Driver
link driver_at last keyboard a =
    if a == last then record (driver_at last) { next = keyboard } else driver_at a

-- A keyboard stays in the list where its init fails.
unfoldable pub keyboard_insert : Drivers → (keyboard : ℕ) → Result (Unit {0}) × Drivers
keyboard_insert s keyboard = elim (s.driver_at keyboard).init [
  | none ↦ (err einvarg, s)
  | some res ↦
      if s.keyboard_list_last == 0
      then (res, record s { keyboard_list_head = keyboard; keyboard_list_last = keyboard })
      else (
        res,
        record s {
          driver_at = link s.driver_at s.keyboard_list_last keyboard;
          keyboard_list_last = keyboard;
        },
      )
]

-- The list: the keyboards in their order, each linked to the next, and the last to none.
abbrev pub AreLinked : (ℕ → Driver) → ℕ → List ℕ → Type 0
AreLinked driver_at last [] = ⊥
AreLinked driver_at last (k ∷ []) = (k ≡ last) × ((driver_at k).next ≡ 0)
AreLinked driver_at last (k ∷ l ∷ ks) =
    (k ≢ last) × ((driver_at k).next ≡ l) × AreLinked driver_at last (l ∷ ks)

-- Linking a keyboard behind the last one appends it.
link-AreLinked :
    (driver_at : ℕ → Driver) (last keyboard : ℕ) (ks : List ℕ)
    → AreLinked driver_at last ks
    → ((i : ℕ) → i < length ks → get_or ks i 0 ≢ keyboard)
    → (driver_at keyboard).next ≡ 0
    → last ≢ keyboard
    → AreLinked (link driver_at last keyboard) keyboard (ks ++ (keyboard ∷ []))
link-AreLinked driver_at last keyboard [] linked fresh end ne = absurd linked
link-AreLinked driver_at last keyboard (k ∷ []) (e, z) fresh end ne = (
  λ q. ne (sym e ∙ q),
  rw (eq→== k last e) refl,
  (refl, rw (ne→== keyboard last (λ q. ne (sym q))) end),
)
link-AreLinked driver_at last keyboard (k ∷ l ∷ ks) (n, next, linked) fresh end ne = (
  λ q. fresh 0 (omega arith) q,
  rw (ne→== k last n) next,
  link-AreLinked driver_at last keyboard (l ∷ ks) linked (λ i h. fresh (suc i) (omega arith)) end
      ne,
)

-- keyboard_insert appends a keyboard that has an init function to the list, and returns what that function
-- does.
pub keyboard_insert-AreLinked :
    (s : Drivers) (keyboard : ℕ) (ks : List ℕ) (res : Result (Unit {0}))
    → AreLinked s.driver_at s.keyboard_list_last ks
    → s.keyboard_list_last ≢ 0
    → ((i : ℕ) → i < length ks → get_or ks i 0 ≢ keyboard)
    → s.keyboard_list_last ≢ keyboard
    → (s.driver_at keyboard).next ≡ 0
    → (s.driver_at keyboard).init ≡ some res
    → ((keyboard_insert s keyboard).0 ≡ res)
      × AreLinked
          (keyboard_insert s keyboard).1.driver_at
          (keyboard_insert s keyboard).1.keyboard_list_last
          (ks ++ (keyboard ∷ []))
unfolding keyboard_insert
keyboard_insert-AreLinked s keyboard ks res linked some_last fresh ne end has_init =
    rw (has_init, ne→== s.keyboard_list_last 0 some_last, keyboard_insert)
      (refl, link-AreLinked s.driver_at s.keyboard_list_last keyboard ks linked fresh end ne)

abbrev isr_keyboard_interrupt : ℕ
isr_keyboard_interrupt = 0x21

-- The init function of the qwerty keyboard: the callbacks with its handler, whose status is dropped. The
-- command to the port is not modelled.
unfoldable pub qwerty_keyboard_init :
    {F : Type 0}
    → List (Option F)
    → (qwerty_keyboard_handle_interrupt : F) → Result (Unit {0}) × List (Option F)
qwerty_keyboard_init callbacks handler =
    elim (idt_register_interrupt_callback callbacks (pos isr_keyboard_interrupt) handler) [
      | err e ↦ (ok tt, callbacks)
      | ok callbacks' ↦ (ok tt, callbacks')
    ]

-- `qwerty_keyboard` is the address that qwerty_init returns.
unfoldable pub keyboard_init : Drivers → (qwerty_keyboard : ℕ) → Drivers
unfolding keyboard_insert
keyboard_init s qwerty_keyboard = (keyboard_insert s qwerty_keyboard).1
