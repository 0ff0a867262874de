-- ===== src/Keyboard/Ring.antt =====
-- The ring of src/keyboard/keyboard.c as a queue of characters.
use ras_os.Base.{
  get_or-snoc, set, ◌≢◌, get_or-set_ne, ne→==, get_or-set_self, eq→==, ℕ_discrete, ◌∙◌, ◌≤◌, ◌==◌,
  length-set, length-append, ◌%◌, if◌then◌else◌, ◌+◌, ◌++◌, get_or, length, ◌≡◌, ◌∷◌, ◌<◌, List, ℕ,
  arith, [], refl, suc,
}
use ras_os.Keyboard.{advance, KeyboardBuffer, buffer_size, push_char, pop_char}

-- The ring holds the characters `q`, the oldest at the head, and zeros everywhere else; it is not
-- full.
pub record Holds (k : KeyboardBuffer) (q : List ℕ) : Type 0 where
  pub sized : length k.buffer ≡ buffer_size
  pub head_in : k.head < buffer_size
  pub short : length q < buffer_size
  pub tail_at : k.tail ≡ (k.head + length q) % buffer_size
  pub chars : (i : ℕ) → i < length q → get_or k.buffer ((k.head + i) % buffer_size) 0 ≡ get_or q i 0
  pub zeros :
      (i : ℕ) → length q ≤ i → i < buffer_size → get_or k.buffer ((k.head + i) % buffer_size) 0 ≡ 0

get_or-push :
    (k : KeyboardBuffer) (q : List ℕ) (c i : ℕ)
    → Holds k q
    → i < buffer_size
    → get_or (push_char k c).buffer ((k.head + i) % buffer_size) 0
      ≡ (if i == length q then c else get_or k.buffer ((k.head + i) % buffer_size) 0)
unfolding push_char
get_or-push k q c i h lt =
    let t = h.tail_at in
    let s = h.sized in
    let hd = h.head_in in
    let sh = h.short in
    elim (ℕ_discrete i (length q)) [
      | yes e ↦
          let at : k.tail ≡ (k.head + i) % buffer_size = omega arith in
          rw (eq→== i (length q) e, ← at) (get_or-set_self k.buffer k.tail c 0 (omega arith))
      | no ne ↦
          rw (ne→== i (length q) ne)
            (get_or-set_ne k.buffer k.tail ((k.head + i) % buffer_size) c 0 (omega arith))
    ]

-- A character that is pushed while the ring has room for one more is the last of the queue.
pub push_char-Holds :
    (k : KeyboardBuffer) (q : List ℕ) (c : ℕ)
    → Holds k q
    → length q + 1 < buffer_size
    → Holds (push_char k c) (q ++ (c ∷ []))
unfolding push_char
push_char-Holds k q c h room =
    let len = length-append q (c ∷ []) in
    let t = h.tail_at in
    let hd = h.head_in in
    record {
      sized = length-set k.buffer k.tail c ∙ h.sized;
      head_in = h.head_in;
      short = omega arith;
      tail_at = ground arith;
      chars = λ i lt.
          get_or-push k q c i h (omega arith) ∙ ground (arith, get_or-snoc q c i, h.chars i);
      zeros = λ i lo hi. get_or-push k q c i h hi ∙ ground (arith, h.zeros i);
    }

head-pop :
    (k : KeyboardBuffer) → k.head < buffer_size → (pop_char k).1.head ≡ (k.head + 1) % buffer_size
unfolding pop_char
head-pop k h = ground arith

tail-pop : (k : KeyboardBuffer) → (pop_char k).1.tail ≡ k.tail
unfolding pop_char
tail-pop k = refl

-- The cells behind a pop, counted from the new head.
get_or-pop :
    (k : KeyboardBuffer) (i : ℕ)
    → length k.buffer ≡ buffer_size
    → k.head < buffer_size
    → i < buffer_size
    → get_or (pop_char k).1.buffer (((pop_char k).1.head + i) % buffer_size) 0
      ≡ (if i == 1023 then 0 else get_or k.buffer ((k.head + suc i) % buffer_size) 0)
get_or-pop k i s hd lt = rw (head-pop k hd) (
    unfold pop_char in
    elim (ℕ_discrete i 1023) [
      | yes e ↦
          let at : ((k.head + 1) % buffer_size + i) % buffer_size ≡ k.head = omega arith in
          rw (eq→== i 1023 e, at) (get_or-set_self k.buffer k.head 0 0 (omega arith))
      | no ne ↦
          let at : ((k.head + 1) % buffer_size + i) % buffer_size ≡ (k.head + suc i) % buffer_size =
            omega arith in
          rw (ne→== i 1023 ne, at)
            (get_or-set_ne k.buffer k.head ((k.head + suc i) % buffer_size) 0 0 (omega arith))
    ])

-- A pop of a queue that is not empty returns its first character and leaves the others.
pub pop_char-Holds :
    (k : KeyboardBuffer) (c : ℕ) (q : List ℕ)
    → Holds k (c ∷ q)
    → ((pop_char k).0 ≡ c) × Holds (pop_char k).1 q
pop_char-Holds k c q h =
    let t = h.tail_at in
    let hd = h.head_in in
    let sh = h.short in
    let hp = head-pop k h.head_in in
    (
      first,
      record {
        sized = unfold pop_char in (length-set k.buffer k.head 0 ∙ h.sized);
        head_in = omega arith;
        short = omega arith;
        tail_at = tail-pop k ∙ omega arith;
        chars = λ i lt.
            get_or-pop k i h.sized h.head_in (omega arith) ∙ ground (arith, h.chars (suc i));
        zeros = λ i lo hi. get_or-pop k i h.sized h.head_in hi ∙ ground (arith, h.zeros (suc i));
      },
    )
  where
    first : (pop_char k).0 ≡ c
    first =
        let at : (k.head + 0) % buffer_size ≡ k.head = (let hd = h.head_in in omega arith) in
        unfold pop_char in rw at at (h.chars 0 (omega arith))

-- After a pop of an empty ring, which returns 0, the next character that is pushed is not what the
-- next pop returns: that is 0 again.
pub pop_char_empty :
    (k : KeyboardBuffer) (c : ℕ)
    → Holds k []
    → ((pop_char k).0 ≡ 0) × ((pop_char (push_char (pop_char k).1 c)).0 ≡ 0)
unfolding pop_char push_char
pop_char_empty k c h =
    let at : (k.head + 0) % buffer_size ≡ k.head = (let hd = h.head_in in omega arith) in
    let tl : k.tail ≡ k.head = h.tail_at ∙ at in
    let next : advance k.head ≡ (k.head + 1) % buffer_size = (let hd = h.head_in in ground arith) in
    let apart : k.head ≢ (k.head + 1) % buffer_size = (let hd = h.head_in in omega arith) in
    (
      rw at at (h.zeros 0 (omega arith) (omega arith)),
      rw
          (
            tl,
            next,
            get_or-set_ne (set k.buffer k.head 0) k.head ((k.head + 1) % buffer_size) c 0 apart,
            get_or-set_ne k.buffer k.head ((k.head + 1) % buffer_size) 0 0 apart,
          )
          (h.zeros 1 (omega arith) (omega arith)),
    )
