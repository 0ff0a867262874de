-- ===== src/Paging/Create.antt =====
-- paging_new_4gb and paging_free_4gb of src/memory/paging/paging.c.
use ras_os.Base.{
  ap, ge→ltb, ℕ_discrete, eq→==, refl, zero, ne→==, ◌∙◌, bit_or, ltb, arith, if◌then◌else◌, suc,
  ◌^◌, ◌*◌, ◌≡◌, ◌≢◌, ◌%◌, ◌+◌, ◌≤◌, ◌<◌,
}
use ras_os.Paging.{fill_directory, ℕ, Ram, page_size, write_word, fill_table}

-- What paging_new_4gb relies on of the allocator: the pages that its calls return are aligned, and
-- none is given out twice.
pub record IsPages (page : ℕ → ℕ) : Type 0 where
  pub aligned : (k : ℕ) → k ≤ 1024 → page k % page_size ≡ 0
  pub bounded : (k : ℕ) → k ≤ 1024 → page k < 2 ^ 32
  pub distinct : (j k : ℕ) → j ≤ 1024 → k ≤ 1024 → page j ≡ page k → j ≡ k

fill_table-same :
    (rounds j : ℕ) (ram : Ram) (table offset flags a : ℕ)
    → ((k : ℕ) → k < j + rounds → a ≢ table + 4 * k)
    → fill_table rounds j ram table offset flags a ≡ ram a
unfolding fill_table write_word
fill_table-same zero j ram table offset flags a out = refl
fill_table-same (suc rounds) j ram table offset flags a out =
    fill_table-same rounds (j + 1) _ table offset flags a (λ k h. out k (omega arith))
    ∙ rw (ne→== a (table + 4 * j) (out j (omega arith)))

fill_table-at :
    (rounds j : ℕ) (ram : Ram) (table offset flags k : ℕ)
    → k < j + rounds
    → fill_table rounds j ram table offset flags (table + 4 * k)
      ≡ (if ltb k j then ram (table + 4 * k) else bit_or ((offset + k * page_size) % 2 ^ 32) flags)
unfolding fill_table write_word
fill_table-at zero j ram table offset flags k h = ground arith
fill_table-at (suc rounds) j ram table offset flags k h =
    fill_table-at rounds (j + 1) _ table offset flags k (omega arith) ∙ ground arith

-- What the directory holds at `i`, and the table at `k`.
abbrev pub directory_entry : (ℕ → ℕ) → ℕ → ℕ → ℕ
directory_entry page flags i = bit_or (bit_or (page (i + 1)) flags) 2

abbrev pub table_entry : ℕ → ℕ → ℕ → ℕ
table_entry flags i k = bit_or (i * 4194304 + k * page_size) flags

module _ (page : ℕ → ℕ) (flags : ℕ) (p : IsPages page) where
  -- Words of two pages, and two words of a page, are not the same.
  words-ne :
      (m n k j : ℕ)
      → m ≤ 1024
      → n ≤ 1024
      → k < 1024
      → j < 1024
      → m ≢ n
      → page m + 4 * k ≢ page n + 4 * j
  words-ne m n k j hm hn hk hj ne e =
      ne (p.distinct m n hm hn (omega (arith, p.aligned m hm, p.aligned n hn)))

  -- One round of the outer loop.
  round : ℕ → Ram → ℕ → Ram
  round i ram offset =
      write_word (fill_table 1024 0 ram (page (i + 1)) offset flags) (page 0 + 4 * i)
        (directory_entry page flags i)

  round-directory :
      (i : ℕ) (ram : Ram) (offset : ℕ)
      → round i ram offset (page 0 + 4 * i) ≡ directory_entry page flags i
  unfolding round write_word
  round-directory i ram offset = rw (eq→== (page 0 + 4 * i) (page 0 + 4 * i) refl)

  round-table :
      (i k : ℕ) (ram : Ram)
      → i < 1024
      → k < 1024
      → round i ram (i * 4194304) (page (i + 1) + 4 * k) ≡ table_entry flags i k
  unfolding round write_word
  round-table i k ram hi hk =
      rw
        (ne→== (page (i + 1) + 4 * k) (page 0 + 4 * i)
          (words-ne (i + 1) 0 k i (omega arith) (omega arith) hk hi (omega arith)))
        (fill_table-at 1024 0 ram (page (i + 1)) (i * 4194304) flags k (omega arith)
          ∙ rw (ge→ltb k 0 (omega arith)) (ap (λ x. bit_or x flags) (omega arith)))

  round-same :
      (i m k : ℕ) (ram : Ram) (offset : ℕ)
      → i < 1024
      → m ≤ 1024
      → k < 1024
      → m ≢ suc i
      → (m ≡ 0 → k ≢ i)
      → round i ram offset (page m + 4 * k) ≡ ram (page m + 4 * k)
  unfolding round write_word
  round-same i m k ram offset hi hm hk ne other =
      rw (ne→== (page m + 4 * k) (page 0 + 4 * i) not_entry) (
        fill_table-same 1024 0 ram (page (i + 1)) offset flags (page m + 4 * k)
          (λ j hj. words-ne m (i + 1) k j hm (omega arith) hk (omega arith) (omega arith)))
    where
      not_entry : page m + 4 * k ≢ page 0 + 4 * i
      not_entry e = elim (ℕ_discrete m 0) [
        | yes z ↦ other z (omega (arith, ap page z))
        | no nz ↦ words-ne m 0 k i hm (omega arith) hk hi nz e
      ]

  fill_directory-suc :
      (rounds i : ℕ) (ram : Ram) (offset : ℕ)
      → fill_directory (suc rounds) i ram page offset flags
        ≡ fill_directory rounds
            (i + 1)
            (round i ram offset)
            page
            ((offset + page_size * 1024) % 2 ^ 32)
            flags
  unfolding fill_directory round
  fill_directory-suc rounds i ram offset = refl

  -- The rounds from `i` on leave the words of the pages that they do not fill.
  fill_directory-same :
      (rounds i m k : ℕ) (ram : Ram) (offset : ℕ)
      → i + rounds ≡ 1024
      → m ≤ i
      → k < 1024
      → (m ≡ 0 → k < i)
      → fill_directory rounds i ram page offset flags (page m + 4 * k) ≡ ram (page m + 4 * k)
  fill_directory-same zero i m k ram offset e hm hk low = unfold fill_directory in refl
  fill_directory-same (suc rounds) i m k ram offset e hm hk low =
      rw (fill_directory-suc rounds i ram offset) (
        fill_directory-same rounds (i + 1) m k _ _ (omega arith) (omega arith) hk
          (λ z. omega (arith, low z))
        ∙ round-same i m k ram offset (omega arith) (omega arith) hk (omega arith)
            (λ z. omega (arith, low z)))

  pub fill_directory-table :
      (rounds i m k : ℕ) (ram : Ram) (offset : ℕ)
      → i + rounds ≡ 1024
      → offset ≡ i * 4194304 % 2 ^ 32
      → i ≤ m
      → m < 1024
      → k < 1024
      → fill_directory rounds i ram page offset flags (page (m + 1) + 4 * k) ≡ table_entry flags m k
  fill_directory-table zero i m k ram offset e o lo hi hk = absurd (omega arith)
  fill_directory-table (suc rounds) i m k ram offset e o lo hi hk =
      rw (fill_directory-suc rounds i ram offset) (elim (ℕ_discrete i m) [
        | no ne ↦
            fill_directory-table rounds (i + 1) m k _ _ (omega arith) (omega arith) (omega arith) hi
              hk
        | yes eq ↦
            fill_directory-same rounds (i + 1) (m + 1) k _ _ (omega arith) (omega arith) hk
              (λ z. absurd (omega arith))
            ∙ let o' : offset ≡ m * 4194304 = omega arith in rw (eq, o') (round-table m k ram hi hk)
      ])

  pub fill_directory-entry :
      (rounds i m : ℕ) (ram : Ram) (offset : ℕ)
      → i + rounds ≡ 1024
      → i ≤ m
      → m < 1024
      → fill_directory rounds i ram page offset flags (page 0 + 4 * m)
        ≡ directory_entry page flags m
  fill_directory-entry zero i m ram offset e lo hi = absurd (omega arith)
  fill_directory-entry (suc rounds) i m ram offset e lo hi =
      rw (fill_directory-suc rounds i ram offset) (elim (ℕ_discrete i m) [
        | no ne ↦ fill_directory-entry rounds (i + 1) m _ _ (omega arith) (omega arith) hi
        | yes eq ↦
            fill_directory-same rounds (i + 1) 0 m _ _ (omega arith) (omega arith) hi
              (λ z. omega arith)
            ∙ rw eq (round-directory m ram offset)
      ])
