-- ===== src/Heap/Search.antt =====
-- heap_get_start_block of src/memory/heap/heap.c is a first-fit search.
use ras_os.Base.{
  ℕ, zero, suc, ◌+◌, ◌-◌, ◌≤◌, ◌<◌, ◌≡◌, refl, inl, inr, true, false, Option, none, some, List,
  arith, Result, ok, err, enomem, ◌==◌, Bool-cases, get_or, subst, ==→eq, dec_lt,
}
use ras_os.Heap.{Heap, is_block_taken, scan_start, scan_blocks, heap_get_start_block}

-- The `n` blocks from `s` on are free.
abbrev pub IsFreeRun : List ℕ → ℕ → ℕ → Type 0
IsFreeRun es s n = (k : ℕ) → k < n → is_block_taken (get_or es (s + k) 0) ≡ false

-- What the search returns: the first free run, or the code for none.
abbrev pub IsFirstFit : List ℕ → (total n : ℕ) → Result ℕ → Type 0
IsFirstFit es total n (ok s) =
    (s + n ≤ total) × IsFreeRun es s n × ((t : ℕ) → t < s → ¬ IsFreeRun es t n)
IsFirstFit es total n (err e) = (e ≡ enomem) × ((t : ℕ) → t + n ≤ total → ¬ IsFreeRun es t n)

-- What the loop knows at block `i`: the `count` blocks before `i` are free, they start at `start`,
-- and no run of `n` free blocks starts before them.
record Seen (es : List ℕ) (n i count : ℕ) (start : Option ℕ) : Type 0 where
  short : count < n
  begins : scan_start start i + count ≡ i
  free : IsFreeRun es (scan_start start i) count
  none_before : (t : ℕ) → t + count < i → ¬ IsFreeRun es t n

-- A run cannot go over a taken block.
no_run_over :
    (es : List ℕ) (t n i : ℕ)
    → is_block_taken (get_or es i 0) ≡ true
    → t ≤ i
    → i < t + n
    → ¬ IsFreeRun es t n
no_run_over es t n i tk lo hi run =
    let e : t + (i - t) ≡ i = omega arith in
    let f : is_block_taken (get_or es i 0) ≡ false = rw e at (run (i - t) (omega arith)) in
    ground arith

extend_run :
    (es : List ℕ) (s n i : ℕ)
    → IsFreeRun es s n
    → s + n ≡ i
    → is_block_taken (get_or es i 0) ≡ false
    → IsFreeRun es s (n + 1)
extend_run es s n i run e fr k h = elim (dec_lt k n) [
  | yes p ↦ run k p
  | no p ↦ let e' : s + k ≡ i = omega arith in rw e' fr
]

-- One round of the loop, in its three cases.
module _ (rounds i : ℕ) (es : List ℕ) (n count : ℕ) (start : Option ℕ) where
  scan-taken :
      is_block_taken (get_or es i 0) ≡ true
      → scan_blocks (suc rounds) i es n count start ≡ scan_blocks rounds (i + 1) es n 0 none
  unfolding scan_blocks
  scan-taken tk = rw (tk, scan_blocks)

  scan-full :
      is_block_taken (get_or es i 0) ≡ false
      → (count + 1 == n) ≡ true
      → scan_blocks (suc rounds) i es n count start ≡ ok (scan_start start i)
  unfolding scan_blocks
  scan-full fr full = rw (fr, scan_blocks) (rw (full, scan_blocks))

  scan-more :
      is_block_taken (get_or es i 0) ≡ false
      → (count + 1 == n) ≡ false
      → scan_blocks (suc rounds) i es n count start
        ≡ scan_blocks rounds (i + 1) es n (count + 1) (some (scan_start start i))
  unfolding scan_blocks
  scan-more fr more = ground arith

scan_blocks-IsFirstFit :
    (rounds i : ℕ) (es : List ℕ) (n count : ℕ) (start : Option ℕ) (total : ℕ)
    → i + rounds ≡ total
    → Seen es n i count start
    → IsFirstFit es total n (scan_blocks rounds i es n count start)
unfolding scan_blocks
scan_blocks-IsFirstFit zero i es n count start total e s =
    let short = s.short in (refl, λ t h. s.none_before t (omega arith))
scan_blocks-IsFirstFit (suc rounds) i es n count start total e s =
    elim (Bool-cases (is_block_taken (get_or es i 0))) [
      | inl tk ↦ rw (scan-taken rounds i es n count start tk) (
          scan_blocks-IsFirstFit rounds (i + 1) es n 0 none total (omega arith) (record {
            short = omega arith;
            begins = omega arith;
            free = λ k h. absurd (omega arith);
            none_before = λ t h. elim (dec_lt (t + count) i) [
              | yes p ↦ s.none_before t p
              | no p ↦ no_run_over es t n i tk (omega arith) (omega arith)
            ];
          }))
      | inr fr ↦ elim (Bool-cases (count + 1 == n)) [
        | inl full ↦
            let en : count + 1 ≡ n = ==→eq (count + 1) n full in
            let run = extend_run es (scan_start start i) count i s.free s.begins fr in
            rw (scan-full rounds i es n count start fr full) (
              omega arith,
              subst (λ m. IsFreeRun es (scan_start start i) m) en run,
              λ t h. s.none_before t (omega arith),
            )
        | inr more ↦ rw (scan-more rounds i es n count start fr more) (
            scan_blocks-IsFirstFit rounds (i + 1) es n (count + 1) (some (scan_start start i)) total
              (omega arith)
              (record {
                short = ground arith;
                begins = omega arith;
                free = extend_run es (scan_start start i) count i s.free s.begins fr;
                none_before = λ t h. s.none_before t (omega arith);
              }))
      ]
    ]

-- For at least one block, the search returns the first run of `n` free blocks inside the table, or
-- the code for no memory if there is none.
pub heap_get_start_block-IsFirstFit :
    (h : Heap) (n : ℕ)
    → 0 < n
    → IsFirstFit h.table.entries h.table.total n (heap_get_start_block h n)
unfolding heap_get_start_block
heap_get_start_block-IsFirstFit h n pos =
    scan_blocks-IsFirstFit h.table.total 0 h.table.entries n 0 none h.table.total (omega arith)
      (record {
        short = pos;
        begins = omega arith;
        free = λ k h. absurd (omega arith);
        none_before = λ t h. absurd (omega arith);
      })

scan_blocks-zero :
    (rounds i : ℕ) (es : List ℕ) (count : ℕ) (start : Option ℕ)
    → scan_blocks rounds i es 0 count start ≡ err enomem
unfolding scan_blocks
scan_blocks-zero zero i es count start = refl
scan_blocks-zero (suc rounds) i es count start = ground (
  arith,
  scan_blocks-zero rounds (i + 1) es 0 none,
  scan_blocks-zero rounds (i + 1) es (count + 1) (some (scan_start start i)),
)

-- A search for no block fails, whatever is free.
pub heap_get_start_block-zero : (h : Heap) → heap_get_start_block h 0 ≡ err enomem
unfolding heap_get_start_block
heap_get_start_block-zero h = scan_blocks-zero h.table.total 0 h.table.entries 0 none
