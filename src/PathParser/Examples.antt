-- ===== src/PathParser/Examples.antt =====
-- src/fs/pparser.c at concrete paths.
use ras_os.PathParser.Nodes.{Store, pathparser_parse_in}
use ras_os.PathParser.Freed.{Gives, pathparser_parse_in-Gives}
use ras_os.PathParser.Bounds.{AreAtMost, pathparser_parse-AreAtMost}
use ras_os.CString.{is_digit, strlen}
use ras_os.Memory.{memcmp}
use ras_os.PathParser.{get_next_path_part, is_valid_path, pathparser_parse}
use ras_os.PathParser.Print.{stop, pathparser_parse-print_path}
use ras_os.Base.{ne→==, ◌==◌, ◌≤◌, false, ◌≡◌, ◌∷◌, ℕ, List, arith, [], refl, some, none}

-- The path 0:/bin/sh.
abbrev bin_sh : List ℕ
bin_sh = b'0' ∷ b':' ∷ b'/' ∷ b'b' ∷ b'i' ∷ b'n' ∷ b'/' ∷ b's' ∷ b'h' ∷ []

abbrev parts : List (List ℕ)
parts = (b'b' ∷ b'i' ∷ b'n' ∷ []) ∷ (b's' ∷ b'h' ∷ []) ∷ []

no_parts : pathparser_parse (b'0' ∷ b':' ∷ b'/' ∷ []) ≡ none
unfolding pathparser_parse get_next_path_part is_valid_path strlen memcmp is_digit
no_parts = refl

bin_sh_short : strlen bin_sh ≤ 128
unfolding strlen
bin_sh_short = omega arith

no_drive : is_valid_path (b'a' ∷ b':' ∷ b'/' ∷ b'b' ∷ []) ≡ false
unfolding is_valid_path strlen is_digit memcmp
no_drive = refl

pathparser_parse-print_path_example :
    pathparser_parse bin_sh ≡ some (record { drive_number = 0; first = parts })
pathparser_parse-print_path_example =
    pathparser_parse-print_path 0 parts [] (omega arith) (λ e. ground arith)
      (
        λ e. ground arith,
        (
          λ e. ground arith,
          λ e. ground arith,
          (λ e. ground arith, λ e. ground arith, (λ e. ground arith, λ e. ground arith, tt)),
        ),
        (
          λ e. ground arith,
          (λ e. ground arith, λ e. ground arith, (λ e. ground arith, λ e. ground arith, tt)),
          tt,
        ),
      )
      stop bin_sh_short

pathparser_parse-AreAtMost_example : AreAtMost 125 parts
pathparser_parse-AreAtMost_example =
    pathparser_parse-AreAtMost bin_sh (record { drive_number = 0; first = parts })
      pathparser_parse-print_path_example

-- A store in which seven blocks are allocated, the third of them live.
abbrev some_store : Store
some_store = record {
  blocks = record { count = 7; live = λ a. a == 3 };
  names = λ a. [];
  parts = λ a. record { part = 0; next = 0 };
  roots = λ a. (0, 0);
}

pathparser_parse_in-Gives_example :
    (root : ℕ) × (s' : Store) × (pathparser_parse_in some_store bin_sh ≡ some (root, s'))
    × Gives some_store (pathparser_parse bin_sh) root s'
pathparser_parse_in-Gives_example =
    pathparser_parse_in-Gives some_store bin_sh (λ a h. ne→== a 3 (λ e. absurd (omega arith)))
