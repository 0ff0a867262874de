-- ===== src/Elf/Load.antt =====
-- elf_load of src/loader/formats/elfloader.c over the file layer.
use ras_os.Base.{◌≡◌, ◌∷◌, ℕ, Option, List, [], refl, ok, some, none}
use ras_os.FileTable.{Filesystem, fopen}
use ras_os.Elf.{elf_load}

-- Where the file cannot be opened, elf_load returns 0, the status of success, and no file.
pub elf_load_unopened :
    {D : Type 0} (fs : Filesystem D) (table : List (Option D)) (address : ℕ) (filename : List ℕ)
    → (fopen (some fs) table filename (b'r' ∷ 0 ∷ [])).0 ≡ 0
    → (elf_load fs table address filename).0 ≡ ok none
unfolding elf_load
elf_load_unopened fs table address filename e = rw (e, elf_load) refl
