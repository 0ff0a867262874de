-- ===== src/Paging/Examples.antt =====
-- The theorems on src/memory/paging/paging.c at a chunk whose pages follow one another.
use ras_os.Base.{◌*◌, ◌==◌, if◌then◌else◌, ◌+◌, ℕ, ◌≡◌, arith, ok}
use ras_os.Paging.{Ram, paging_new_4gb, paging_get_table_entry, paging_set, paging_map_to}
use ras_os.Paging.Layout.{IsDirectory}
use ras_os.Paging.Set.{IsPage, paging_get_table_entry-paging_set}
use ras_os.Paging.Map.{IsMapped, paging_map_to-IsMapped}
use ras_os.Paging.Create.{IsPages}
use ras_os.Paging.Identity.{paging_new_4gb-identity}

abbrev page : ℕ → ℕ
page k = 0x01000000 + 4096 * k

page-IsPages : IsPages page
page-IsPages = record {
  aligned = λ k h. omega arith;
  bounded = λ k h. omega arith;
  distinct = λ j k hj hk e. omega arith;
}

abbrev blank : Ram
blank a = 0

chunk : ℕ × Ram
chunk = paging_new_4gb blank page 7

paging_new_4gb-identity_example :
    IsDirectory chunk.1 chunk.0
    × ((v : ℕ) → IsPage v → paging_get_table_entry chunk.1 chunk.0 v ≡ v + 7)
unfolding chunk
paging_new_4gb-identity_example = paging_new_4gb-identity blank page 7 page-IsPages (omega arith)

paging_get_table_entry-paging_set_example :
    (ram' : Ram) × (paging_set chunk.1 chunk.0 0x400000 0x2000007 ≡ ok ram')
    × IsDirectory ram' chunk.0
    × ((w : ℕ)
        → IsPage w
        → paging_get_table_entry ram' chunk.0 w
          ≡ (if w == 0x400000 then 0x2000007 else paging_get_table_entry chunk.1 chunk.0 w))
paging_get_table_entry-paging_set_example =
    paging_get_table_entry-paging_set chunk.1 chunk.0 0x400000 0x2000007
      paging_new_4gb-identity_example.0 (omega arith)

paging_map_to-IsMapped_example :
    (ram' : Ram) × (paging_map_to chunk.1 chunk.0 0x400000 0x2000000 0x2004000 7 ≡ (ok tt, ram'))
    × IsMapped chunk.1 ram' chunk.0 0x400000 0x2000000 4 7
paging_map_to-IsMapped_example =
    paging_map_to-IsMapped chunk.1 chunk.0 0x400000 0x2000000 0x2004000 7
      paging_new_4gb-identity_example.0 (omega arith) (omega arith) (omega arith) (omega arith)
      (omega arith) (omega arith)
