-- ===== src/Pmm/Init/Tests.antt =====
-- A memory of sixteen pages: the kernel has the first four.
use doppio.Prelude.{◌≡◌, refl, some, List, [], ◌∷◌, arith}
use doppio.Pmm.{Pmm}
use doppio.Pmm.Init.{MemoryRegion, total_pages_of, array_size_of, array_at, boot_pmm, pmm_init}
use doppio.Pmm.Init.Boot.{Booted, pmm_init-IsValid}

abbrev sixteen : List MemoryRegion
sixteen =
    record { base = 0; length = 0x4000; kind = 6 }
    ∷ record { base = 0x4000; length = 0xc010; kind = 0 }
    ∷ []

-- The array is the page 4; the pages from 5 on are free.
lists_after :
    ((pmm_init (some sixteen) boot_pmm).free_lists 0 ≡ 5 ∷ [])
    × ((pmm_init (some sixteen) boot_pmm).free_lists 3 ≡ 8 ∷ [])
unfolding pmm_init doppio.Pmm.Init.carve
lists_after = (refl, refl)

pmm_init-IsValid_example : Booted sixteen (pmm_init (some sixteen) boot_pmm)
pmm_init-IsValid_example =
    pmm_init-IsValid sixteen (omega arith, (omega arith, tt)) (λ p. ground arith)

-- A memory of sixteen free pages from the address 0 on, with room for the array there: no page is free.
abbrev from_zero : List MemoryRegion
from_zero = record { base = 0; length = 0x10000; kind = 0 } ∷ []

room_at_zero :
    (array_at from_zero (array_size_of (total_pages_of from_zero)) ≡ 0)
    × (array_size_of (total_pages_of from_zero) ≡ 0x1000)
    × ((pmm_init (some from_zero) boot_pmm).free_lists 4 ≡ [])
unfolding pmm_init
room_at_zero = (refl, refl, refl)
