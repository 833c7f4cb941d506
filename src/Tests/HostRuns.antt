-- ===== src/Tests/HostRuns.antt =====
-- A dynamic table that the loader of the system has relocated.
use rust_dlopen.Common.{ℕ, ◌≡◌, refl, some, none, List, [], ◌∷◌, ◌==◌, arith, if◌then◌else◌}
use rust_dlopen.HostInit.{
  ElfDyn, ElfPhdr, ElfHeader, Image, recover_dynamic_table, find_debug_in_dynamic, find_r_debug,
  get_auxv, contains_number,
}
use rust_dlopen.HostInit.Laws.{recover_dynamic_table_lem}

abbrev entry : ℕ → ℕ → ElfDyn
entry t v = record { tag = t; value = v }

abbrev no_header : ElfHeader
no_header = record { e_phoff = 64; e_phnum = 0; e_entry = 0 }

-- The executable at 4096: its own headers, and the dynamic section at 8192.
abbrev executable : List ElfPhdr
executable =
    (record { p_type = 6; p_offset = 64; p_vaddr = 64; p_memsz = 112 })
    ∷ (record { p_type = 2; p_offset = 4096; p_vaddr = 4096; p_memsz = 48 })
    ∷ []

-- DT_STRTAB is relocated, DT_DEBUG is not; the version of the debug structure at 5000 is 1.
abbrev image : Image
image = record {
  header_at = λ p. no_header;
  phdrs_at = λ p n. executable;
  dyn_at = λ p. if p == 8192 then entry 5 4396 else if p == 8208 then entry 21 5000 else entry 0 0;
  debug_version_at = λ p. if p == 5000 then 1 else 0;
}

recover_dynamic_table_lem_example :
    recover_dynamic_table image 9 8192 4096 ≡ some (entry 5 300 ∷ entry 21 5000 ∷ entry 0 0 ∷ [])
unfolding contains_number
recover_dynamic_table_lem_example =
    recover_dynamic_table_lem image 4096 9 8192 (entry 5 300 ∷ entry 21 5000 ∷ []) (entry 0 0)
      (
        refl,
        ((λ z. omega arith), (λ z. absurd (cc z))),
        (λ z. omega arith),
        (refl, ((λ z. absurd (cc z)), (λ z. absurd (cc z))), (λ z. omega arith), (refl, refl)),
      )
      (omega arith)

r_debug_found : find_r_debug image 9 4160 2 0 ≡ some 5000
unfolding find_r_debug
r_debug_found = refl

too_little_fuel : find_debug_in_dynamic image 1 8192 ≡ none
unfolding find_debug_in_dynamic
too_little_fuel = refl

-- AT_PHDR, of a vector that ends with AT_NULL; a type that is not there has the value 0.
abbrev vector : List ℕ
vector =
    3 ∷ 0 ∷ 0 ∷ 0 ∷ 0 ∷ 0 ∷ 0 ∷ 0 ∷ 64 ∷ 16 ∷ 0 ∷ 0 ∷ 0 ∷ 0 ∷ 0 ∷ 0 ∷ 0 ∷ 0 ∷ 0 ∷ 0 ∷ 0 ∷ 0 ∷ 0 ∷ 0
    ∷ 0 ∷ 0 ∷ 0 ∷ 0 ∷ 0 ∷ 0 ∷ 0 ∷ 0 ∷ []

auxv_runs : (get_auxv (some vector) 3 ≡ 4160) × (get_auxv (some vector) 5 ≡ 0)
unfolding get_auxv
auxv_runs = (refl, refl)
