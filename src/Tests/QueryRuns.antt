-- ===== src/Tests/QueryRuns.antt =====
-- A library whose table has several symbols over the same address.
use rust_dlopen.Common.{ℕ, ◌≡◌, refl, zero, suc, true, some, none, List, [], ◌∷◌, String, Option}
use rust_dlopen.Registry.Types.{LoadedDylib}
use rust_dlopen.HostInit.{ElfPhdr}
use rust_dlopen.Queries.{ElfSymbol, DlInfo, DlPhdrInfo, DlFindObject, dl_find_object, iterate_over}
use rust_dlopen.Common.Maybe.{find_first}
use rust_dlopen.Tests.Table.{table}
use rust_dlopen.Tests.RegistryRuns.{liba, held, found_a}

abbrev symbol : String → ℕ → ℕ → ElfSymbol
symbol name value size = record {
  st_value = value;
  st_size = size;
  is_ok_bind = true;
  is_ok_type = true;
  cname = some name;
}

-- `close` ends in front of the address 4100, `write` starts behind it.
abbrev symbols : LoadedDylib → List ElfSymbol
symbols lib =
    symbol "all" 1 90
    ∷ symbol "open" 4 0
    ∷ symbol "read" 2 20
    ∷ symbol "close" 3 1
    ∷ symbol "write" 8 4
    ∷ []

abbrev opener : DlInfo
opener = record {
  dylib = record { inner = liba; deps = some (liba ∷ []) };
  sname = some "open";
  saddr = 4100;
}

-- The callback counts the libraries and stops at the second one.
abbrev stop_at_two : DlPhdrInfo → ℕ → ℕ × ℕ
stop_at_two info zero = (0, 1)
stop_at_two info (suc n) = (7, suc (suc n))

abbrev one_header : LoadedDylib → Option (List ElfPhdr)
one_header lib = some (record { p_type = 1; p_offset = 0; p_vaddr = 0; p_memsz = 100 } ∷ [])

iteration_stops :
    iterate_over one_header (λ lib. none) stop_at_two 3 0 (liba ∷ liba ∷ liba ∷ []) 0 ≡ (7, 2)
unfolding iterate_over
iteration_stops = refl

-- No frame header: the pointer to it is null.
abbrev described : DlFindObject
described = record {
  dlfo_flags = 0;
  dlfo_map_start = 4096;
  dlfo_map_end = 4196;
  dlfo_link_map = 9000;
  dlfo_eh_frame = 0;
}

object_found : dl_find_object table one_header (λ lib. some 9000) held 4100 ≡ some described
unfolding dl_find_object find_first
object_found = rw (dl_find_object, found_a) refl
