-- ===== src/HostInit.antt =====
-- The initialisation on a running process: src/host_init.rs. What the code reads through raw
-- pointers is a record of functions of the address; words wrap around at 2 ^ 64.
pub mod Laws
use mathlib.Core.Option
use rust_dlopen.Common.{
  ℕ, zero, suc, ◌+◌, ◌-◌, ◌*◌, ◌/◌, ◌%◌, ◌^◌, min, max, Bool, true, false, not, ◌&&◌, ◌||◌, Option,
  none, some, List, [], ◌∷◌, map, ◌==◌, ltb, length, is_some, if◌then◌else◌,
}
use rust_dlopen.Common.Maybe.{find_first}
use rust_dlopen.Debugger.{Ptr, null, Contents, LinkMap}

abbrev pub word : ℕ
word = 2 ^ 64

-- `wrapping_sub`
abbrev pub wrapping_sub : ℕ → ℕ → ℕ
wrapping_sub a b = (a + word - b % word) % word

-- `ElfDyn`
pub record ElfDyn : Type 0 where
  pub tag : ℕ
  pub value : ℕ

-- `ElfPhdr`, as far as the code reads it.
pub record ElfPhdr : Type 0 where
  pub p_type : ℕ
  pub p_offset : ℕ
  pub p_vaddr : ℕ
  pub p_memsz : ℕ

-- `ElfHeader`, as far as the code reads it.
pub record ElfHeader : Type 0 where
  pub e_phoff : ℕ
  pub e_phnum : ℕ
  pub e_entry : ℕ

-- The memory of the process.
pub record Image : Type 0 where
  pub header_at : ℕ → ElfHeader
  pub phdrs_at : ℕ → ℕ → List ElfPhdr
  pub dyn_at : ℕ → ElfDyn
  pub debug_version_at : ℕ → ℕ

abbrev pub pt_load : ℕ
pt_load = 1

abbrev pub pt_dynamic : ℕ
pt_dynamic = 2

abbrev pub pt_phdr : ℕ
pt_phdr = 6

abbrev pub pt_tls : ℕ
pt_tls = 7

abbrev pub dt_null : ℕ
dt_null = 0

abbrev pub dt_debug : ℕ
dt_debug = 21

-- DT_ADDR_TAGS: PLTGOT, HASH, STRTAB, SYMTAB, RELA, INIT, FINI, REL, JMPREL, INIT_ARRAY,
-- FINI_ARRAY, RELR, GNU_HASH, GNU_LIBLIST, RELACOUNT, VERSYM, VERDEF, VERNEED.
abbrev pub dt_addr_tags : List ℕ
dt_addr_tags =
    3 ∷ 4 ∷ 5 ∷ 6 ∷ 7 ∷ 12 ∷ 13 ∷ 17 ∷ 23 ∷ 25 ∷ 26 ∷ 36 ∷ 0x6ffffef5 ∷ 0x6ffffef9 ∷ 0x6ffffff9
    ∷ 0x6ffffff0 ∷ 0x6ffffffc ∷ 0x6ffffffe ∷ []

-- `slice.contains(&n)`
unfoldable pub contains_number : ℕ → List ℕ → Bool
contains_number n [] = false
contains_number n (x ∷ xs) = n == x || contains_number n xs

-- `usize::from_ne_bytes` on a little-endian machine.
unfoldable pub from_bytes : List ℕ → ℕ
from_bytes [] = 0
from_bytes (b ∷ bs) = b + 256 * from_bytes bs

-- The loop of `get_auxv` over the chunks of 16 bytes; what is left at the end is no chunk.
unfoldable pub scan_auxv : ℕ → List ℕ → ℕ
unfolding from_bytes
scan_auxv target (a ∷ b ∷ c ∷ d ∷ e ∷ f ∷ g ∷ h ∷ i ∷ j ∷ k ∷ l ∷ m ∷ n ∷ o ∷ p ∷ rest) =
    let type_ = from_bytes (a ∷ b ∷ c ∷ d ∷ e ∷ f ∷ g ∷ h ∷ []) in
    let val = from_bytes (i ∷ j ∷ k ∷ l ∷ m ∷ n ∷ o ∷ p ∷ []) in
    let later = scan_auxv target rest in
    if type_ == target then val else if type_ == 0 then 0 else later
scan_auxv target _ = 0

-- `get_auxv`, on what reading /proc/self/auxv gives.
unfoldable pub get_auxv : Option (List ℕ) → ℕ → ℕ
unfolding scan_auxv
get_auxv none target = 0
get_auxv (some bytes) target = scan_auxv target bytes

-- The first loop of `find_r_debug`: the last PT_PHDR and the last PT_DYNAMIC.
unfoldable pub scan_phdrs : ℕ → List ElfPhdr → Option ℕ → Option ElfPhdr → Option ℕ × Option ElfPhdr
scan_phdrs phdr_addr [] load_bias dynamic_phdr = (load_bias, dynamic_phdr)
scan_phdrs phdr_addr (ph ∷ phs) load_bias dynamic_phdr =
    scan_phdrs phdr_addr phs
      (if ph.p_type == pt_phdr then some (wrapping_sub phdr_addr ph.p_vaddr) else load_bias)
      (if ph.p_type == pt_phdr
        then dynamic_phdr
        else if ph.p_type == pt_dynamic
        then some ph
        else dynamic_phdr)

-- The load bias, or what the first segment of the file says of it.
unfoldable pub load_bias_of : ℕ → List ElfPhdr → Option ℕ → Option ℕ
load_bias_of phdr_addr phdrs (some bias) = some bias
load_bias_of phdr_addr phdrs none =
    Option.map (λ ph. wrapping_sub phdr_addr ((ph.p_vaddr + 64) % word))
      (find_first (λ ph. ph.p_type == pt_load && ph.p_offset == 0) phdrs)

module _ (image : Image) where
  -- `find_debug_in_dynamic`; an entry has 16 bytes. `none` when the fuel runs out.
  unfoldable pub find_debug_in_dynamic : ℕ → ℕ → Option Ptr
  find_debug_in_dynamic zero dynamic = none
  find_debug_in_dynamic (suc fuel) dynamic =
      let entry = image.dyn_at dynamic in
      let later = find_debug_in_dynamic fuel (dynamic + 16) in
      if dynamic == null
      then some null
      else if entry.tag == dt_null
      then some null
      else if entry.tag == dt_debug
          && not (entry.value == null)
          && not (image.debug_version_at entry.value == 0)
      then some entry.value
      else later

  -- The search in the interpreter, if there is one.
  unfoldable pub find_in_interpreter : ℕ → ℕ → Option Ptr
  unfolding find_debug_in_dynamic
  find_in_interpreter fuel interpreter_base =
      if interpreter_base == 0
      then some null
      else (let ehdr = image.header_at interpreter_base in
          let phdrs = image.phdrs_at ((interpreter_base + ehdr.e_phoff) % word) ehdr.e_phnum in
          elim (find_first (λ ph. ph.p_type == pt_dynamic) phdrs) [
            | none ↦ some null
            | some ph ↦ find_debug_in_dynamic fuel ((interpreter_base + ph.p_vaddr) % word)
          ])

  abbrev or_interpreter : Option Ptr → Option Ptr → Option Ptr
  or_interpreter none later = none
  or_interpreter (some ptr) later = if ptr == null then later else some ptr

  unfoldable pub find_r_debug : ℕ → ℕ → ℕ → ℕ → Option Ptr
  unfolding scan_phdrs load_bias_of find_debug_in_dynamic find_in_interpreter
  find_r_debug fuel phdr_addr phnum interpreter_base =
      if phdr_addr == 0 || phnum == 0
      then some null
      else (let phdrs = image.phdrs_at phdr_addr phnum in
          let (load_bias, dynamic_phdr) = scan_phdrs phdr_addr phdrs none none in
          let interpreter = find_in_interpreter fuel interpreter_base in
          elim (load_bias_of phdr_addr phdrs load_bias) [
            | none ↦ interpreter
            | some bias ↦ elim dynamic_phdr [
              | none ↦ interpreter
              | some ph ↦
                  or_interpreter (find_debug_in_dynamic fuel ((bias + ph.p_vaddr) % word))
                    interpreter
            ]
          ])

  -- The entries up to DT_NULL and with it, as `recover_dynamic_table` copies them.
  unfoldable pub copy_entries : ℕ → ℕ → Option (List ElfDyn)
  copy_entries zero dynamic = none
  copy_entries (suc fuel) dynamic =
      let entry = image.dyn_at dynamic in
      let later = Option.map (λ rest. entry ∷ rest) (copy_entries fuel (dynamic + 16)) in
      if entry.tag == dt_null then some (entry ∷ []) else later

-- The body of the second loop of `recover_dynamic_table`.
unfoldable pub recover_entry : ℕ → ElfDyn → ElfDyn
recover_entry base entry =
    if contains_number entry.tag dt_addr_tags && ltb base entry.value
    then record entry { value = entry.value - base }
    else entry

module _ (image : Image) where
  unfoldable pub recover_dynamic_table : ℕ → ℕ → ℕ → Option (List ElfDyn)
  unfolding copy_entries recover_entry
  recover_dynamic_table fuel dynamic base =
      Option.map (map (recover_entry base)) (copy_entries image fuel dynamic)

  -- The end of the last segment.
  unfoldable pub memory_end : List ElfPhdr → ℕ
  memory_end [] = 0
  memory_end (ph ∷ phs) =
      if ph.p_type == pt_load
      then max ((ph.p_vaddr + ph.p_memsz) % word) (memory_end phs)
      else memory_end phs

  unfoldable pub get_phdrs_and_len : ℕ → Option (List ElfPhdr) → List ElfPhdr × ℕ
  unfolding memory_end
  get_phdrs_and_len base (some extra) = (extra, memory_end extra)
  get_phdrs_and_len base none =
      let ehdr = image.header_at base in
      let phdrs = image.phdrs_at ((base + ehdr.e_phoff) % word) ehdr.e_phnum in
      (phdrs, memory_end phdrs)

-- What `from_raw` hands to the ELF loader for a library of the process.
pub record HostLibrary : Type 0 where
  pub link_map : LinkMap
  pub phdrs : List ElfPhdr
  pub len : ℕ
  pub dynamic_table : Option (List ElfDyn)

-- Where the code's allocations end up: the name, the link map, the headers, and the table.
pub record Allocations : Type 0 where
  pub c_name : Ptr
  pub link_map_box : Ptr
  pub phdr_vector : Ptr
  pub table_box : Ptr

-- The first PT_DYNAMIC gets an address.
unfoldable pub redirect_dynamic : ℕ → List ElfPhdr → List ElfPhdr
redirect_dynamic vaddr [] = []
redirect_dynamic vaddr (ph ∷ phs) =
    if ph.p_type == pt_dynamic
    then record ph { p_vaddr = vaddr } ∷ phs
    else ph ∷ redirect_dynamic vaddr phs

-- `use_phdrs.retain(..)`
unfoldable pub without_tls : List ElfPhdr → List ElfPhdr
without_tls [] = []
without_tls (ph ∷ phs) =
    let rest = without_tls phs in if ph.p_type == pt_tls then rest else ph ∷ rest

unfoldable pub page_aligned : ℕ → ℕ
page_aligned len = (len + 4095) % word / 4096 * 4096

-- The link map, as far as it is known before the headers: that of the system, or a new one.
abbrev pub first_contents : ℕ → ℕ → Option LinkMap → Contents
first_contents base dynamic (some host) = host.contents
first_contents base dynamic none = record {
  l_addr = base;
  l_name = null;
  l_ld = dynamic;
  l_phdr = null;
  l_entry = 0;
  l_phnum = 0;
}

abbrev pub redirected : ℕ → Allocations → Option (List ElfDyn) → List ElfPhdr → List ElfPhdr
redirected base at none phdrs = phdrs
redirected base at (some table) phdrs = redirect_dynamic (wrapping_sub at.table_box base) phdrs

module _ (image : Image) (fuel : ℕ) (at : Allocations) where
  -- The part of `from_raw` behind the dynamic table.
  unfoldable pub host_library :
      ℕ → ℕ → Option (List ElfPhdr) → Bool → Option LinkMap → Option (List ElfDyn) → HostLibrary
  unfolding get_phdrs_and_len redirect_dynamic without_tls page_aligned
  host_library base dynamic extra has_tls host table =
      let (phdrs, len) = get_phdrs_and_len image base extra in
      let with_table = redirected base at table phdrs in
      let use_phdrs = if has_tls then with_table else without_tls with_table in
      record {
        link_map = record {
          contents = record (first_contents base dynamic host) {
            l_name = at.c_name;
            l_phdr = if length use_phdrs == 0 then null else at.phdr_vector;
            l_entry = ((image.header_at base).e_entry + base) % word;
            l_phnum = min (length use_phdrs) 65535;
          };
          l_next = null;
          l_prev = null;
          l_real = at.link_map_box;
        };
        phdrs = use_phdrs;
        len = page_aligned len;
        dynamic_table = table;
      }

  -- `from_raw` up to the call of the ELF loader: nothing if there is no dynamic section. The table
  -- is left as it is for the vDSO and under musl. `none` when the fuel runs out.
  unfoldable pub from_raw :
      Bool
      → Bool
      → ℕ
      → ℕ
      → Option (List ElfPhdr)
      → Bool
      → Option LinkMap
      → Option (Option HostLibrary)
  unfolding recover_dynamic_table host_library
  from_raw is_vdso is_musl base dynamic extra has_tls host =
      if dynamic == null
      then some none
      else if is_vdso || is_musl
      then some (some (host_library base dynamic extra has_tls host none))
      else Option.map (λ table. some (host_library base dynamic extra has_tls host (some table)))
          (recover_dynamic_table image fuel dynamic base)
