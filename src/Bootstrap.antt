-- ===== src/Bootstrap.antt =====
-- The start of the replacement loader: rtld/impl/src/bootstrap.rs. The initial stack is a memory
-- of words that is indexed from its start; the dynamic table is a list of its entries.
pub mod Laws
use Prim.Native.Nat.{◌^◌}
use rust_dlopen.Common.{
  ℕ, zero, suc, ◌+◌, ◌-◌, ◌*◌, ◌/◌, ◌%◌, Bool, true, false, not, ◌&&◌, ◌||◌, Option, none, some,
  List, [], ◌∷◌, ◌==◌, ltb, leb, if◌then◌else◌,
}
use rust_dlopen.Memory.{Mem, write, copy_up, find_nul}

-- `AuxState`
pub record AuxState : Type 0 where
  pub phdr : ℕ
  pub phent : ℕ
  pub phnum : ℕ
  pub base : ℕ
  pub entry : ℕ
  pub secure : ℕ
  pub pagesize : ℕ
  pub platform : ℕ
  pub hwcap : ℕ
  pub hwcap2 : ℕ
  pub hwcap3 : ℕ
  pub hwcap4 : ℕ
  pub clktck : ℕ
  pub fpucw : ℕ
  pub minsigstacksize : ℕ
  pub sysinfo_ehdr : ℕ

-- `AuxState::empty`
abbrev pub empty_aux : AuxState
empty_aux = record {
  phdr = 0;
  phent = 0;
  phnum = 0;
  base = 0;
  entry = 0;
  secure = 0;
  pagesize = 0;
  platform = 0;
  hwcap = 0;
  hwcap2 = 0;
  hwcap3 = 0;
  hwcap4 = 0;
  clktck = 0;
  fpucw = 0;
  minsigstacksize = 0;
  sysinfo_ehdr = 0;
}

-- One round of `parse_auxv` for a kind that is not AT_NULL.
unfoldable pub store_aux : ℕ → ℕ → AuxState → AuxState
store_aux kind value aux =
    if kind == 3
    then record aux { phdr = value }
    else if kind == 4
    then record aux { phent = value }
    else if kind == 5
    then record aux { phnum = value }
    else if kind == 7
    then record aux { base = value }
    else if kind == 9
    then record aux { entry = value }
    else if kind == 23
    then record aux { secure = value }
    else if kind == 6
    then record aux { pagesize = value }
    else if kind == 15
    then record aux { platform = value }
    else if kind == 16
    then record aux { hwcap = value }
    else if kind == 26
    then record aux { hwcap2 = value }
    else if kind == 29
    then record aux { hwcap3 = value }
    else if kind == 30
    then record aux { hwcap4 = value }
    else if kind == 17
    then record aux { clktck = value }
    else if kind == 18
    then record aux { fpucw = value }
    else if kind == 51
    then record aux { minsigstacksize = value }
    else if kind == 33
    then record aux { sysinfo_ehdr = value }
    else aux

-- The loop of `parse_auxv` from the word `auxp` on, with fuel; `none` when it runs out.
unfoldable pub parse_auxv_from : ℕ → ℕ → AuxState → Mem → Option AuxState
unfolding store_aux
parse_auxv_from zero auxp aux stack = none
parse_auxv_from (suc fuel) auxp aux stack = elim (stack auxp == 0) [
  | true ↦ some aux
  | false ↦ parse_auxv_from fuel (auxp + 2) (store_aux (stack auxp) (stack (auxp + 1)) aux) stack
]

unfoldable pub parse_auxv : ℕ → ℕ → Mem → Option AuxState
unfolding parse_auxv_from
parse_auxv fuel auxp stack = parse_auxv_from fuel auxp empty_aux stack

-- `RelocationTable`
pub record RelocationTable : Type 0 where
  pub offset : ℕ
  pub size : ℕ
  pub entry_size : ℕ

-- `DynamicInfo`
pub record DynamicInfo : Type 0 where
  pub has_needed : Bool
  pub relocations : RelocationTable
  pub relr : ℕ
  pub relrsz : ℕ
  pub relrent : ℕ
  pub jmprel : ℕ
  pub pltrelsz : ℕ

-- `DynamicInfo::empty`; an `ElfRelType` has 24 bytes and a `usize` 8.
abbrev pub empty_info : DynamicInfo
empty_info = record {
  has_needed = false;
  relocations = record { offset = 0; size = 0; entry_size = 24 };
  relr = 0;
  relrsz = 0;
  relrent = 8;
  jmprel = 0;
  pltrelsz = 0;
}

-- One round of `DynamicInfo::parse` for a tag that is not NULL: the tags of x86_64 for NEEDED,
-- RELA, RELASZ, RELAENT, RELR, RELRSZ, RELRENT, JMPREL and PLTRELSZ.
unfoldable pub store_tag : ℕ → ℕ → DynamicInfo → DynamicInfo
store_tag tag value info =
    if tag == 1
    then record info { has_needed = true }
    else if tag == 7
    then record info { relocations = record info.relocations { offset = value } }
    else if tag == 8
    then record info { relocations = record info.relocations { size = value } }
    else if tag == 9 && not (value == 0)
    then record info { relocations = record info.relocations { entry_size = value } }
    else if tag == 36
    then record info { relr = value }
    else if tag == 35
    then record info { relrsz = value }
    else if tag == 37 && not (value == 0)
    then record info { relrent = value }
    else if tag == 23
    then record info { jmprel = value }
    else if tag == 2
    then record info { pltrelsz = value }
    else info

-- The loop of `DynamicInfo::parse` over the entries, tag and value, with the rounds that are left.
unfoldable pub parse_dynamic_from : ℕ → DynamicInfo → List (ℕ × ℕ) → Option DynamicInfo
unfolding store_tag
parse_dynamic_from zero info entries = none
parse_dynamic_from (suc left) info [] = none
parse_dynamic_from (suc left) info ((tag, value) ∷ entries) = elim (tag == 0) [
  | true ↦ some info
  | false ↦ parse_dynamic_from left (store_tag tag value info) entries
]

-- `DynamicInfo::parse`; `none` for a null pointer in place of the table.
unfoldable pub parse_dynamic : Option (List (ℕ × ℕ)) → Option DynamicInfo
unfolding parse_dynamic_from
parse_dynamic none = some empty_info
parse_dynamic (some entries) = parse_dynamic_from 4096 empty_info entries

unfoldable pub can_tail_jump_main : DynamicInfo → Bool
can_tail_jump_main info =
    not info.has_needed
    && info.relocations.size == 0
    && info.relr == 0
    && info.relrsz == 0
    && info.jmprel == 0
    && info.pltrelsz == 0

abbrev pub word_end : ℕ
word_end = 2 ^ 64

-- An entry of the relocation table: its type, its offset and its addend as a word.
pub record Rela : Type 0 where
  pub r_type : ℕ
  pub r_offset : ℕ
  pub r_addend : ℕ

-- `add_signed`: the addend is a word in two's complement.
unfoldable pub add_signed : ℕ → ℕ → ℕ
add_signed base addend =
    if ltb addend (2 ^ 63)
    then (base + addend) % word_end
    else (base + word_end - (word_end - addend) % word_end) % word_end

-- The loop of `apply_relocations`, on a memory of words by their address: R_X86_64_NONE is 0 and
-- R_X86_64_RELATIVE is 8.
unfoldable pub relocate_all : ℕ → List Rela → Mem → Bool × Mem
unfolding add_signed write
relocate_all load_bias [] mem = (true, mem)
relocate_all load_bias (rel ∷ rels) mem = elim (rel.r_type == 0) [
  | true ↦ relocate_all load_bias rels mem
  | false ↦ elim (rel.r_type == 8) [
    | true ↦
        relocate_all load_bias rels
          (write ((load_bias + rel.r_offset) % word_end) (add_signed load_bias rel.r_addend) mem)
    | false ↦ (false, mem)
  ]
]

-- `apply_relocations`; `table_at` reads the entries of a table from memory.
unfoldable pub apply_relocations : (ℕ → ℕ → List Rela) → RelocationTable → ℕ → Mem → Bool × Mem
unfolding relocate_all
apply_relocations table_at table load_bias mem =
    if table.size == 0
    then (true, mem)
    else if table.offset == 0 || not (table.entry_size == 24)
    then (false, mem)
    else if not (table.size % table.entry_size == 0)
    then (false, mem)
    else relocate_all load_bias
        (table_at ((load_bias + table.offset) % word_end) (table.size / table.entry_size)) mem

-- What `rewrite_initial_stack_for_program` returns, as indices of the stack.
pub record RewrittenStack : Type 0 where
  pub argc : ℕ
  pub argv : ℕ
  pub envp : ℕ
  pub auxv : ℕ
  pub exec_path : ℕ

-- The search for the end of the auxiliary vector, with fuel.
unfoldable pub find_at_null : ℕ → ℕ → Mem → ℕ
find_at_null zero auxp stack = auxp
find_at_null (suc fuel) auxp stack =
    let rest = find_at_null fuel (auxp + 2) stack in if stack auxp == 0 then auxp else rest

-- `rewrite_initial_stack_for_program`: the stack starts at index 0, with argc.
unfoldable pub rewrite_initial_stack : ℕ → ℕ → ℕ → ℕ → Mem → RewrittenStack × Mem
unfolding find_at_null find_nul copy_up write
rewrite_initial_stack fuel argc argv_index argv0 stack =
    let new_argc = argc - argv_index in
    let src = 1 + argv_index in
    let old_auxv = find_nul fuel (argc + 2) stack + 1 in
    let old_end = find_at_null fuel old_auxv stack + 2 in
    let moved = write 0 new_argc (copy_up 1 src 0 (old_end - src) stack) in
    let exec_path = moved 1 in
    let named = if argv0 == 0 then moved else write 1 argv0 moved in
    let envp = new_argc + 2 in
    let auxv = find_nul fuel envp named + 1 in
    (record { argc = new_argc; argv = 1; envp = envp; auxv = auxv; exec_path = exec_path }, named)
