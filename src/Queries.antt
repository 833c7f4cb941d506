-- ===== src/Queries.antt =====
-- Queries on loaded objects: src/api/dladdr.rs, src/api/dl_find_object.rs and
-- src/api/dl_iterate_phdr.rs. The tables of a library are read by the ELF loader, and parameters.
pub mod Laws
use Prim.Native.Nat.{◌^◌}
use rust_dlopen.Common.{
  ℕ, ◌+◌, ◌%◌, String, Bool, not, ◌&&◌, ◌||◌, Option, none, some, List, [], ◌∷◌, ◌==◌, ltb, leb,
  length, if◌then◌else◌,
}
use rust_dlopen.Common.Maybe.{find_first}
use rust_dlopen.Registry.Types.{LoadedDylib, ElfLibrary}
use rust_dlopen.Registry.LinkContext.{LinkContext}
use rust_dlopen.Registry.State.{Manager}
use rust_dlopen.Registry.Lookup.{all_values}
use rust_dlopen.Registry.Symbols.{addr2dso}
use rust_dlopen.HostInit.{ElfPhdr}

-- A symbol of a library, as far as `dladdr` reads it.
pub record ElfSymbol : Type 0 where
  pub st_value : ℕ
  pub st_size : ℕ
  pub is_ok_bind : Bool
  pub is_ok_type : Bool
  pub cname : Option String

-- `DlInfo`
pub record DlInfo : Type 0 where
  pub dylib : ElfLibrary
  pub sname : Option String
  pub saddr : ℕ

-- Where a symbol of a library at `base` starts.
abbrev pub start_of : ℕ → ElfSymbol → ℕ
start_of base sym = (base + sym.st_value) % 2 ^ 64

-- The two guards of the loop: the symbol has an address, and it overlaps `addr`.
abbrev pub overlaps : ℕ → ℕ → ElfSymbol → Bool
overlaps addr base sym =
    not (sym.st_value == 0 || not sym.is_ok_bind || not sym.is_ok_type)
    && leb (start_of base sym) addr
    && (sym.st_size == 0 || ltb addr ((start_of base sym + sym.st_size) % 2 ^ 64))

abbrev pub is_better : ℕ → Option (ℕ × String) → Bool
is_better start none = Bool.true
is_better start (some (best_start, name)) = ltb best_start start

abbrev pub take_name : ℕ → Option String → Option (ℕ × String) → Option (ℕ × String)
take_name start none best = best
take_name start (some name) best = some (start, name)

-- The body of the loop.
unfoldable pub consider : ℕ → ℕ → ElfSymbol → Option (ℕ × String) → Option (ℕ × String)
consider addr base sym best =
    if overlaps addr base sym && is_better (start_of base sym) best
    then take_name (start_of base sym) sym.cname best
    else best

-- The loop over the symbol table, from the best match so far.
unfoldable pub best_match : ℕ → ℕ → List ElfSymbol → Option (ℕ × String) → Option (ℕ × String)
unfolding consider
best_match addr base [] best = best
best_match addr base (sym ∷ syms) best = best_match addr base syms (consider addr base sym best)

-- What is stored of the best match.
abbrev pub info_of : ElfLibrary → Option (ℕ × String) → DlInfo
info_of dylib none = record { dylib = dylib; sname = none; saddr = 0 }
info_of dylib (some (start, name)) = record { dylib = dylib; sname = some name; saddr = start }

-- `DlInfo::symbol_addr`
unfoldable pub symbol_addr : DlInfo → Option ℕ
symbol_addr info = if info.saddr == 0 then none else some info.saddr

module _ (L : LinkContext) (symtab : LoadedDylib → List ElfSymbol) where
  -- `ElfLibrary::dladdr`
  unfoldable pub dladdr : Manager L → ℕ → Option DlInfo
  unfolding best_match
  dladdr m addr = elim (addr2dso L m addr) [
    | none ↦ none
    | some dylib ↦ some (info_of dylib (best_match addr dylib.inner.base (symtab dylib.inner) none))
  ]

abbrev pub pt_gnu_eh_frame : ℕ
pt_gnu_eh_frame = 0x6474e550

-- `DlFindObject`, less the reserved words, which are all zero.
pub record DlFindObject : Type 0 where
  pub dlfo_flags : ℕ
  pub dlfo_map_start : ℕ
  pub dlfo_map_end : ℕ
  pub dlfo_link_map : ℕ
  pub dlfo_eh_frame : ℕ

-- `lib.phdrs().unwrap_or(&[])`
abbrev phdrs_or_empty : (LoadedDylib → Option (List ElfPhdr)) → LoadedDylib → List ElfPhdr
phdrs_or_empty phdrs_of lib = elim (phdrs_of lib) [ none ↦ [] | some xs ↦ xs ]

module _ (L : LinkContext) (phdrs_of : LoadedDylib → Option (List ElfPhdr))
    (link_map : LoadedDylib → Option ℕ) where
  abbrev link_map_or_null : LoadedDylib → ℕ
  link_map_or_null lib = elim (link_map lib) [ none ↦ 0 | some p ↦ p ]

  -- What `dl_find_object` writes; `none` where it returns -1.
  unfoldable pub dl_find_object : Manager L → ℕ → Option DlFindObject
  unfolding find_first
  dl_find_object m pc = elim (addr2dso L m pc) [
    | none ↦ none
    | some dso ↦ some (record {
      dlfo_flags = 0;
      dlfo_map_start = dso.inner.base;
      dlfo_map_end = (dso.inner.base + dso.inner.mapped_len) % 2 ^ 64;
      dlfo_link_map = link_map_or_null dso.inner;
      dlfo_eh_frame =
          elim (find_first (λ p. p.p_type == pt_gnu_eh_frame) (phdrs_or_empty phdrs_of dso.inner)) [
            | none ↦ 0
            | some p ↦ (dso.inner.base + p.p_vaddr) % 2 ^ 64
          ];
    })
  ]

  unfoldable pub dl_find_dso_for_object : Manager L → ℕ → ℕ
  dl_find_dso_for_object m addr = elim (addr2dso L m addr) [
    | none ↦ 0
    | some dso ↦ link_map_or_null dso.inner
  ]

-- `DlPhdrInfo`, less the module of the static TLS, which the ELF loader knows.
pub record DlPhdrInfo : Type 0 where
  pub lib_base : ℕ
  pub lib_name : String
  pub phdrs : List ElfPhdr
  pub dlpi_adds : ℕ
  pub dlpi_subs : ℕ

module _ {ℓ} {S : Type ℓ} (phdrs_of : LoadedDylib → Option (List ElfPhdr))
    (c_name_of : LoadedDylib → Option String) (callback : DlPhdrInfo → S → ℕ × S) where
  -- The loop of `ElfLibrary::dl_iterate_phdr` under the callback of the C function: it stops at the
  -- first answer that is not 0, and answers it.
  unfoldable pub iterate_over : ℕ → ℕ → List LoadedDylib → S → ℕ × S
  iterate_over adds subs [] state = (0, state)
  iterate_over adds subs (lib ∷ libs) state =
      let headers = phdrs_or_empty phdrs_of lib in
      let (ret, next) =
        callback
          (record {
            lib_base = lib.base;
            lib_name = elim (c_name_of lib) [ none ↦ "" | some n ↦ n ];
            phdrs = headers;
            dlpi_adds = adds;
            dlpi_subs = subs;
          })
          state in
      let skipped = iterate_over adds subs libs state in
      let rest = iterate_over adds subs libs next in
      if length headers == 0 then skipped else if ret == 0 then rest else (ret, next)

  unfoldable pub dl_iterate_phdr : (L : LinkContext) → Manager L → S → ℕ × S
  unfolding iterate_over
  dl_iterate_phdr L m state = iterate_over m.adds m.subs (all_values L m) state
