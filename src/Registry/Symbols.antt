-- ===== src/Registry/Symbols.antt =====
-- Symbol and address lookup: `find_symbol` of src/core_impl/loader.rs, `global_find`, `next_find`
-- and `addr2dso` of src/core_impl/register.rs, and their callers in src/api/dlsym.rs.
pub mod Laws
use Prim.Native.Nat.{◌^◌}
use rust_dlopen.Common.{
  ℕ, ◌+◌, ◌-◌, ◌%◌, String, Bool, ◌&&◌, Option, none, some, List, ◌==◌, ltb, leb, if◌then◌else◌,
}
use rust_dlopen.Common.Maybe.{◌>>=◌, find_map, find_first, after_first}
use rust_dlopen.Registry.Types.{LoadedDylib, ElfLibrary, shortname}
use rust_dlopen.Registry.LinkContext.{LinkContext}
use rust_dlopen.Registry.State.{Manager}
use rust_dlopen.Registry.Lookup.{all_values, global_values, library_scope}

-- `(start..end).contains(&addr)` for the range that a library is mapped at.
unfoldable pub covers : ℕ → LoadedDylib → Bool
covers addr lib = leb lib.base addr && ltb addr ((lib.base + lib.mapped_len) % 2 ^ 64)

-- `find_symbol`: the first library of the scope that defines the symbol.
unfoldable pub find_symbol : List LoadedDylib → String → Option ℕ
unfolding find_map
find_symbol libs name = find_map (λ lib. lib.get name) libs

module _ (L : LinkContext) where
  unfoldable pub global_find : Manager L → String → Option ℕ
  unfolding find_map
  global_find m name = find_map (λ lib. lib.get name) (global_values L m)

  unfoldable pub next_find : Manager L → ℕ → String → Option ℕ
  unfolding find_map after_first
  next_find m addr name = do
    rest ← after_first (covers addr) (all_values L m)
    find_map (λ lib. lib.get name) rest

  unfoldable pub addr2dso : Manager L → ℕ → Option ElfLibrary
  unfolding find_first covers
  addr2dso m addr = do
    entry ← find_first (covers addr) (all_values L m)
    deps ← library_scope L m (shortname entry)
    some (record { inner = entry; deps = some deps })

  abbrev pub rtld_default : ℕ
  rtld_default = 0

  -- `usize::MAX`
  abbrev pub rtld_next : ℕ
  rtld_next = 2 ^ 64 - 1

  abbrev pub or_null : Option ℕ → ℕ
  or_null none = 0
  or_null (some p) = p

  -- `dlsym`: `caller` is the return address, and `libs` the scope of the library behind the
  -- handle, where it is one.
  unfoldable pub dlsym : Manager L → ℕ → ℕ → List LoadedDylib → String → ℕ
  unfolding global_find next_find find_symbol
  dlsym m caller value libs name =
      if value == rtld_default
      then or_null (global_find m name)
      else if value == rtld_next
      then or_null (next_find m caller name)
      else or_null (find_symbol libs name)
