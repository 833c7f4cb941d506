-- ===== src/Names.antt =====
-- src/core_impl/loader.rs and src/core_impl/register.rs: the names of libraries, and the flags and
-- aliases that a name brings with it. `str::contains`, `rsplit` and `is_empty` are Rust's own.
pub mod Laws
use Prim.Native.Char.{code}
use text.Mathlib.Text.{starts_with}
use rust_dlopen.Common.{String, Bool, true, false, ◌||◌, List, [], ◌∷◌, ◌==◌, if◌then◌else◌}
use rust_dlopen.Common.Eq.{str_eq}
use rust_dlopen.Flags.{OpenFlags, join, rtld_nodelete}

-- `text.contains(piece)`
unfoldable pub str_contains : String → String → Bool
str_contains String.[] piece = str_eq piece ""
str_contains (String.◌∷◌ c s) piece = starts_with (String.◌∷◌ c s) piece || str_contains s piece

-- What follows the last separator of `s`, or `best` if `s` has none.
unfoldable pub after_separator : String → String → String
after_separator best String.[] = best
after_separator best (String.◌∷◌ c s) =
    after_separator (if code c == b'/' || code c == 92 then s else best) s

-- `shortname_from_name`: "main" for the program itself, else the last component of the path.
unfoldable pub shortname_from_name : String → String
unfolding after_separator
shortname_from_name name = if str_eq name "" then "main" else after_separator name name

-- `normalized_flags`: the C library and the dynamic linker are never unloaded.
unfoldable pub normalized_flags : String → OpenFlags → OpenFlags
normalized_flags name flags =
    if str_contains name "libc"
      || str_contains name "libpthread"
      || str_contains name "libdl"
      || str_contains name "libgcc_s"
      || str_contains name "ld-linux"
      || str_contains name "ld-musl"
    then join flags rtld_nodelete
    else flags

-- `libc_compat_aliases`: the names that the C library answers to besides its own.
unfoldable pub libc_compat_aliases : String → List String
libc_compat_aliases shortname =
    if str_eq shortname "libc.so.6"
    then "libdl.so.2" ∷ "libpthread.so.0" ∷ "libutil.so.1" ∷ "librt.so.1" ∷ "libanl.so.1" ∷ []
    else if str_eq shortname "ld-linux-x86-64.so.2"
    then "ld-linux.so.2" ∷ []
    else []
