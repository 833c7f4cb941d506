-- ===== src/Registry/Types.antt =====
-- src/core_impl/types.rs and the entries of src/core_impl/register.rs.
-- A loaded library is the loader's value; the model keeps what the code reads of it.
use rust_dlopen.Common.{
  ℕ, String, ◌≡◌, ◌↔◌, Bool, true, false, ◌&&◌, Option, none, some, List, [], ◌==◌, arith,
}
use rust_dlopen.Common.Eq.{Eq}
use rust_dlopen.Flags.{OpenFlags, no_flags}
use rust_dlopen.Names.{shortname_from_name}

-- `FileIdentity`
pub record FileIdentity : Type 0 where
  pub dev : ℕ
  pub ino : ℕ

abbrev pub identity_beq : FileIdentity → FileIdentity → Bool
identity_beq a b = a.dev == b.dev && a.ino == b.ino

pub identity_beq_iff : (a b : FileIdentity) → (identity_beq a b ≡ true) ↔ (a ≡ b)
identity_beq_iff a b = ground arith

instance abbrev pub identity_eq : Eq FileIdentity
identity_eq = record { beq = identity_beq; beq_iff = identity_beq_iff }

-- `LoadedDylib`: what its accessors answer. `get` is the address of a symbol that it defines.
pub record LoadedDylib : Type 0 where
  pub name : String
  pub base : ℕ
  pub mapped_len : ℕ
  pub needed_libs : List String
  pub file_identity : Option FileIdentity
  pub get : String → Option ℕ

-- `DylibExt::shortname`
unfoldable pub shortname : LoadedDylib → String
shortname lib = shortname_from_name lib.name

-- `PendingDylib`; its field `inner` is the loaded library, if there is one yet.
pub record PendingDylib : Type 0 where
  pub inner : Option LoadedDylib
  pub flags : OpenFlags
  pub libnames : List String

-- `PendingDylib::reserved`
unfoldable pub reserved : OpenFlags → PendingDylib
reserved flags = record { inner = none; flags = flags; libnames = [] }

-- `GlobalMeta`
pub record GlobalMeta : Type 0 where
  pub flags : OpenFlags
  pub libnames : List String

-- `GlobalMeta::default`
abbrev pub default_meta : GlobalMeta
default_meta = record { flags = no_flags; libnames = [] }

-- `LibraryLookup`
pub data LibraryLookup : Type 0 where
  pending : String → LibraryLookup
  relocated : String → String → LibraryLookup

unfoldable pub is_relocated : LibraryLookup → Bool
is_relocated (pending s) = false
is_relocated (relocated s n) = true

-- `LibraryLookup::shortname` and `into_shortname_owned`
unfoldable pub lookup_shortname : LibraryLookup → String
lookup_shortname (pending s) = s
lookup_shortname (relocated s n) = s

-- `LibraryLookup::name`
unfoldable pub lookup_name : LibraryLookup → Option String
lookup_name (pending s) = none
lookup_name (relocated s n) = some n

-- `ElfLibrary`
pub record ElfLibrary : Type 0 where
  pub inner : LoadedDylib
  pub deps : Option (List LoadedDylib)
