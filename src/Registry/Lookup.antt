-- ===== src/Registry/Lookup.antt =====
-- The reads of `Manager` in src/core_impl/register.rs.
use mathlib.Core.Option
use rust_dlopen.Common.{
  String, Bool, false, ◌||◌, Option, none, some, List, [], ◌∷◌, ◌++◌, map, is_some, or_else,
  if◌then◌else◌,
}
use rust_dlopen.Common.Assoc
use rust_dlopen.Common.Eq.{string_eq}
use rust_dlopen.Common.Maybe.{◌>>=◌, filter_map, elem}
use rust_dlopen.Flags.{OpenFlags, is_deepbind}
use rust_dlopen.Registry.Types.{
  FileIdentity, LoadedDylib, LibraryLookup, pending, relocated, lookup_shortname, shortname,
  ElfLibrary, identity_eq,
}
use rust_dlopen.Registry.LinkContext.{LinkContext, committed}
use rust_dlopen.Registry.State.{Manager}

-- The loop of `relocation_scope`: each short name once, in the order of arrival.
unfoldable pub push_unique : List String → List LoadedDylib → List LoadedDylib
push_unique seen [] = []
push_unique seen (lib ∷ libs) =
    let skipped = push_unique seen libs in
    let pushed = lib ∷ push_unique (shortname lib ∷ seen) libs in
    if elem (shortname lib) seen then skipped else pushed

module _ (L : LinkContext) where
  unfoldable pub committed_id : Manager L → String → Option L.KeyId
  unfolding committed
  committed_id m key = committed L m.link_ctx key

  unfoldable pub contains_canonical_key : Manager L → String → Bool
  unfolding committed_id
  contains_canonical_key m key = Assoc.contains_key key m.pending || is_some (committed_id m key)

  unfoldable pub committed_lookup : Manager L → String → Option LibraryLookup
  unfolding committed_id
  committed_lookup m key = do
    id ← committed_id m key
    inner ← L.get m.link_ctx id
    some (relocated key inner.name)

  unfoldable pub pending_lookup : Manager L → String → Option LibraryLookup
  pending_lookup m key = Option.map (λ _. pending key) (Assoc.lookup key m.pending)

  unfoldable pub lookup : Manager L → String → Option LibraryLookup
  unfolding committed_lookup pending_lookup
  lookup m name = or_else (committed_lookup m name) (
      or_else (pending_lookup m name) (do
        canonical ← Assoc.lookup name m.aliases
        or_else (committed_lookup m canonical) (pending_lookup m canonical)))

  unfoldable pub canonical_name_owned : Manager L → String → Option String
  unfolding lookup lookup_shortname
  canonical_name_owned m name = Option.map lookup_shortname (lookup m name)

  -- The flags under a canonical name, among the committed and the pending libraries.
  unfoldable pub committed_flags : Manager L → String → Option OpenFlags
  unfolding committed_id
  committed_flags m name = do id ← committed_id m name; x ← L.meta m.link_ctx id; some x.flags

  unfoldable pub pending_flags : Manager L → String → Option OpenFlags
  pending_flags m name = Option.map (λ p. p.flags) (Assoc.lookup name m.pending)

  unfoldable pub flags : Manager L → String → Option OpenFlags
  unfolding committed_flags pending_flags
  flags m name = or_else (committed_flags m name) (
      or_else (pending_flags m name) (do
        canonical ← Assoc.lookup name m.aliases
        or_else (committed_flags m canonical) (pending_flags m canonical)))

  unfoldable pub all_values : Manager L → List LoadedDylib
  unfolding filter_map
  all_values m = filter_map (L.get m.link_ctx) (L.load_order m.link_ctx)

  unfoldable pub global_values : Manager L → List LoadedDylib
  global_values m = map (λ e. e.1) m.global

  unfoldable pub lookup_by_identity : Manager L → FileIdentity → Option LibraryLookup
  unfolding lookup
  lookup_by_identity m identity = do name ← Assoc.lookup identity m.identities; lookup m name

  unfoldable pub library_scope_by_id : Manager L → L.KeyId → Option (List LoadedDylib)
  library_scope_by_id m id = elim (L.dependency_modules m.link_ctx id) [
    | [] ↦ (do entry ← L.get m.link_ctx id; some (entry ∷ []))
    | lib ∷ libs ↦ some (lib ∷ libs)
  ]

  unfoldable pub library_scope : Manager L → String → Option (List LoadedDylib)
  unfolding canonical_name_owned committed_id library_scope_by_id
  library_scope m name = do
    canonical ← canonical_name_owned m name
    id ← committed_id m canonical
    library_scope_by_id m id

  unfoldable pub main_library : Manager L → Option ElfLibrary
  unfolding library_scope_by_id
  main_library m = elim (L.load_order m.link_ctx) [
    | [] ↦ none
    | id ∷ _ ↦ (do
      lib ← L.get m.link_ctx id
      deps ← library_scope_by_id m id
      some (record { inner = lib; deps = some deps }))
  ]

  unfoldable pub get_lib : Manager L → String → Option ElfLibrary
  unfolding canonical_name_owned committed_id library_scope_by_id
  get_lib m name = do
    canonical ← canonical_name_owned m name
    id ← committed_id m canonical
    deps ← library_scope_by_id m id
    inner ← L.get m.link_ctx id
    some (record { inner = inner; deps = some deps })

  -- The loop of `canonical_direct_deps` over the needed names that are left.
  unfoldable pub canonical_deps_from : Manager L → List String → List String → List String
  unfolding canonical_name_owned elem
  canonical_deps_from m seen [] = []
  canonical_deps_from m seen (needed ∷ rest) = elim (canonical_name_owned m needed) [
    | none ↦ canonical_deps_from m seen rest
    | some s ↦
        let skipped = canonical_deps_from m seen rest in
        let pushed = s ∷ canonical_deps_from m (s ∷ seen) rest in
        if elem s seen then skipped else pushed
  ]

  unfoldable pub canonical_direct_deps : Manager L → LoadedDylib → List String
  unfolding canonical_deps_from
  canonical_direct_deps m lib = canonical_deps_from m [] lib.needed_libs

  unfoldable pub relocation_scope : Manager L → List LoadedDylib → OpenFlags → List LoadedDylib
  unfolding push_unique global_values
  relocation_scope m group_scope flags =
      if is_deepbind flags
      then push_unique [] (group_scope ++ global_values m)
      else push_unique [] (global_values m ++ group_scope)

  unfoldable pub visible_contains : Manager L → String → Bool
  unfolding canonical_name_owned
  visible_contains m name = elim (canonical_name_owned m name) [
    | none ↦ false
    | some canonical ↦ L.contains_key m.link_ctx canonical
  ]

  unfoldable pub visible_loaded : Manager L → String → Option LoadedDylib
  unfolding canonical_name_owned committed_id
  visible_loaded m name = do
    canonical ← canonical_name_owned m name
    or_else (do id ← committed_id m canonical; L.get m.link_ctx id)
        (do lib ← Assoc.lookup canonical m.pending; lib.inner)
