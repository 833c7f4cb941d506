-- ===== src/Dlopen.antt =====
-- Opening a library: src/api/dlopen.rs. The names that an operation has reserved are a list in the
-- order of the code's sorted set.
pub mod Alone
pub mod Link
pub mod Operation
pub mod Paths
pub mod Platform
pub mod Resolver
pub mod Rollback
pub mod Waiting
use rust_dlopen.Common.{
  String, Bool, true, false, ◌||◌, Option, none, some, List, [], ◌∷◌, is_some, if◌then◌else◌,
}
use rust_dlopen.Common.Maybe.{elem}
use rust_dlopen.Common.Outcome.{Outcome, done, ◌>>=◌}
use rust_dlopen.Flags.{OpenFlags, rtld_now, join}
use rust_dlopen.Registry.Types.{LibraryLookup, is_relocated, lookup_shortname}
use rust_dlopen.Registry.LinkContext.{LinkContext}
use rust_dlopen.Registry.State.{Manager}
use rust_dlopen.Registry.Update.{remove}

-- `OpenContext::new`: the flags of the operation, given whether LD_BIND_NOW is set.
unfoldable pub operation_flags : Bool → OpenFlags → OpenFlags
operation_flags bind_now flags = if bind_now then join flags rtld_now else flags

-- What the caller may use: a relocated library, or one that this operation has reserved itself.
unfoldable pub is_usable : Option (List String) → LibraryLookup → Bool
unfolding is_relocated lookup_shortname
is_usable none lib = is_relocated lib
is_usable (some names) lib = is_relocated lib || elem (lookup_shortname lib) names

module _ (debug : Bool) (L : LinkContext) where
  -- `remove_added_libraries`
  unfoldable pub remove_added_libraries : List String → Manager L → Outcome (Manager L)
  remove_added_libraries [] m = done m
  remove_added_libraries (name ∷ names) m = do
    m' ← remove debug L name m
    remove_added_libraries names m'

  -- `Drop for OpenContext`
  unfoldable pub drop_context : Bool → List String → Manager L → Outcome (Manager L)
  unfolding remove_added_libraries
  drop_context committed added_names m =
      if committed then done m else remove_added_libraries added_names m
