-- ===== src/Registry/Unload.antt =====
-- `impl Drop for ElfLibrary` of src/core_impl/register.rs. `strong_count` is the loader's count of
-- references to a library's core, read afresh whenever the code reads it: its first argument is what
-- has been removed until then. The destructors that run at the end are in `Destructors`.
pub mod Laws
use rust_dlopen.Common.{
  ℕ, ◌+◌, String, Bool, true, false, ◌||◌, ◌&&◌, not, Option, none, some, List, [], ◌∷◌, ◌++◌, ◌==◌,
  drop, if◌then◌else◌,
}
use rust_dlopen.Common.Outcome.{Outcome, done, ◌>>=◌, ◌>>◌, debug_assert}
use rust_dlopen.Common.{is_some}
use rust_dlopen.Flags.{OpenFlags, is_global, is_nodelete}
use rust_dlopen.Registry.Types.{LoadedDylib, ElfLibrary, shortname}
use rust_dlopen.Registry.LinkContext.{LinkContext}
use rust_dlopen.Registry.State.{Manager}
use rust_dlopen.Registry.Lookup.{flags}
use rust_dlopen.Registry.Update.{remove}

-- The references that are left when only the registry and one handle hold a library: the link
-- context, the handle itself and its dependency list, and the global scope.
unfoldable pub threshold : OpenFlags → ℕ
threshold f = 3 + (if is_global f then 1 else 0)

abbrev pub Removed : LinkContext → Type 0
Removed L = List LoadedDylib × Manager L

module _ (debug : Bool) (L : LinkContext) (strong_count : List LoadedDylib → LoadedDylib → ℕ) where
  -- Whether a library goes away: it is registered, may be deleted, and nobody else holds it.
  unfoldable pub is_unused : List LoadedDylib → LoadedDylib → Manager L → Bool
  unfolding threshold
  is_unused removed_libs lib m = elim (flags L m (shortname lib)) [
    | none ↦ false
    | some f ↦ not (is_nodelete f) && strong_count removed_libs lib == threshold f
  ]

  -- One round of the loop over the dependencies.
  unfoldable pub drop_dep : LoadedDylib → Removed L → Outcome (Removed L)
  unfolding is_unused
  drop_dep dep (removed_libs, m) =
      if is_unused removed_libs dep m
      then (do m' ← remove debug L (shortname dep) m; done (removed_libs ++ dep ∷ [], m'))
      else done (removed_libs, m)

  unfoldable pub drop_deps : List LoadedDylib → Removed L → Outcome (Removed L)
  unfolding drop_dep
  drop_deps [] r = done r
  drop_deps (dep ∷ deps) r = do r' ← drop_dep dep r; drop_deps deps r'

  abbrev pub deps_of : Option (List LoadedDylib) → List LoadedDylib
  deps_of none = []
  deps_of (some deps) = deps

  -- The part of `drop` under the lock: the libraries to destroy, and the registry afterwards.
  unfoldable pub drop_library : ElfLibrary → Manager L → Outcome (Removed L)
  unfolding threshold drop_deps
  drop_library lib m = elim (flags L m (shortname lib.inner)) [
    | none ↦ done ([], m)
    | some f ↦ if is_nodelete f then done ([], m) else do
      debug_assert debug (is_some lib.deps)
      if not (strong_count [] lib.inner == threshold f) then done ([], m) else do
        m' ← remove debug L (shortname lib.inner) m
        drop_deps (drop 1 (deps_of lib.deps)) (lib.inner ∷ [], m')
  ]
