-- ===== src/Dlopen/Link.antt =====
-- `link_root` and `dlopen_impl` of src/api/dlopen.rs. The linker of the ELF loader library is what
-- it asks of its callbacks, one after the other, and how it ends: each question waits for its
-- answer, and the linker is free in what it does next.
pub mod Undo
pub mod Driven
pub mod Missing
pub mod Failing
use rust_dlopen.Common.{
  ℕ, String, Bool, true, false, Option, none, some, List, [], ◌∷◌, is_some, if◌then◌else◌,
}
use rust_dlopen.Common.Eq.{str_eq}
use rust_dlopen.Common.Outcome.{Outcome, done, panic}
use rust_dlopen.Flags.{OpenFlags, is_now, is_lazy, is_noload}
use rust_dlopen.Registry.Types.{LoadedDylib, ElfLibrary, shortname}
use rust_dlopen.Registry.LinkContext.{LinkContext}
use rust_dlopen.Registry.State.{Manager}
use rust_dlopen.Registry.Lookup.{visible_contains, visible_loaded}
use rust_dlopen.Registry.Loading.{visible_direct_deps}
use rust_dlopen.Dlopen.{operation_flags}
use rust_dlopen.Dlopen.Platform.{
  Error, loader_error, find_lib_error, LoaderError, Result, ok, err, into_linker_error, Platform,
  get_env,
}
use rust_dlopen.Dlopen.Operation.{
  OpenContext, Ran, returned, failed, waiting, panicked, out_of_fuel, M, then_run, ◌>>=◌, ◌>>◌,
  pure, of_outcome, with_manager, try_existing, prepare_relocation, complete_relocation, finish,
  roll_back,
}
use rust_dlopen.Dlopen.Resolver.{ResolvedKey, resolve_request, resolve_dependency}

-- How symbols are bound: `RelocationInputs::eager`, `lazy`, or neither.
pub data Binding : Type 0 where
  eager : Binding
  lazy : Binding
  unchanged : Binding

-- `RelocationInputs`
pub record RelocationInputs : Type 0 where
  pub scope : List LoadedDylib
  pub binding : Binding

-- What a resolver callback answers.
pub data Answer : Type 0 where
  resolved : ResolvedKey → Answer
  refused : LoaderError → Answer

-- The result of a link, with the linker's own context.
pub record LoadResult (L : LinkContext) : Type 0 where
  pub root : LoadedDylib
  pub link_ctx : L.Ctx
  pub committed : List L.KeyId

-- The linker at work. Whether a library is visible to a dependency may depend on the registry,
-- which the linker reads through `VisibleModules`.
pub data Session (L : LinkContext) : Type 0 where
  load_root : String → (Answer → Session L) → Session L
  resolve :
      String
      → Option String
      → Option String
      → (Manager L → String → Bool)
      → String
      → (Answer → Session L)
      → Session L
  contains_key : String → (Bool → Session L) → Session L
  direct_deps : String → (Option (List String) → Session L) → Session L
  module_of : String → (Option LoadedDylib → Session L) → Session L
  plan : List LoadedDylib → (RelocationInputs → Session L) → Session L
  linked : LoadResult L → Session L
  link_failed : LoaderError → Session L

-- The fields of `LinkResolver` and `DlopenPlanner` that change.
pub record Callbacks : Type 0 where
  pub root_bytes : Option (List ℕ)
  pub relocation_scope : Option (List LoadedDylib)

-- The mode of `plan`.
unfoldable pub binding_of : OpenFlags → Binding
unfolding is_now is_lazy
binding_of flags = if is_now flags then eager else if is_lazy flags then lazy else unchanged

-- `.map_err(into_linker_error)`; the state is kept either way.
abbrev pub answer_of :
    {L : LinkContext} {B : Type 0} → Ran L ResolvedKey → (Answer → M L B) → Ran L B
answer_of (returned key s) f = f (resolved key) s
answer_of (failed e s) f = f (refused (into_linker_error e)) s
answer_of waiting f = waiting
answer_of panicked f = panicked
answer_of out_of_fuel f = out_of_fuel

module _ (debug : Bool) (L : LinkContext) (p : Platform) (fuel : ℕ) (root_request : String) where
  -- `DlopenPlanner::plan`
  unfoldable pub plan_relocation :
      List LoadedDylib → Option (List LoadedDylib) → M L (List LoadedDylib)
  unfolding prepare_relocation
  plan_relocation scope none = prepare_relocation debug L p scope
  plan_relocation scope (some planned) = pure planned

  -- The linker with its callbacks.
  unfoldable pub drive : Session L → Callbacks → M L (LoadResult L)
  unfolding resolve_request resolve_dependency plan_relocation binding_of
  drive (load_root key k) c s =
      let is_root = str_eq key root_request in
      answer_of
        (resolve_request debug L p fuel none [] [] (if is_root then c.root_bytes else none) key s)
        (λ a. drive (k a) (record c { root_bytes = if is_root then none else c.root_bytes }))
  drive (resolve owner rpath runpath is_visible needed k) c s =
      answer_of
        (resolve_dependency debug L p fuel owner rpath runpath (is_visible s.manager) needed s)
        (λ a. drive (k a) c)
  drive (contains_key key k) c s =
      then_run (with_manager (λ m. visible_contains L m key) s) (λ a. drive (k a) c)
  drive (direct_deps key k) c s =
      then_run (then_run (with_manager (λ m. visible_direct_deps L m key) s) of_outcome)
        (λ a. drive (k a) c)
  drive (module_of key k) c s =
      then_run (with_manager (λ m. visible_loaded L m key) s) (λ a. drive (k a) c)
  drive (plan scope k) c s = then_run (plan_relocation scope c.relocation_scope s) (λ planned s'.
      drive (k (record { scope = planned; binding = binding_of s'.flags }))
        (record c { relocation_scope = some planned }) s')
  drive (linked r) c s = returned r s
  drive (link_failed e) c s = failed (loader_error e) s

  -- `link_root` for a root that is loaded, with the linker's work on it.
  unfoldable pub link_root : Session L → Option (List ℕ) → M L ElfLibrary
  unfolding drive complete_relocation finish
  link_root session bytes = do
    r ← drive session (record { root_bytes = bytes; relocation_scope = none })
    complete_relocation debug L p r.link_ctx r.committed
    finish debug L p (shortname r.root)

-- How an operation ends, once its `OpenContext` is dropped.
pub data Settled (L : LinkContext) : Type 0 where
  settled : Result ElfLibrary → Manager L → Settled L
  still_waiting : Settled L
  crashed : Settled L
  starved : Settled L

abbrev pub settle : {L : LinkContext} → Result ElfLibrary → Outcome (Manager L) → Settled L
settle r (done m) = settled r m
settle r panic = crashed

module _ (debug : Bool) (L : LinkContext) (p : Platform) (fuel : ℕ) where
  -- The end of an `OpenContext`.
  unfoldable pub close : Ran L ElfLibrary → Settled L
  unfolding roll_back
  close (returned lib s) = settle (ok lib) (roll_back debug L p s)
  close (failed e s) = settle (err e) (roll_back debug L p s)
  close waiting = still_waiting
  close panicked = crashed
  close out_of_fuel = starved

  -- `OpenContext::new`, where `others` is what other threads will do.
  unfoldable pub new_context : OpenFlags → Manager L → List (Manager L → Manager L) → OpenContext L
  unfolding operation_flags get_env
  new_context flags m others = record {
    manager = m;
    lock = true;
    flags = operation_flags (is_some (get_env p "LD_BIND_NOW")) flags;
    added_names = [];
    committed = false;
    others = others;
  }

  abbrev pub unless_found : M L ElfLibrary → Option ElfLibrary → M L ElfLibrary
  unless_found m none = m
  unless_found m (some lib) = pure lib

  -- `dlopen_impl`, where `linker` is what the linker does for a root of a name.
  unfoldable pub dlopen_impl :
      (String → Session L)
      → String
      → OpenFlags
      → Option (List ℕ)
      → Manager L
      → List (Manager L → Manager L)
      → Settled L
  unfolding close new_context try_existing link_root
  dlopen_impl linker path flags bytes m others = close (
      then_run (try_existing debug L p path (new_context flags m others)) (
        unless_found (λ s.
          if is_noload s.flags
          then failed find_lib_error s
          else link_root debug L p fuel path (linker path) bytes s)))
