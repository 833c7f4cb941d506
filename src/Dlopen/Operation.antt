-- ===== src/Dlopen/Operation.antt =====
-- The state of an operation of src/api/dlopen.rs: `OpenShared` and `OpenContext`. Whenever the
-- operation gives up the lock, other threads may change the registry: what they do, one change for
-- each time the lock is taken again, is a list in the state.
use Prim.Native.Char.{code}
use rust_dlopen.Common.{
  String, Bool, true, false, Option, none, some, List, [], ◌∷◌, ◌==◌, get_elem?, ltb, if◌then◌else◌,
}
use rust_dlopen.Common.Eq.{str_eq}
use rust_dlopen.Common.Maybe.{elem}
use rust_dlopen.Common.Outcome.{Outcome, done, panic}
use rust_dlopen.Flags.{OpenFlags}
use rust_dlopen.Names.{str_contains}
use rust_dlopen.Registry.Types.{
  FileIdentity, LoadedDylib, LibraryLookup, lookup_shortname, ElfLibrary,
}
use rust_dlopen.Registry.LinkContext.{LinkContext}
use rust_dlopen.Registry.State.{Manager}
use rust_dlopen.Registry.Lookup
use rust_dlopen.Registry.Lookup.{lookup_by_identity, relocation_scope, library_scope}
use rust_dlopen.Registry.Update.{add_alias, open_existing}
use rust_dlopen.Registry.Loading
use rust_dlopen.Registry.Loading.{merge_link_context}
use rust_dlopen.Dlopen.{is_usable, drop_context}
use rust_dlopen.Dlopen.Platform.{Error, Result, ok, err, Platform}

-- `OpenContext` with its `OpenShared`; `lock` is false while the lock is given up.
pub record OpenContext (L : LinkContext) : Type 0 where
  pub manager : Manager L
  pub lock : Bool
  pub flags : OpenFlags
  pub added_names : List String
  pub committed : Bool
  pub others : List (Manager L → Manager L)

-- How code that runs on the state ends. `waiting`: what the other threads did is used up, and the
-- code still waits for them.
pub data Ran {ℓ} (L : LinkContext) (A : Type ℓ) : Type ℓ where
  returned : A → OpenContext L → Ran L A
  failed : Error → OpenContext L → Ran L A
  waiting : Ran L A
  panicked : Ran L A
  out_of_fuel : Ran L A

abbrev pub M {ℓ} : LinkContext → Type ℓ → Type ℓ
M L A = OpenContext L → Ran L A

abbrev pub then_run {ℓ κ} :
    {L : LinkContext} {A : Type ℓ} {B : Type κ} → Ran L A → (A → M L B) → Ran L B
then_run (returned a s) f = f a s
then_run (failed e s) f = failed e s
then_run waiting f = waiting
then_run panicked f = panicked
then_run out_of_fuel f = out_of_fuel

-- `?` after each step.
infixl 5 ◌>>=◌ ◌>>◌
abbrev pub ◌>>=◌ {ℓ κ} : {L : LinkContext} {A : Type ℓ} {B : Type κ} → M L A → (A → M L B) → M L B
(m >>= f) s = then_run (m s) f

abbrev pub ◌>>◌ {ℓ} : {L : LinkContext} {B : Type ℓ} → M L (Unit {0}) → M L B → M L B
m >> k = m >>= λ _. k

abbrev pub pure {ℓ} : {L : LinkContext} {A : Type ℓ} → A → M L A
pure a s = returned a s

abbrev pub of_result {ℓ} : {L : LinkContext} {A : Type ℓ} → Result A → M L A
of_result (ok a) s = returned a s
of_result (err e) s = failed e s

abbrev pub of_outcome {ℓ} : {L : LinkContext} {A : Type ℓ} → Outcome A → M L A
of_outcome (done a) s = returned a s
of_outcome panic s = panicked

-- `option.expect(..)`
abbrev pub expected {ℓ} : {L : LinkContext} {A : Type ℓ} → Option A → M L A
expected none s = panicked
expected (some a) s = returned a s

-- The order of a `BTreeSet<String>`.
unfoldable pub str_less : String → String → Bool
str_less s String.[] = false
str_less String.[] (String.◌∷◌ d t) = true
str_less (String.◌∷◌ c s) (String.◌∷◌ d t) =
    if ltb (code c) (code d) then true else if ltb (code d) (code c) then false else str_less s t

-- `added_names.insert(name)`
unfoldable pub insert_name : String → List String → List String
unfolding str_less
insert_name name [] = name ∷ []
insert_name name (x ∷ xs) =
    if str_eq name x
    then x ∷ xs
    else if str_less name x
    then name ∷ x ∷ xs
    else x ∷ insert_name name xs

-- The names that a lookup is given: those that the operation reserved, or none.
abbrev pub own_names : Bool → List String → Option (List String)
own_names own added_names = if own then some added_names else none

module _ {L : LinkContext} where
  -- `with_manager` and `with_manager_mut`: "Lock must be held".
  abbrev pub with_manager {ℓ} : {A : Type ℓ} → (Manager L → A) → M L A
  with_manager f s = if s.lock then returned (f s.manager) s else panicked

  abbrev pub stored {ℓ} : {A : Type ℓ} → OpenContext L → Outcome (A × Manager L) → Ran L A
  stored s (done (a, m)) = returned a (record s { manager = m })
  stored s panic = panicked

  abbrev pub with_manager_mut {ℓ} : {A : Type ℓ} → (Manager L → Outcome (A × Manager L)) → M L A
  with_manager_mut f s = if s.lock then stored s (f s.manager) else panicked

  abbrev pub changed : OpenContext L → Outcome (Manager L) → Ran L (Unit {0})
  changed s (done m) = returned tt (record s { manager = m })
  changed s panic = panicked

  -- `with_manager_mut` for an operation that returns nothing.
  abbrev pub change_manager : (Manager L → Outcome (Manager L)) → M L (Unit {0})
  change_manager f s = if s.lock then changed s (f s.manager) else panicked

  abbrev pub retaken : List (Manager L → Manager L) → OpenContext L → OpenContext L
  retaken [] s = record s { lock = true }
  retaken (act ∷ rest) s = record s { lock = true; manager = act s.manager; others = rest }

  -- The lock is taken again, after the next thing that other threads do.
  unfoldable pub retake : OpenContext L → OpenContext L
  retake s = retaken s.others s

  -- The rounds of `await_registered`, over what other threads do.
  unfoldable pub await_rounds :
      (Manager L → Option LibraryLookup)
      → Bool
      → List (Manager L → Manager L)
      → OpenContext L
      → Ran L (Option LibraryLookup)
  unfolding is_usable
  await_rounds lookup own [] s = elim (lookup s.manager) [
    | none ↦ returned none s
    | some lib ↦ elim (is_usable (own_names own s.added_names) lib) [
      | true ↦ returned (some lib) s
      | false ↦ waiting
    ]
  ]
  await_rounds lookup own (act ∷ rest) s = elim (lookup s.manager) [
    | none ↦ returned none s
    | some lib ↦ elim (is_usable (own_names own s.added_names) lib) [
      | true ↦ returned (some lib) s
      | false ↦ await_rounds lookup own rest (record s { manager = act s.manager; others = rest })
    ]
  ]

  -- `await_registered`; `own` says whether the names that the operation reserved are passed.
  unfoldable pub await_library :
      (Manager L → Option LibraryLookup) → Bool → M L (Option LibraryLookup)
  unfolding await_rounds
  await_library lookup own s = if s.lock then await_rounds lookup own s.others s else panicked

  unfoldable pub wait_for_library : Bool → String → M L (Option LibraryLookup)
  wait_for_library own shortname = await_library (λ m. Lookup.lookup L m shortname) own

-- What follows the last '/', or `best`: `path.rsplit_once('/').map_or(path, |(_, name)| name)`.
unfoldable pub after_slash : String → String → String
after_slash best String.[] = best
after_slash best (String.◌∷◌ c s) = after_slash (if code c == b'/' then s else best) s

-- `.ok()`
abbrev pub identity_if_ok : Result FileIdentity → Option FileIdentity
identity_if_ok (ok identity) = some identity
identity_if_ok (err e) = none

module _ (debug : Bool) (L : LinkContext) (p : Platform) where
  -- The closing part of `inode_fallback`: a library that may be used gets the requested name.
  unfoldable pub alias_found : Bool → String → Option LibraryLookup → M L (Unit {0})
  unfolding is_usable
  alias_found own shortname none s = returned tt s
  alias_found own shortname (some lib) s =
      if is_usable (own_names own s.added_names) lib
      then change_manager (add_alias debug L (lookup_shortname lib) shortname) s
      else returned tt s

  unfoldable pub inode_fallback : Bool → String → String → M L (Option LibraryLookup)
  unfolding await_library alias_found
  inode_fallback own path shortname = do
    identity ← of_result (p.get_file_inode path)
    entry ← await_library (λ m. lookup_by_identity L m identity) own
    alias_found own shortname entry
    pure entry

  abbrev set_committed : M L (Unit {0})
  set_committed s = returned tt (record s { committed = true })

  unfoldable pub finish_existing : LibraryLookup → M L ElfLibrary
  finish_existing lib = do
    found ← λ s. with_manager_mut (open_existing debug L (lookup_shortname lib) s.flags) s
    elf_lib ← expected found
    set_committed
    pure elf_lib

  -- `try_existing`; errors matter only for full paths.
  unfoldable pub miss_on_error :
      String → Ran L (Option LibraryLookup) → Ran L (Option LibraryLookup)
  miss_on_error path (returned found s) = returned found s
  miss_on_error path (failed e s) = if str_contains path "/" then failed e s else returned none s
  miss_on_error path waiting = waiting
  miss_on_error path panicked = panicked
  miss_on_error path out_of_fuel = out_of_fuel

  abbrev pub opened : Option LibraryLookup → M L (Option ElfLibrary)
  opened none = pure none
  opened (some lib) = do e ← finish_existing lib; pure (some e)

  unfoldable pub try_existing : String → M L (Option ElfLibrary)
  unfolding after_slash inode_fallback finish_existing miss_on_error wait_for_library
  try_existing path s =
      let shortname = after_slash path path in
      then_run (wait_for_library false shortname s) (λ found. elim found [
        | some lib ↦ opened (some lib)
        | none ↦ λ s'. then_run (miss_on_error path (inode_fallback false path shortname s')) opened
      ])

  -- `LinkResolver::reserve_pending`
  unfoldable pub reserve_name : String → String → M L (Unit {0})
  unfolding insert_name
  reserve_name shortname full_name s =
      if elem shortname s.added_names
      then returned tt s
      else then_run
          (change_manager
            (Loading.reserve_pending debug L shortname full_name
              (identity_if_ok (p.get_file_inode full_name)) s.flags)
            s)
          (λ _ s'. returned tt (record s' { added_names = insert_name shortname s'.added_names }))

  -- `prepare_relocation`: the scope, and the lock is given up.
  unfoldable pub prepare_relocation : List LoadedDylib → M L (List LoadedDylib)
  prepare_relocation group_scope s =
      then_run (with_manager (λ m. relocation_scope L m group_scope s.flags) s)
        (λ scope s'. returned scope (record s' { lock = false }))

  -- `complete_relocation`: the lock is taken again if it was given up.
  unfoldable pub complete_relocation : L.Ctx → List L.KeyId → M L (Unit {0})
  unfolding retake
  complete_relocation link_ctx committed s =
      let held = if s.lock then s else retake s in
      change_manager (merge_link_context debug L link_ctx committed s.flags) held

  -- `library_scope` and `finish`
  unfoldable pub finish : String → M L ElfLibrary
  finish root = do
    scope ← with_manager (λ m. library_scope L m root)
    deps ← expected scope
    set_committed
    first ← expected (get_elem? deps 0)
    pure (record { inner = first; deps = some deps })

  -- `Drop for OpenContext` after an error.
  unfoldable pub roll_back : OpenContext L → Outcome (Manager L)
  unfolding drop_context retake
  roll_back s =
      let held = if s.lock then s else retake s in
      drop_context debug L held.committed held.added_names held.manager
