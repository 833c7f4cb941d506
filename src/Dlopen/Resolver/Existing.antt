-- ===== src/Dlopen/Resolver/Existing.antt =====
-- The lookups of `LinkResolver` of src/api/dlopen.rs, in an operation that no other thread disturbs.
use rust_dlopen.Common.{
  String, ◌≡◌, ◌⊎◌, refl, sym, subst, Bool, true, false, Option, none, some, arith, Bool-cases, inl,
  inr,
}
use rust_dlopen.Common.Maybe.{elem}
use rust_dlopen.Registry.Types.{FileIdentity, LibraryLookup, lookup_shortname}
use rust_dlopen.Registry.LinkContext.{LinkContext, LinkContextLaws}
use rust_dlopen.Registry.State.{Manager}
use rust_dlopen.Registry.Lookup
use rust_dlopen.Registry.Lookup.{lookup_by_identity}
use rust_dlopen.Registry.Consistent.{registered}
use rust_dlopen.Dlopen.Platform.{Result, ok, err, Platform}
use rust_dlopen.Dlopen.Operation.{
  OpenContext, returned, failed, pure, then_run, await_library, wait_for_library, inode_fallback,
  alias_found,
}
use rust_dlopen.Dlopen.Alone.{Ensures, Ensures-then_run, IsReady, Kept}
use rust_dlopen.Dlopen.Alone.Found.{
  lookup-registered, lookup_by_identity-registered, lookup-missing,
}
use rust_dlopen.Dlopen.Alone.Steps.{Kept-refl, Awaits, await_lem, alias_found_lem}
use rust_dlopen.Dlopen.Resolver.{
  Visible, seen_by, not_hidden_by, ResolvedKey, existing, load, resolve_found, found_by,
  resolve_existing_by_name, resolve_existing_by_path,
}

module _ (debug : Bool) (L : LinkContext) (laws : LinkContextLaws L) (start : Manager L)
    (p : Platform) (visible : Visible) (s : OpenContext L) (ready : IsReady L start s)
    (shows : (k : String) → registered L s.manager k ≡ true → not_hidden_by visible k ≡ true) where
  -- What stands behind a key: a library that is registered or that the linker sees, or a file
  -- whose name the operation has reserved.
  abbrev pub Answers : ResolvedKey → OpenContext L → Type 0
  Answers (existing k) s' = (registered L s'.manager k ≡ true) ⊎ (seen_by visible k ≡ true)
  Answers (load k r) s' = elem k s'.added_names ≡ true

  abbrev pub Resolved : ResolvedKey → OpenContext L → Type 0
  Resolved key s' = Kept L start s s' × Answers key s'

  -- A search that comes to nothing leaves the state as it was.
  abbrev pub Searched : Option ResolvedKey → OpenContext L → Type 0
  Searched none s' = s' ≡ s
  Searched (some key) s' = Resolved key s'

  abbrev pub Named : String → Option ResolvedKey → OpenContext L → Type 0
  Named name none s' = (s' ≡ s) × (registered L s.manager name ≡ false)
  Named name (some key) s' = Resolved key s'

  kept : Kept L start s s
  kept = Kept-refl debug L laws start s ready

  found_lem :
      (lib : LibraryLookup) (s' : OpenContext L)
      → Kept L start s s'
      → registered L s'.manager (lookup_shortname lib) ≡ true
      → registered L s.manager (lookup_shortname lib) ≡ true
      → (key : ResolvedKey) × (found_by visible (some lib) ≡ some key) × Resolved key s'
  unfolding resolve_found
  found_lem lib s' k there known =
      (existing (lookup_shortname lib), rw (shows (lookup_shortname lib) known), (k, inl there))

  by_name_found :
      (name : String) (found : Option LibraryLookup) (s' : OpenContext L)
      → Awaits (λ m. Lookup.lookup L m name) s found s'
      → Named name (found_by visible found) s'
  by_name_found name none s' (e, missed) = (e, lookup-missing L laws s.manager name missed)
  by_name_found name (some lib) s' (e, hit) =
      let known = lookup-registered L laws s.manager name lib hit in
      let (key, f, r) = found_lem lib s kept known known in
      subst (λ (t : OpenContext L). Named name (found_by visible (some lib)) t) (sym e)
        (subst (λ (k : Option ResolvedKey). Named name k s) (sym f) r)

  pub by_name_lem :
      (name : String) → Ensures (Named name) s (resolve_existing_by_name visible name s)
  unfolding resolve_existing_by_name wait_for_library
  by_name_lem name = elim (Bool-cases (seen_by visible name)) [
    | inl seen ↦
        let ran : resolve_existing_by_name visible name s ≡ returned (some (existing name)) s =
          rw (resolve_existing_by_name, seen) in
        subst (Ensures (Named name) s) (sym ran) (kept, inr seen)
    | inr unseen ↦
        let ran : resolve_existing_by_name visible name s
            ≡ then_run (await_library (λ m. Lookup.lookup L m name) true s)
                (λ lib. pure (found_by visible lib)) =
          rw (resolve_existing_by_name, unseen) in
        subst (Ensures (Named name) s) (sym ran) (
          Ensures-then_run (Awaits (λ m. Lookup.lookup L m name) s) (Named name) s
            (await_library (λ m. Lookup.lookup L m name) true s)
            (λ lib. pure (found_by visible lib))
            (await_lem debug L laws start (λ m. Lookup.lookup L m name) true s ready)
            (by_name_found name))
  ]

  abbrev Inode : Option LibraryLookup → OpenContext L → Type 0
  Inode none s' = s' ≡ s
  Inode (some lib) s' =
      Kept L start s s'
      × (registered L s'.manager (lookup_shortname lib) ≡ true)
      × (registered L s.manager (lookup_shortname lib) ≡ true)

  alias_step :
      (identity : FileIdentity) (name : String) (found : Option LibraryLookup) (s' : OpenContext L)
      → Awaits (λ m. lookup_by_identity L m identity) s found s'
      → Ensures Inode s (then_run (alias_found debug L p true name found s') (λ _. pure found))
  alias_step identity name none s' (e, missed) =
      subst
        (λ (t : OpenContext L).
          Ensures Inode s (then_run (alias_found debug L p true name none t) (λ _. pure none)))
        (sym e)
        (Ensures-then_run (λ _ t. Kept L start s t × (none ≡ none → t ≡ s)) Inode s
          (alias_found debug L p true name none s) (λ _. pure none)
          (alias_found_lem debug L laws start p true name none s ready (λ lib h. cc))
          (λ _ t k. k.1 refl))
  alias_step identity name (some lib) s' (e, hit) =
      let known = lookup_by_identity-registered L laws s.manager identity lib hit in
      subst
        (λ (t : OpenContext L).
          Ensures Inode s
            (then_run (alias_found debug L p true name (some lib) t) (λ _. pure (some lib))))
        (sym e)
        (Ensures-then_run (λ _ t. Kept L start s t × (some lib ≡ none → t ≡ s)) Inode s
          (alias_found debug L p true name (some lib) s) (λ _. pure (some lib))
          (alias_found_lem debug L laws start p true name (some lib) s ready (λ l h.
            subst (λ (o : LibraryLookup). registered L s.manager (lookup_shortname o) ≡ true)
              (ground (arith, h)) known))
          (λ _ t k. (k.0, k.0.stays (lookup_shortname lib) known, known)))

  fallback_with :
      (path name : String) (r : Result FileIdentity)
      → p.get_file_inode path ≡ r
      → Ensures Inode s (inode_fallback debug L p true path name s)
  unfolding inode_fallback await_library
  fallback_with path name (err e) h =
      let ran : inode_fallback debug L p true path name s ≡ failed e s = rw (inode_fallback, h) in
      subst (Ensures Inode s) (sym ran) refl
  fallback_with path name (ok identity) h =
      let ran : inode_fallback debug L p true path name s
          ≡ then_run (await_library (λ m. lookup_by_identity L m identity) true s)
              (λ found s'. then_run (alias_found debug L p true name found s') (λ _. pure found)) =
        rw (inode_fallback, h) in
      subst (Ensures Inode s) (sym ran) (
        Ensures-then_run (Awaits (λ m. lookup_by_identity L m identity) s) Inode s
          (await_library (λ m. lookup_by_identity L m identity) true s)
          (λ found s'. then_run (alias_found debug L p true name found s') (λ _. pure found))
          (await_lem debug L laws start (λ m. lookup_by_identity L m identity) true s ready)
          (alias_step identity name))

  by_path_found :
      (found : Option LibraryLookup) (s' : OpenContext L)
      → Inode found s'
      → Searched (found_by visible found) s'
  by_path_found none s' e = e
  by_path_found (some lib) s' (k, there, known) =
      let (key, f, r) = found_lem lib s' k there known in
      subst (λ (o : Option ResolvedKey). Searched o s') (sym f) r

  inode_lem : (path name : String) → Ensures Inode s (inode_fallback debug L p true path name s)
  inode_lem path name = fallback_with path name (p.get_file_inode path) refl

  pub by_path_lem :
      (path name : String)
      → Ensures Searched s (resolve_existing_by_path debug L p visible path name s)
  unfolding resolve_existing_by_path
  by_path_lem path name = elim (Bool-cases (seen_by visible name)) [
    | inl seen ↦
        let ran : resolve_existing_by_path debug L p visible path name s
            ≡ returned (some (existing name)) s =
          rw (resolve_existing_by_path, seen) in
        subst (Ensures Searched s) (sym ran) (kept, inr seen)
    | inr unseen ↦
        let ran : resolve_existing_by_path debug L p visible path name s
            ≡ then_run (inode_fallback debug L p true path name s)
                (λ lib. pure (found_by visible lib)) =
          rw (resolve_existing_by_path, unseen) in
        subst (Ensures Searched s) (sym ran) (
          Ensures-then_run Inode Searched s (inode_fallback debug L p true path name s)
            (λ lib. pure (found_by visible lib)) (inode_lem path name) by_path_found)
  ]
