-- ===== src/Dlopen/Link/Missing.antt =====
-- `try_existing` of src/api/dlopen.rs where it finds nothing, while no other thread does anything.
use rust_dlopen.Common.{
  String, ◌≡◌, refl, sym, subst, Bool, true, false, Option, none, some, if◌then◌else◌, Bool-cases,
  inl, inr,
}
use rust_dlopen.Common.Outcome.{Outcome, done, panic}
use rust_dlopen.Names.{str_contains}
use rust_dlopen.Registry.Types.{FileIdentity, LibraryLookup, lookup_shortname}
use rust_dlopen.Registry.LinkContext.{LinkContext, LinkContextLaws}
use rust_dlopen.Registry.State.{Manager}
use rust_dlopen.Registry.Lookup
use rust_dlopen.Registry.Lookup.{lookup_by_identity}
use rust_dlopen.Registry.Update.{add_alias, open_existing}
use rust_dlopen.Dlopen.{is_usable}
use rust_dlopen.Dlopen.Platform.{Result, ok, err, Platform}
use rust_dlopen.Dlopen.Operation.{
  OpenContext, Ran, returned, failed, waiting, panicked, out_of_fuel, M, then_run, pure, stored,
  changed, expected, own_names, await_library, wait_for_library, alias_found, inode_fallback,
  finish_existing, opened, miss_on_error, after_slash, try_existing,
}
use rust_dlopen.Dlopen.Alone.{Ensures, IsReady}
use rust_dlopen.Dlopen.Alone.Steps.{Awaits, await_lem}

module _ {L : LinkContext} where
  -- Code that never ends with an error.
  abbrev pub Quiet {ℓ} : {A : Type ℓ} → Ran L A → Type 0
  Quiet (returned a s) = Unit
  Quiet (failed e s) = ⊥
  Quiet waiting = Unit
  Quiet panicked = Unit
  Quiet out_of_fuel = Unit

  pub Quiet-then_run {ℓ κ} :
      {A : Type ℓ} {B : Type κ} (r : Ran L A) (f : A → M L B)
      → Quiet r
      → ((a : A) (s : OpenContext L) → Quiet (f a s))
      → Quiet (then_run r f)
  Quiet-then_run (returned a s) f q h = h a s
  Quiet-then_run (failed e s) f q h = absurd q
  Quiet-then_run waiting f q h = tt
  Quiet-then_run panicked f q h = tt
  Quiet-then_run out_of_fuel f q h = tt

  pub Quiet-stored :
      {A : Type 0} (b : Bool) (s : OpenContext L) (o : Outcome (A × Manager L))
      → Quiet (if b then stored s o else panicked)
  Quiet-stored true s (done (a, m)) = tt
  Quiet-stored true s panic = tt
  Quiet-stored false s o = tt

  pub Quiet-changed :
      (b : Bool) (s : OpenContext L) (o : Outcome (Manager L))
      → Quiet (if b then changed s o else panicked)
  Quiet-changed true s (done m) = tt
  Quiet-changed true s panic = tt
  Quiet-changed false s o = tt

  pub Quiet-expected {ℓ} : {A : Type ℓ} (o : Option A) (s : OpenContext L) → Quiet (expected o s)
  Quiet-expected none s = tt
  Quiet-expected (some a) s = tt

  -- Code that, where it fails or finds nothing, leaves the state as it was.
  abbrev pub Misses {ℓ} : {A : Type ℓ} → OpenContext L → Ran L (Option A) → Type 0
  Misses s (returned none s') = s' ≡ s
  Misses s (returned (some a) s') = Unit
  Misses s (failed e s') = s' ≡ s
  Misses s waiting = Unit
  Misses s panicked = Unit
  Misses s out_of_fuel = Unit

  Misses-some {ℓ κ} :
      {A : Type ℓ} {B : Type κ} (s : OpenContext L) (r : Ran L A) (g : A → B)
      → Quiet r
      → Misses s (then_run r (λ a. pure (some (g a))))
  Misses-some s (returned a s') g q = tt
  Misses-some s (failed e s') g q = absurd q
  Misses-some s waiting g q = tt
  Misses-some s panicked g q = tt
  Misses-some s out_of_fuel g q = tt

  Misses-then_run {ℓ κ} :
      {A : Type ℓ} {B : Type κ} (s : OpenContext L) (r : Ran L (Option A))
      (f : Option A → M L (Option B))
      → Misses s r
      → Misses s (f none s)
      → ((a : A) (s' : OpenContext L) → Misses s (f (some a) s'))
      → Misses s (then_run r f)
  Misses-then_run s (returned none s') f m h k =
      subst (λ (t : OpenContext L). Misses s (f none t)) (sym m) h
  Misses-then_run s (returned (some a) s') f m h k = k a s'
  Misses-then_run s (failed e s') f m h k = m
  Misses-then_run s waiting f m h k = tt
  Misses-then_run s panicked f m h k = tt
  Misses-then_run s out_of_fuel f m h k = tt

  Misses-await :
      (lookup : Manager L → Option LibraryLookup) (s : OpenContext L)
      (r : Ran L (Option LibraryLookup))
      → Ensures (Awaits lookup s) s r
      → Misses s r
  Misses-await lookup s (returned none s') h = h.0
  Misses-await lookup s (returned (some a) s') h = tt
  Misses-await lookup s (failed e s') h = h
  Misses-await lookup s waiting h = tt
  Misses-await lookup s panicked h = tt
  Misses-await lookup s out_of_fuel h = tt

module _ (debug : Bool) (L : LinkContext) (laws : LinkContextLaws L) (start : Manager L)
    (p : Platform) where
  Quiet-finish_existing :
      (lib : LibraryLookup) (s : OpenContext L) → Quiet (finish_existing debug L p lib s)
  unfolding finish_existing
  Quiet-finish_existing lib s =
      Quiet-then_run _ _
        (Quiet-stored s.lock s (open_existing debug L (lookup_shortname lib) s.flags s.manager))
        (λ found s₁. Quiet-then_run _ _ (Quiet-expected found s₁) (λ e s₂. tt))

  Quiet-alias_found :
      (own : Bool) (name : String) (lib : LibraryLookup) (s : OpenContext L)
      → Quiet (alias_found debug L p own name (some lib) s)
  unfolding alias_found
  Quiet-alias_found own name lib s =
      elim (Bool-cases (is_usable (own_names own s.added_names) lib)) [
        | inl usable ↦
            rw usable
              (Quiet-changed s.lock s (add_alias debug L (lookup_shortname lib) name s.manager))
        | inr busy ↦ rw busy tt
      ]

  opened_lem :
      (s : OpenContext L) (lib : LibraryLookup) (s' : OpenContext L)
      → Misses s (opened debug L p (some lib) s')
  opened_lem s lib s' =
      Misses-some s (finish_existing debug L p lib s') (λ e. e) (Quiet-finish_existing lib s')

  inode_with :
      (own : Bool) (path name : String) (s : OpenContext L) (r : Result FileIdentity)
      → IsReady L start s
      → p.get_file_inode path ≡ r
      → Misses s (inode_fallback debug L p own path name s)
  unfolding inode_fallback await_library
  inode_with own path name s (err e) ready h =
      let ran : inode_fallback debug L p own path name s ≡ failed e s = rw (inode_fallback, h) in
      subst (Misses s) (sym ran) refl
  inode_with own path name s (ok identity) ready h =
      let ran : inode_fallback debug L p own path name s
          ≡ then_run (await_library (λ m. lookup_by_identity L m identity) own s)
              (λ found s'. then_run (alias_found debug L p own name found s') (λ _. pure found)) =
        rw (inode_fallback, h) in
      subst (Misses s) (sym ran) (
        Misses-then_run s (await_library (λ m. lookup_by_identity L m identity) own s)
          (λ found s'. then_run (alias_found debug L p own name found s') (λ _. pure found))
          (Misses-await (λ m. lookup_by_identity L m identity) s
            (await_library (λ m. lookup_by_identity L m identity) own s)
            (await_lem debug L laws start (λ m. lookup_by_identity L m identity) own s ready))
          refl
          (λ lib s'.
            Misses-some s (alias_found debug L p own name (some lib) s') (λ _. lib)
              (Quiet-alias_found own name lib s')))

  Misses-miss_on_error :
      (path : String) (s : OpenContext L) (r : Ran L (Option LibraryLookup))
      → Misses s r
      → Misses s (miss_on_error debug L p path r)
  unfolding miss_on_error
  Misses-miss_on_error path s (returned none s') h = h
  Misses-miss_on_error path s (returned (some a) s') h = tt
  Misses-miss_on_error path s (failed e s') h = elim (Bool-cases (str_contains path "/")) [
    | inl full ↦ rw full h
    | inr short ↦ rw short h
  ]
  Misses-miss_on_error path s waiting h = tt
  Misses-miss_on_error path s panicked h = tt
  Misses-miss_on_error path s out_of_fuel h = tt

  -- Where `try_existing` fails or finds no library, the operation's state is as before.
  pub try_existing_lem :
      (path : String) (s : OpenContext L)
      → IsReady L start s
      → Misses s (try_existing debug L p path s)
  unfolding try_existing wait_for_library
  try_existing_lem path s ready =
      let name = after_slash path path in
      Misses-then_run s (await_library (λ m. Lookup.lookup L m name) false s) _
        (Misses-await (λ m. Lookup.lookup L m name) s
          (await_library (λ m. Lookup.lookup L m name) false s)
          (await_lem debug L laws start (λ m. Lookup.lookup L m name) false s ready))
        (Misses-then_run s
          (miss_on_error debug L p path (inode_fallback debug L p false path name s))
          (opened debug L p)
          (Misses-miss_on_error path s (inode_fallback debug L p false path name s)
            (inode_with false path name s (p.get_file_inode path) ready refl))
          refl (opened_lem s))
        (opened_lem s)
