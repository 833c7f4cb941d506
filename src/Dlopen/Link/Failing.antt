-- ===== src/Dlopen/Link/Failing.antt =====
-- `dlopen_impl` of src/api/dlopen.rs where it fails, while no other thread does anything.
use rust_dlopen.Common.{
  ℕ, String, ◌≡◌, refl, sym, subst, ap, ◌∙◌, Bool, true, false, Option, none, some, List, [],
  get_elem?, arith, if◌then◌else◌, Bool-cases, inl, inr,
}
use rust_dlopen.Common.Maybe.{elem}
use rust_dlopen.Common.Outcome.{Outcome, done, panic}
use rust_dlopen.Flags.{OpenFlags, is_noload}
use rust_dlopen.Registry.Types.{ElfLibrary, shortname}
use rust_dlopen.Registry.LinkContext.{LinkContext, LinkContextLaws}
use rust_dlopen.Registry.State.{Manager}
use rust_dlopen.Registry.Consistent.{IsConsistent, registered}
use rust_dlopen.Registry.Lookup.{library_scope}
use rust_dlopen.Registry.Loading.{merge_link_context}
use rust_dlopen.Dlopen.Platform.{Error, find_lib_error, ok, err, Platform}
use rust_dlopen.Dlopen.Operation.{
  OpenContext, Ran, returned, failed, waiting, panicked, out_of_fuel, M, then_run, with_manager,
  try_existing, complete_relocation, finish, roll_back, expected, retake,
}
use rust_dlopen.Dlopen.Alone.{IsReady}
use rust_dlopen.Dlopen.Resolver.Safe.{PathLaws}
use rust_dlopen.Dlopen.Link.{
  Session, LoadResult, Callbacks, drive, link_root, settled, settle, close, new_context,
  unless_found, dlopen_impl,
}
use rust_dlopen.Dlopen.Link.Undo.{IsOpen, IsOpen-of_IsReady, roll_back_lem}
use rust_dlopen.Dlopen.Link.Driven.{IsProper, Ends, drive_lem}
use rust_dlopen.Dlopen.Link.Missing.{
  Quiet, Quiet-then_run, Quiet-changed, Quiet-expected, Misses, try_existing_lem,
}

module _ (debug : Bool) (L : LinkContext) (laws : LinkContextLaws L) (start : Manager L)
    (p : Platform) (path_laws : PathLaws p) (fuel : ℕ) where
  -- Where the code fails, the operation can be undone.
  abbrev Fails {ℓ} : {A : Type ℓ} → Ran L A → Type 0
  Fails (returned a s) = Unit
  Fails (failed e s) = IsOpen L start s
  Fails waiting = Unit
  Fails panicked = Unit
  Fails out_of_fuel = Unit

  Fails-of_Quiet {ℓ} : {A : Type ℓ} (r : Ran L A) → Quiet r → Fails r
  Fails-of_Quiet (returned a s) q = tt
  Fails-of_Quiet (failed e s) q = absurd q
  Fails-of_Quiet waiting q = tt
  Fails-of_Quiet panicked q = tt
  Fails-of_Quiet out_of_fuel q = tt

  Fails-then_run {ℓ κ} :
      {A : Type ℓ} {B : Type κ} (r : Ran L A) (f : A → M L B)
      → Fails r
      → ((a : A) (s : OpenContext L) → Fails (f a s))
      → Fails (then_run r f)
  Fails-then_run (returned a s) f h k = k a s
  Fails-then_run (failed e s) f h k = h
  Fails-then_run waiting f h k = tt
  Fails-then_run panicked f h k = tt
  Fails-then_run out_of_fuel f h k = tt

  complete_lem :
      (r : LoadResult L) (s : OpenContext L)
      → Quiet (complete_relocation debug L p r.link_ctx r.committed s)
  unfolding complete_relocation
  complete_lem r s =
      let held : OpenContext L = if s.lock then s else retake s in
      Quiet-changed held.lock held
        (merge_link_context debug L r.link_ctx r.committed s.flags held.manager)

  with_manager-Quiet :
      {A : Type 0} (g : Manager L → A) (s : OpenContext L) → Quiet (with_manager g s)
  with_manager-Quiet g s = elim (Bool-cases s.lock) [
    | inl held ↦
        subst (λ (b : Bool). Quiet (if b then returned (g s.manager) s else panicked)) (sym held) tt
    | inr free ↦
        subst (λ (b : Bool). Quiet (if b then returned (g s.manager) s else panicked)) (sym free) tt
  ]

  finish_lem : (root : String) (s : OpenContext L) → Quiet (finish debug L p root s)
  unfolding finish
  finish_lem root s =
      Quiet-then_run (with_manager (λ m. library_scope L m root) s) _
        (with_manager-Quiet (λ m. library_scope L m root) s)
        (λ scope s₁. Quiet-then_run (expected scope s₁) _ (Quiet-expected scope s₁) (λ deps s₂.
          Quiet-then_run (expected (get_elem? deps 0) (record s₂ { committed = true })) _
            (Quiet-expected (get_elem? deps 0) (record s₂ { committed = true })) (λ first s₃. tt)))

  Fails-of_Ends :
      (path : String) (r : Ran L (LoadResult L))
      → Ends debug L laws start p path_laws fuel path r
      → Fails r
  Fails-of_Ends path (returned a s) h = tt
  Fails-of_Ends path (failed e s) h = h
  Fails-of_Ends path waiting h = tt
  Fails-of_Ends path panicked h = tt
  Fails-of_Ends path out_of_fuel h = tt

  link_root_lem :
      (path : String) (session : Session L) (bytes : Option (List ℕ)) (s : OpenContext L)
      → IsProper L session
      → IsReady L start s
      → s.committed ≡ false
      → Fails (link_root debug L p fuel path session bytes s)
  unfolding link_root
  link_root_lem path session bytes s proper ready open_ =
      let c : Callbacks = record { root_bytes = bytes; relocation_scope = none } in
      Fails-then_run (drive debug L p fuel path session c s) _
        (Fails-of_Ends path (drive debug L p fuel path session c s)
          (drive_lem debug L laws start p path_laws fuel path session c s proper ready open_))
        (λ r s'. Fails-of_Quiet _ (
          Quiet-then_run (complete_relocation debug L p r.link_ctx r.committed s') _
            (complete_lem r s') (λ _ s''. finish_lem (shortname r.root) s'')))

  if_lem : {A : Type 0} (b : Bool) (x y : Ran L A) → Fails x → Fails y → Fails (if b then x else y)
  if_lem true x y h k = h
  if_lem false x y h k = k

  unless_found_lem :
      (m : M L ElfLibrary) (s : OpenContext L) (r : Ran L (Option ElfLibrary))
      → IsOpen L start s
      → Misses s r
      → Fails (m s)
      → Fails (then_run r (unless_found debug L p fuel m))
  unless_found_lem m s (returned none s') o h k =
      subst (λ (t : OpenContext L). Fails (m t)) (sym h) k
  unless_found_lem m s (returned (some lib) s') o h k = tt
  unless_found_lem m s (failed e s') o h k = subst (IsOpen L start) (sym h) o
  unless_found_lem m s waiting o h k = tt
  unless_found_lem m s panicked o h k = tt
  unless_found_lem m s out_of_fuel o h k = tt

  not_an_error :
      (lib : ElfLibrary) (o : Outcome (Manager L)) (e : Error) (m' : Manager L)
      → settle (ok lib) o ≡ settled (err e) m'
      → ⊥
  not_an_error lib (done m) e m' h = cc
  not_an_error lib panic e m' h = cc

  abbrev Undone : Manager L → Type 0
  Undone m' = IsConsistent L m' × ((k : String) → registered L m' k ≡ registered L start k)

  close_lem :
      (r : Ran L ElfLibrary) (e : Error) (m' : Manager L)
      → Fails r
      → close debug L p fuel r ≡ settled (err e) m'
      → Undone m'
  unfolding close
  close_lem (returned lib s) e m' f h = absurd (not_an_error lib (roll_back debug L p s) e m' h)
  close_lem (failed x s) e m' f h =
      let (m₁, back, c, same) = roll_back_lem debug L laws p start s f in
      let closed : settled (err x) m₁ ≡ settled (err e) m' = sym (ap (settle (err x)) back) ∙ h in
      subst Undone (cc closed) (c, same)
  close_lem waiting e m' f h = cc
  close_lem panicked e m' f h = cc
  close_lem out_of_fuel e m' f h = cc

  new_context-IsReady :
      (flags : OpenFlags)
      → IsConsistent L start
      → IsReady L start (new_context debug L p fuel flags start [])
  unfolding new_context
  new_context-IsReady flags c = record {
    locked = refl;
    alone = refl;
    consistent = c;
    added = tt;
    grown = λ k. unfold elem in ground arith;
    fresh = λ k h. absurd (unfold elem in (cc h));
  }

  new_context-open :
      (flags : OpenFlags) → (new_context debug L p fuel flags start []).committed ≡ false
  unfolding new_context
  new_context-open flags = refl

  -- Let `dlopen_impl` run on a consistent registry while no other thread changes it. Let the linker
  -- ask its callbacks for nothing but plans of relocations once it has asked for one, and let every
  -- registered library be visible to its requests for dependencies; what it asks for, and whether it
  -- fails, are otherwise arbitrary. Let a directory joined with a plain name have that name as its file name, and let lookups in the
  -- library cache not panic and lead from a name only to a file of that name. If `dlopen_impl` then
  -- ends with an error, the registry is consistent again and exactly the names are registered that
  -- were before.
  pub dlopen_impl-fails :
      (linker : String → Session L) (path : String) (flags : OpenFlags) (bytes : Option (List ℕ))
      → IsConsistent L start
      → IsProper L (linker path)
      → (e : Error) (m' : Manager L)
      → dlopen_impl debug L p fuel linker path flags bytes start [] ≡ settled (err e) m'
      → IsConsistent L m' × ((k : String) → registered L m' k ≡ registered L start k)
  unfolding dlopen_impl
  dlopen_impl-fails linker path flags bytes c proper e m' h =
      let s = new_context debug L p fuel flags start [] in
      let ready = new_context-IsReady flags c in
      let o : IsOpen L start s =
        IsOpen-of_IsReady L start s s.lock ready (new_context-open flags) in
      close_lem _ e m'
        (unless_found_lem _ s (try_existing debug L p path s) o
          (try_existing_lem debug L laws start p path s ready)
          (if_lem (is_noload s.flags) (failed find_lib_error s)
            (link_root debug L p fuel path (linker path) bytes s) o
            (link_root_lem path (linker path) bytes s proper ready (new_context-open flags))))
        h
