-- ===== src/Dlopen/Link/Driven.antt =====
-- The linker with the callbacks of src/api/dlopen.rs, while no other thread does anything.
use rust_dlopen.Common.{
  ℕ, String, ◌≡◌, refl, sym, subst, ◌∙◌, Bool, true, false, Option, none, some, List, [],
  if◌then◌else◌, Bool-cases, inl, inr,
}
use rust_dlopen.Common.Eq.{str_eq}
use rust_dlopen.Common.Outcome.{Outcome, done, panic}
use rust_dlopen.Registry.Types.{LoadedDylib}
use rust_dlopen.Registry.LinkContext.{LinkContext, LinkContextLaws}
use rust_dlopen.Registry.State.{Manager}
use rust_dlopen.Registry.Lookup.{visible_contains, visible_loaded, relocation_scope}
use rust_dlopen.Registry.Loading.{visible_direct_deps}
use rust_dlopen.Registry.Consistent.{registered}
use rust_dlopen.Dlopen.Platform.{Platform, run_path, into_linker_error}
use rust_dlopen.Dlopen.Operation.{
  OpenContext, Ran, returned, failed, waiting, panicked, out_of_fuel, M, then_run, with_manager,
  of_outcome, prepare_relocation,
}
use rust_dlopen.Dlopen.Alone.{Ensures, IsReady}
use rust_dlopen.Dlopen.Resolver.{ResolvedKey, resolve_request, resolve_dependency}
use rust_dlopen.Dlopen.Resolver.Safe.{PathLaws, resolve_request_lem}
use rust_dlopen.Dlopen.Resolver.Existing
use rust_dlopen.Dlopen.Link.{
  RelocationInputs, binding_of, Answer, resolved, refused, LoadResult, Session, load_root, resolve,
  contains_key, direct_deps, module_of, plan, linked, link_failed, Callbacks, answer_of,
  plan_relocation, drive,
}
use rust_dlopen.Dlopen.Link.Undo.{IsOpen, IsOpen-lock, IsOpen-of_IsReady}

module _ (L : LinkContext) where
  -- After the first plan the linker only plans, and ends.
  abbrev pub OnlyPlans : Session L → Type 0
  OnlyPlans (load_root key k) = ⊥
  OnlyPlans (resolve o r u v n k) = ⊥
  OnlyPlans (contains_key key k) = ⊥
  OnlyPlans (direct_deps key k) = ⊥
  OnlyPlans (module_of key k) = ⊥
  OnlyPlans (plan scope k) = (i : RelocationInputs) → OnlyPlans (k i)
  OnlyPlans (linked r) = Unit
  OnlyPlans (link_failed e) = Unit

  -- How the linker behaves: it asks for libraries before it plans relocations, and a library that
  -- is registered is visible to every dependency.
  abbrev pub IsProper : Session L → Type 0
  IsProper (load_root key k) = (a : Answer) → IsProper (k a)
  IsProper (resolve o r u v n k) =
      ((m : Manager L) (key : String) → registered L m key ≡ true → v m key ≡ true)
      × ((a : Answer) → IsProper (k a))
  IsProper (contains_key key k) = (a : Bool) → IsProper (k a)
  IsProper (direct_deps key k) = (a : Option (List String)) → IsProper (k a)
  IsProper (module_of key k) = (a : Option LoadedDylib) → IsProper (k a)
  IsProper (plan scope k) = (i : RelocationInputs) → OnlyPlans (k i)
  IsProper (linked r) = Unit
  IsProper (link_failed e) = Unit

module _ (debug : Bool) (L : LinkContext) (laws : LinkContextLaws L) (start : Manager L)
    (p : Platform) (path_laws : PathLaws p) (fuel : ℕ) (root_request : String) where
  -- Where the code returns or fails, the operation can be undone.
  abbrev pub Ends {ℓ} : {A : Type ℓ} → Ran L A → Type 0
  Ends (returned r s) = IsOpen L start s
  Ends (failed e s) = IsOpen L start s
  Ends waiting = Unit
  Ends panicked = Unit
  Ends out_of_fuel = Unit

  answer_lem :
      (P : ResolvedKey → OpenContext L → Type 0) (s : OpenContext L) (r : Ran L ResolvedKey)
      (f : Answer → M L (LoadResult L))
      → Ensures P s r
      → ((key : ResolvedKey) (s' : OpenContext L) → P key s' → Ends (f (resolved key) s'))
      → ((a : Answer) → Ends (f a s))
      → Ends (answer_of r f)
  answer_lem P s (returned key s') f h yes_ no_ = yes_ key s' h
  answer_lem P s (failed e s') f h yes_ no_ =
      subst (λ (t : OpenContext L). Ends (f (refused (into_linker_error e)) t)) (sym h)
        (no_ (refused (into_linker_error e)))
  answer_lem P s waiting f h yes_ no_ = tt
  answer_lem P s panicked f h yes_ no_ = tt
  answer_lem P s out_of_fuel f h yes_ no_ = tt

  with_lem :
      {A : Type 0} (g : Manager L → A) (s : OpenContext L) (f : A → M L (LoadResult L))
      → Ends (f (g s.manager) s)
      → Ends (then_run (with_manager g s) f)
  with_lem {A} g s f h = elim (Bool-cases s.lock) [
    | inl held ↦
        subst (λ (b : Bool). Ends (then_run (if b then returned (g s.manager) s else panicked) f))
          (sym held) h
    | inr given_up ↦
        subst (λ (b : Bool). Ends (then_run (if b then returned (g s.manager) s else panicked) f))
          (sym given_up) tt
  ]

  outcome_lem :
      {A : Type 0} (o : Outcome A) (s : OpenContext L) (f : A → M L (LoadResult L))
      → ((a : A) → Ends (f a s))
      → Ends (then_run (of_outcome o s) f)
  outcome_lem (done a) s f h = h a
  outcome_lem panic s f h = tt

  with_outcome_lem :
      {A : Type 0} (g : Manager L → Outcome A) (s : OpenContext L) (f : A → M L (LoadResult L))
      → ((a : A) → Ends (f a s))
      → Ends (then_run (then_run (with_manager g s) of_outcome) f)
  with_outcome_lem {A} g s f h = elim (Bool-cases s.lock) [
    | inl held ↦
        subst
          (λ (b : Bool).
            Ends
              (then_run (then_run (if b then returned (g s.manager) s else panicked) of_outcome) f))
          (sym held) (outcome_lem (g s.manager) s f h)
    | inr given_up ↦
        subst
          (λ (b : Bool).
            Ends
              (then_run (then_run (if b then returned (g s.manager) s else panicked) of_outcome) f))
          (sym given_up) tt
  ]

  plan_lem :
      (scope : List LoadedDylib) (planned : Option (List LoadedDylib)) (s : OpenContext L)
      (f : List LoadedDylib → M L (LoadResult L))
      → IsOpen L start s
      → ((a : List LoadedDylib) (s' : OpenContext L) → IsOpen L start s' → Ends (f a s'))
      → Ends (then_run (plan_relocation debug L p fuel root_request scope planned s) f)
  unfolding plan_relocation prepare_relocation
  plan_lem scope (some planned) s f o h = h planned s o
  plan_lem scope none s f o h = elim (Bool-cases s.lock) [
    | inl held ↦
        subst
          (λ (b : Bool).
            Ends (then_run (then_run (if b then returned (scope_of s) s else panicked) released) f))
          (sym held) (h (scope_of s) (record s { lock = false }) (IsOpen-lock L start s false o))
    | inr free ↦
        subst
          (λ (b : Bool).
            Ends (then_run (then_run (if b then returned (scope_of s) s else panicked) released) f))
          (sym free) tt
  ]
    where
      scope_of : OpenContext L → List LoadedDylib
      scope_of t = relocation_scope L t.manager scope t.flags

      released : List LoadedDylib → M L (List LoadedDylib)
      released planned t = returned planned (record t { lock = false })

  planned_lem :
      (session : Session L) (c : Callbacks) (s : OpenContext L)
      → OnlyPlans L session
      → IsOpen L start s
      → Ends (drive debug L p fuel root_request session c s)
  unfolding drive
  planned_lem (load_root key k) c s proper o = absurd proper
  planned_lem (resolve w r u v n k) c s proper o = absurd proper
  planned_lem (contains_key key k) c s proper o = absurd proper
  planned_lem (direct_deps key k) c s proper o = absurd proper
  planned_lem (module_of key k) c s proper o = absurd proper
  planned_lem (plan scope k) c s proper o =
      plan_lem scope c.relocation_scope s _ o (λ planned s' o'.
        planned_lem (k (record { scope = planned; binding = binding_of s'.flags }))
          (record c { relocation_scope = some planned }) s'
          (proper (record { scope = planned; binding = binding_of s'.flags })) o')
  planned_lem (linked r) c s proper o = o
  planned_lem (link_failed e) c s proper o = o

  pub drive_lem :
      (session : Session L) (c : Callbacks) (s : OpenContext L)
      → IsProper L session
      → IsReady L start s
      → s.committed ≡ false
      → Ends (drive debug L p fuel root_request session c s)
  unfolding drive resolve_dependency
  drive_lem (load_root key k) c s proper ready open_ =
      let is_root = str_eq key root_request in
      let bytes = if is_root then c.root_bytes else none in
      let c' : Callbacks = record c { root_bytes = if is_root then none else c.root_bytes } in
      answer_lem (Existing.Resolved debug L laws start p none s ready (λ k h. refl)) s
        (resolve_request debug L p fuel none [] [] bytes key s)
        (λ a. drive debug L p fuel root_request (k a) c')
        (resolve_request_lem debug L laws start p none s ready (λ k h. refl) path_laws fuel [] []
          bytes key)
        (λ key' s' h.
          drive_lem (k (resolved key')) c' s' (proper (resolved key')) h.0.ready
            (h.0.same_committed ∙ open_))
        (λ a. drive_lem (k a) c' s (proper a) ready open_)
  drive_lem (resolve w r u v n k) c s proper ready open_ =
      answer_lem
        (Existing.Resolved debug L laws start p (some (v s.manager)) s ready (proper.0 s.manager)) s
        (resolve_request debug L p fuel (some (v s.manager)) (run_path p w r) (run_path p w u) none
          n s)
        (λ a. drive debug L p fuel root_request (k a) c)
        (resolve_request_lem debug L laws start p (some (v s.manager)) s ready (proper.0 s.manager)
          path_laws fuel (run_path p w r) (run_path p w u) none n)
        (λ key s' h.
          drive_lem (k (resolved key)) c s' (proper.1 (resolved key)) h.0.ready
            (h.0.same_committed ∙ open_))
        (λ a. drive_lem (k a) c s (proper.1 a) ready open_)
  drive_lem (contains_key key k) c s proper ready open_ =
      with_lem (λ m. visible_contains L m key) s (λ a. drive debug L p fuel root_request (k a) c)
        (drive_lem (k (visible_contains L s.manager key)) c s
          (proper (visible_contains L s.manager key)) ready open_)
  drive_lem (direct_deps key k) c s proper ready open_ =
      with_outcome_lem (λ m. visible_direct_deps L m key) s
        (λ a. drive debug L p fuel root_request (k a) c)
        (λ a. drive_lem (k a) c s (proper a) ready open_)
  drive_lem (module_of key k) c s proper ready open_ =
      with_lem (λ m. visible_loaded L m key) s (λ a. drive debug L p fuel root_request (k a) c)
        (drive_lem (k (visible_loaded L s.manager key)) c s
          (proper (visible_loaded L s.manager key)) ready open_)
  drive_lem (plan scope k) c s proper ready open_ =
      plan_lem scope c.relocation_scope s _ (IsOpen-of_IsReady L start s s.lock ready open_)
        (λ planned s' o.
          planned_lem (k (record { scope = planned; binding = binding_of s'.flags }))
            (record c { relocation_scope = some planned }) s'
            (proper (record { scope = planned; binding = binding_of s'.flags })) o)
  drive_lem (linked r) c s proper ready open_ = IsOpen-of_IsReady L start s s.lock ready open_
  drive_lem (link_failed e) c s proper ready open_ = IsOpen-of_IsReady L start s s.lock ready open_
