-- ===== src/Dlopen/Alone.antt =====
-- An operation of src/api/dlopen.rs that no other thread disturbs: what its steps keep.
pub mod Found
pub mod Steps
use rust_dlopen.Common.{
  String, ◌≡◌, refl, Bool, true, false, ◌||◌, Option, none, some, List, [], arith,
}
use rust_dlopen.Common.Eq.{str_eq}
use rust_dlopen.Common.Maybe.{elem}
use rust_dlopen.Registry.LinkContext.{LinkContext}
use rust_dlopen.Registry.State.{Manager}
use rust_dlopen.Registry.Consistent.{IsConsistent, registered}
use rust_dlopen.Dlopen.Rollback.{AreAdded}
use rust_dlopen.Dlopen.Operation.{
  OpenContext, Ran, returned, failed, waiting, panicked, out_of_fuel, M, then_run,
}

module _ {ℓ} {L : LinkContext} {A : Type ℓ} where
  -- Code that was started in `s` returns only as `P` says, does not panic, and where it fails
  -- leaves the state as it was. It may still wait, and its fuel may run out.
  abbrev pub Ensures : (A → OpenContext L → Type 0) → OpenContext L → Ran L A → Type 0
  Ensures P s (returned a s') = P a s'
  Ensures P s (failed e s') = s' ≡ s
  Ensures P s waiting = Unit
  Ensures P s panicked = ⊥
  Ensures P s out_of_fuel = Unit

pub Ensures-then_run {ℓ κ} :
    {L : LinkContext} {A : Type ℓ} {B : Type κ} (P : A → OpenContext L → Type 0)
    (Q : B → OpenContext L → Type 0) (s : OpenContext L) (r : Ran L A) (f : A → M L B)
    → Ensures P s r
    → ((a : A) (s' : OpenContext L) → P a s' → Ensures Q s (f a s'))
    → Ensures Q s (then_run r f)
Ensures-then_run P Q s (returned a s') f h k = k a s' h
Ensures-then_run P Q s (failed e s') f h k = h
Ensures-then_run P Q s waiting f h k = tt
Ensures-then_run P Q s panicked f h k = h
Ensures-then_run P Q s out_of_fuel f h k = tt

module _ (L : LinkContext) (start : Manager L) where
  -- An operation that found the registry `start` and has only reserved names since: the lock is
  -- held, no other thread does anything, the registry is consistent, the reserved names are
  -- distinct and new, and just these were registered since.
  pub record IsReady (s : OpenContext L) : Type 0 where
    pub locked : s.lock ≡ true
    pub alone : s.others ≡ []
    pub consistent : IsConsistent L s.manager
    pub added : AreAdded (registered L s.manager) s.added_names
    pub grown :
        (k : String) → registered L s.manager k ≡ (registered L start k || elem k s.added_names)
    pub fresh : (k : String) → elem k s.added_names ≡ true → registered L start k ≡ false

  pub record Kept (s s' : OpenContext L) : Type 0 where
    pub ready : IsReady s'
    pub same_flags : s'.flags ≡ s.flags
    pub same_committed : s'.committed ≡ s.committed
    pub stays : (k : String) → registered L s.manager k ≡ true → registered L s'.manager k ≡ true
