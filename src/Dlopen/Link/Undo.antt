-- ===== src/Dlopen/Link/Undo.antt =====
-- The end of an `OpenContext` of src/api/dlopen.rs after a failure, while no other thread does
-- anything.
use rust_dlopen.Common.{
  String, ◌≡◌, ap, ◌∙◌, Bool, true, false, ◌||◌, List, [], arith, if◌then◌else◌, Bool-cases, inl,
  inr,
}
use rust_dlopen.Common.Maybe.{elem}
use rust_dlopen.Common.Outcome.{Outcome, done}
use rust_dlopen.Registry.LinkContext.{LinkContext, LinkContextLaws}
use rust_dlopen.Registry.State.{Manager}
use rust_dlopen.Registry.Consistent.{IsConsistent, registered}
use rust_dlopen.Dlopen.{drop_context}
use rust_dlopen.Dlopen.Rollback.{AreAdded, drop_context_lem}
use rust_dlopen.Dlopen.Platform.{Platform}
use rust_dlopen.Dlopen.Operation.{OpenContext, retake, retaken, roll_back}
use rust_dlopen.Dlopen.Alone.{IsReady}

-- As `IsReady`, of an operation that is not committed and that may have given up the lock.
pub record IsOpen (L : LinkContext) (start : Manager L) (s : OpenContext L) : Type 0 where
  pub alone : s.others ≡ []
  pub consistent : IsConsistent L s.manager
  pub added : AreAdded (registered L s.manager) s.added_names
  pub grown :
      (k : String) → registered L s.manager k ≡ (registered L start k || elem k s.added_names)
  pub fresh : (k : String) → elem k s.added_names ≡ true → registered L start k ≡ false
  pub uncommitted : s.committed ≡ false

pub IsOpen-lock :
    (L : LinkContext) (start : Manager L) (s : OpenContext L) (lock : Bool)
    → IsOpen L start s
    → IsOpen L start (record s { lock = lock })
IsOpen-lock L start s lock o = record {
  alone = o.alone;
  consistent = o.consistent;
  added = o.added;
  grown = o.grown;
  fresh = o.fresh;
  uncommitted = o.uncommitted;
}

pub IsOpen-of_IsReady :
    (L : LinkContext) (start : Manager L) (s : OpenContext L) (lock : Bool)
    → IsReady L start s
    → s.committed ≡ false
    → IsOpen L start (record s { lock = lock })
IsOpen-of_IsReady L start s lock ready open_ = record {
  alone = ready.alone;
  consistent = ready.consistent;
  added = ready.added;
  grown = ready.grown;
  fresh = ready.fresh;
  uncommitted = open_;
}

module _ (debug : Bool) (L : LinkContext) (laws : LinkContextLaws L) (p : Platform)
    (start : Manager L) where
  abbrev dropped : OpenContext L → Outcome (Manager L)
  dropped h = drop_context debug L h.committed h.added_names h.manager

  roll_back-eq :
      (s : OpenContext L)
      → IsOpen L start s
      → roll_back debug L p s ≡ drop_context debug L false s.added_names s.manager
  unfolding roll_back retake
  roll_back-eq s o = elim (Bool-cases s.lock) [
    | inl held ↦ ap (λ (b : Bool). dropped (if b then s else retake s)) held ∙ left
    | inr given_up ↦
        ap (λ (b : Bool). dropped (if b then s else retake s)) given_up
        ∙ ap (λ (acts : List (Manager L → Manager L)). dropped (retaken acts s)) o.alone
        ∙ left
  ]
    where
      left :
          drop_context debug L s.committed s.added_names s.manager
          ≡ drop_context debug L false s.added_names s.manager
      left = ap (λ (b : Bool). drop_context debug L b s.added_names s.manager) o.uncommitted

  -- Closing an operation that was not committed does not panic; the registry is consistent, and
  -- the registered names are those from before the operation.
  pub roll_back_lem :
      (s : OpenContext L)
      → IsOpen L start s
      → (m' : Manager L) × (roll_back debug L p s ≡ done m')
        × IsConsistent L m'
        × ((k : String) → registered L m' k ≡ registered L start k)
  roll_back_lem s o =
      let (m', e, c, left) =
        drop_context_lem L laws debug s.added_names s.manager o.consistent o.added in
      (m', roll_back-eq s o ∙ e, c, λ k. ground (arith, left k, o.grown k, o.fresh k))
