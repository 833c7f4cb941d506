-- ===== src/Debugger/Refine/Shown.antt =====
-- What the memory shows of an abstract list of link maps, and the calls of the breakpoint function.
use mathlib.Core.List.{append_assoc, append-nil}
use rust_dlopen.Common.{
  ℕ, ◌≡◌, refl, sym, subst, Bool, true, false, some, List, [], ◌∷◌, ◌++◌, arith, if◌then◌else◌,
}
use rust_dlopen.Debugger.{Ptr, null, Snapshot, Maps, World, rt_consistent, write, announce}
use rust_dlopen.Debugger.Chain.{Entries, has, IsDistinct, first, last, Chain}
use rust_dlopen.Debugger.Refine.Ends.{Head}

-- Memory shows exactly the link maps of `xs`, in order, linked in both directions, between the
-- debug structure and the tail.
pub record Shows (w : World) (brk : Bool) (xs : Entries) : Type 0 where
  pub head : Head w brk (first null xs)
  pub at_last : w.tail ≡ last null xs
  pub chain : Chain w.maps null null xs
  pub distinct : IsDistinct xs

-- A debugger that is called sees the list `xs` in the state `state`.
pub record Reports (s : Snapshot) (state : ℕ) (xs : Entries) : Type 0 where
  pub in_state : s.shown_state ≡ state
  pub from_first : s.shown_map ≡ first null xs
  pub links : Chain s.shown_maps null null xs

-- What is known after a call of the breakpoint function.
pub record Announced (state : ℕ) (w w' : World) (brk : Bool) (p : Ptr) : Type 0 where
  pub run : announce state w ≡ some w'
  pub head : Head w' brk p
  pub same_maps : w'.maps ≡ w.maps
  pub same_tail : w'.tail ≡ w.tail
  pub shown : Snapshot
  pub calls : w'.seen ≡ (if brk then w.seen ++ shown ∷ [] else w.seen)
  pub shows_state : shown.shown_state ≡ state
  pub shows_map : shown.shown_map ≡ p
  pub shows_maps : shown.shown_maps ≡ w.maps

pub announce_lem :
    (state : ℕ) (w : World) (brk : Bool) (p : Ptr)
    → Head w brk p
    → (w' : World) × Announced state w w' brk p
unfolding announce
announce_lem state w brk p hd =
    let shot : Snapshot = record {
      shown_state = state;
      shown_map = hd.info.map;
      shown_maps = w.maps;
    } in
    (
      record w {
        debugs = write w.debugs w.debug (some (record hd.info { state = state }));
        seen = if hd.info.brk then w.seen ++ shot ∷ [] else w.seen;
      },
      record {
        run = ground (arith, hd.ne_null, hd.holds);
        head = record {
          info = record hd.info { state = state };
          ne_null = hd.ne_null;
          holds = ground arith;
          at_first = hd.at_first;
          calls_back = hd.calls_back;
        };
        same_maps = refl;
        same_tail = refl;
        shown = shot;
        calls = rw hd.calls_back;
        shows_state = refl;
        shows_map = hd.at_first;
        shows_maps = refl;
      },
    )

pub Reports-of_Announced :
    (state : ℕ) (w w' : World) (brk : Bool) (xs : Entries)
    (a : Announced state w w' brk (first null xs))
    → Chain w.maps null null xs
    → Reports a.shown state xs
Reports-of_Announced state w w' brk xs a ch = record {
  in_state = a.shows_state;
  from_first = a.shows_map;
  links = subst (λ (h : Maps). Chain h null null xs) (sym a.shows_maps) ch;
}

-- An operation that begins with the breakpoint callback `brk` calls it twice: the debugger sees the
-- list `during` in the state `state`, and then the list `after` in the consistent state.
pub record Told (w w' : World) (brk : Bool) (state : ℕ) (during after : Entries) : Type 0 where
  pub one : Snapshot
  pub two : Snapshot
  pub calls : w'.seen ≡ w.seen ++ (if brk then one ∷ two ∷ [] else [])
  pub reports_one : Reports one state during
  pub reports_two : Reports two rt_consistent after

pub calls_twice :
    (brk : Bool) (seen : List Snapshot) (a b : Snapshot)
    → (if brk
        then (if brk then seen ++ a ∷ [] else seen) ++ b ∷ []
        else if brk
        then seen ++ a ∷ []
        else seen)
      ≡ seen ++ (if brk then a ∷ b ∷ [] else [])
calls_twice true seen a b = simp append_assoc
calls_twice false seen a b = simp append-nil

-- Only the link maps of `xs` may differ.
abbrev pub SameOutside : Entries → World → World → Type 0
SameOutside xs w w' = (q : Ptr) → has q xs ≡ false → w'.maps q ≡ w.maps q
