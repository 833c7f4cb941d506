-- ===== src/Debugger/Refine.antt =====
-- The link maps in memory show an abstract list, and sequences of the operations of
-- src/utils/debug.rs refine sequences of appending and erasing.
pub mod Ends
pub mod Shown
pub mod Add
pub mod Drop
use rust_dlopen.Common.{
  ◌≡◌, ◌≢◌, refl, sym, subst, ap, ◌∙◌, Bool, true, false, Option, none, some, List, [], ◌∷◌, ◌++◌,
  ◌==◌, arith, if◌then◌else◌, Bool-cases, inl, inr, ==_iff,
}
use rust_dlopen.Common.Maybe.{◌>>=◌, bind-some}
use rust_dlopen.Debugger.{
  Ptr, null, Contents, LinkMap, Maps, World, write, create_link_map, drop_extra_data, drop_link_map,
  add_debug_link_map,
}
use rust_dlopen.Debugger.Chain.{Entries, has, first, Chain, frame, IsDistinct-drop}
use rust_dlopen.Debugger.Refine.Ends.{Head}
use rust_dlopen.Debugger.Refine.Shown.{Shows}
use rust_dlopen.Debugger.Refine.Add.{add_lem}
use rust_dlopen.Debugger.Refine.Drop.{drop_lem}

-- A library is loaded with its link map in a box at an address, or the library with the link map
-- at an address ends.
pub data Command : Type 0 where
  load : Ptr → Contents → Command
  unload : Ptr → Command

unfoldable pub erase : Ptr → Entries → Entries
erase p [] = []
erase p ((q, c) ∷ xs) = if q == p then xs else (q, c) ∷ erase p xs

-- The abstract operation: a library that is loaded goes to the end of the list.
unfoldable pub apply : Command → Entries → Entries
unfolding erase
apply (load p c) xs = xs ++ (p, c) ∷ []
apply (unload p) xs = erase p xs

unfoldable pub apply_all : List Command → Entries → Entries
unfolding apply
apply_all [] xs = xs
apply_all (k ∷ ks) xs = apply_all ks (apply k xs)

-- A new box is at an address that is not in use; a library ends that is there.
abbrev pub IsAllowed : Command → Entries → Type 0
IsAllowed (load p c) xs = (p ≢ null) × (has p xs ≡ false)
IsAllowed (unload p) xs = has p xs ≡ true

abbrev pub AreAllowed : List Command → Entries → Type 0
AreAllowed [] xs = Unit
AreAllowed (k ∷ ks) xs = IsAllowed k xs × AreAllowed ks (apply k xs)

module _ (internal : Ptr) where
  -- The operation in memory.
  unfoldable pub perform : Command → World → Option World
  unfolding create_link_map drop_extra_data
  perform (load p c) w = create_link_map internal p c w
  perform (unload p) w = drop_extra_data (some p) w

  unfoldable pub perform_all : List Command → World → Option World
  unfolding perform
  perform_all [] w = some w
  perform_all (k ∷ ks) w = do w' ← perform k w; perform_all ks w'

-- A write at an address that is not on the list is not shown.
Shows-write :
    (w : World) (brk : Bool) (xs : Entries) (p : Ptr) (v : Option LinkMap)
    → Shows w brk xs
    → has p xs ≡ false
    → Shows (record w { maps = write w.maps p v }) brk xs
Shows-write w brk xs p v s out = record {
  head = record {
    info = s.head.info;
    ne_null = s.head.ne_null;
    holds = s.head.holds;
    at_first = s.head.at_first;
    calls_back = s.head.calls_back;
  };
  at_last = s.at_last;
  chain = frame w.maps (write w.maps p v) null null xs s.chain (λ q i. ground arith);
  distinct = s.distinct;
}

-- An entry splits the list, and erasing it joins the parts.
split_at_entry :
    (p : Ptr) (xs : Entries)
    → has p xs ≡ true
    → (before : Entries) × (c : Contents) × (after : Entries) × (xs ≡ before ++ (p, c) ∷ after)
      × (erase p xs ≡ before ++ after)
unfolding erase
split_at_entry p [] h = cc
split_at_entry p ((q, c) ∷ xs) h = elim (Bool-cases (q == p)) [
  | inl e ↦ ([], c, xs, ground arith, rw e)
  | inr e ↦
      let (b, d, a, s, t) = split_at_entry p xs (ground arith) in
      ((q, c) ∷ b, d, a, ap (λ (l : Entries). (q, c) ∷ l) s, rw (e, t))
]

module _ (internal : Ptr) (w : World) (brk : Bool) where
  load_lem :
      (p : Ptr) (c : Contents) (xs : Entries)
      → Shows w brk xs
      → IsAllowed (load p c) xs
      → (w' : World) × (perform internal (load p c) w ≡ some w') × Shows w' brk (xs ++ (p, c) ∷ [])
  unfolding perform
  load_lem p c xs s (ne_null, fresh) =
      let lm : LinkMap = record { contents = c; l_next = null; l_prev = null; l_real = p } in
      let (w', e, s', _, _) =
        add_lem internal (record w { maps = write w.maps p (some lm) }) brk xs p lm
          (Shows-write w brk xs p (some lm) s fresh) fresh ne_null (ground arith) in
      (w', e, s')

  unload_entry :
      (p : Ptr) (c : Contents) (before after : Entries)
      → Shows w brk (before ++ (p, c) ∷ after)
      → (w' : World) × (perform internal (unload p) w ≡ some w') × Shows w' brk (before ++ after)
  unfolding perform
  unload_entry p c before after s =
      let (w', e, s', _, _) = drop_lem w brk before after p c s in
      let out = (IsDistinct-drop before after p c s.distinct).1 in
      (
        record w' { maps = write w'.maps p none },
        rw e,
        Shows-write w' brk (before ++ after) p none s' out,
      )

  step_lem :
      (k : Command) (xs : Entries)
      → Shows w brk xs
      → IsAllowed k xs
      → (w' : World) × (perform internal k w ≡ some w') × Shows w' brk (apply k xs)
  unfolding apply
  step_lem (load p c) xs s a = load_lem p c xs s a
  step_lem (unload p) xs s a =
      let (before, c, after, e, f) = split_at_entry p xs a in
      let (w', run, s') = unload_entry p c before after (subst (Shows w brk) e s) in
      (w', run, subst (Shows w' brk) (sym f) s')

-- From a memory that shows a list, every allowed sequence of loads and unloads runs without a
-- fault, and the memory then shows the list that appending and erasing give: each link map of it
-- with its contents, in order, linked in both directions between the debug structure and the tail.
pub perform_all-refines :
    (internal : Ptr) (brk : Bool) (ks : List Command) (w : World) (xs : Entries)
    → Shows w brk xs
    → AreAllowed ks xs
    → (w' : World) × (perform_all internal ks w ≡ some w') × Shows w' brk (apply_all ks xs)
unfolding perform_all apply_all
perform_all-refines internal brk [] w xs s a = (w, refl, s)
perform_all-refines internal brk (k ∷ ks) w xs s (a, rest) =
    let (w₁, e, s₁) = step_lem internal w brk k xs s a in
    let (w₂, f, s₂) = perform_all-refines internal brk ks w₁ (apply k xs) s₁ rest in
    (w₂, bind-some (perform_all internal ks) e f, s₂)
