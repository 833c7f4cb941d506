-- ===== src/Debugger/Refine/Ends.antt =====
-- Writes at the two ends of a chain of link maps.
use rust_dlopen.Common.{
  ◌≡◌, ◌≢◌, refl, sym, ◌∙◌, subst, Bool, false, Option, some, [], ◌∷◌, ◌++◌, ◌==◌, arith,
  if◌then◌else◌,
}
use rust_dlopen.Debugger.{
  Ptr, null, Contents, LinkMap, RDebug, World, write, set_map, set_next, set_prev,
}
use rust_dlopen.Debugger.Chain.{
  Entries, has, IsDistinct, first, last, Node, Chain, snoc, frame, Chain-split, Chain-join,
  last-append, has-append, first-append, disjoint_of_IsDistinct,
}

-- The head of the list: the debug structure, whose map is `p`; `brk` says whether it has a callback.
pub record Head (w : World) (brk : Bool) (p : Ptr) : Type 0 where
  pub info : RDebug
  pub ne_null : w.debug ≢ null
  pub holds : w.debugs w.debug ≡ some info
  pub at_first : info.map ≡ p
  pub calls_back : info.brk ≡ brk

-- What a write of `next` pointers at the entries `xs` leaves alone.
pub record Touches (xs : Entries) (w w' : World) : Type 0 where
  pub same_debug : w'.debug ≡ w.debug
  pub same_tail : w'.tail ≡ w.tail
  pub same_seen : w'.seen ≡ w.seen
  pub same_outside : (p : Ptr) → has p xs ≡ false → w'.maps p ≡ w.maps p

-- The pointer to what follows a list is set: in the debug structure if the list is empty, else in
-- its last link map.
abbrev pub set_after : Ptr → Ptr → World → Option World
set_after prev p w = if prev == null then set_map p w else set_next prev p w

set_last :
    (w : World) (start end end' q : Ptr) (c : Contents)
    → Chain w.maps start end ((q, c) ∷ [])
    → (lm : LinkMap) × (set_next q end' w ≡ some (record w { maps = write w.maps q (some lm) }))
      × Node (write w.maps q (some lm)) q c start end'
unfolding set_next
set_last w start end end' q c (n, _) = (
  record { contents = c; l_next = end'; l_prev = start; l_real = n.real },
  ground (arith, n.ne_null, n.holds),
  record { real = n.real; ne_null = n.ne_null; holds = ground arith },
)

-- What `set_after` does to a list whose last `next` pointer is redirected to `end'`.
abbrev pub Redirected : World → Bool → Ptr → Entries → Type 0
Redirected w brk end' xs =
    (w' : World) × (set_after (last null xs) end' w ≡ some w')
    × Head w' brk (first end' xs)
    × Chain w'.maps null end' xs
    × Touches xs w w'

set_after_snoc :
    (w : World) (brk : Bool) (end end' : Ptr) (xs : Entries) (q : Ptr) (c : Contents)
    → Head w brk (first end (xs ++ (q, c) ∷ []))
    → Chain w.maps null end (xs ++ (q, c) ∷ [])
    → IsDistinct (xs ++ (q, c) ∷ [])
    → Redirected w brk end' (xs ++ (q, c) ∷ [])
set_after_snoc w brk end end' xs q c hd ch d =
    let (l, r) = Chain-split w.maps null end xs ((q, c) ∷ []) ch in
    let (lm, e, n) = set_last w (last null xs) end end' q c r in
    let out : has q xs ≡ false = ground (arith, disjoint_of_IsDistinct xs ((q, c) ∷ []) d q) in
    let w' : World = record w { maps = write w.maps q (some lm) } in
    (
      w',
      rw (last-append null xs ((q, c) ∷ [])) (ground (arith, r.0.ne_null, e)),
      record {
        info = hd.info;
        ne_null = hd.ne_null;
        holds = hd.holds;
        at_first =
            hd.at_first
            ∙ first-append end xs ((q, c) ∷ [])
            ∙ sym (first-append end' xs ((q, c) ∷ []));
        calls_back = hd.calls_back;
      },
      Chain-join w'.maps null end' xs ((q, c) ∷ [])
          (frame w.maps w'.maps null q xs l (λ p i. ground arith)) (n, tt),
      record {
        same_debug = refl;
        same_tail = refl;
        same_seen = refl;
        same_outside = λ p o. ground (arith, has-append p xs ((q, c) ∷ []));
      },
    )

pub set_after_lem :
    (w : World) (brk : Bool) (end end' : Ptr) (xs : Entries)
    → Head w brk (first end xs)
    → Chain w.maps null end xs
    → IsDistinct xs
    → Redirected w brk end' xs
unfolding set_map
set_after_lem w brk end end' [] hd ch d = (
  record w { debugs = write w.debugs w.debug (some (record hd.info { map = end' })) },
  ground (arith, hd.ne_null, hd.holds),
  record {
    info = record hd.info { map = end' };
    ne_null = hd.ne_null;
    holds = ground arith;
    at_first = refl;
    calls_back = hd.calls_back;
  },
  tt,
  record { same_debug = refl; same_tail = refl; same_seen = refl; same_outside = λ p o. refl },
)
set_after_lem w brk end end' ((p, c) ∷ xs) hd ch d =
    let (ys, q, e, s) = snoc xs p c in
    subst
      (λ (zs : Entries).
        Head w brk (first end zs)
        → Chain w.maps null end zs
        → IsDistinct zs
        → Redirected w brk end' zs)
      (sym s) (set_after_snoc w brk end end' ys q e) hd ch d

pub set_prev_lem :
    (w : World) (start start' end q : Ptr) (c : Contents) (ys : Entries)
    → Chain w.maps start end ((q, c) ∷ ys)
    → has q ys ≡ false
    → (lm : LinkMap) × (set_prev q start' w ≡ some (record w { maps = write w.maps q (some lm) }))
      × Chain (write w.maps q (some lm)) start' end ((q, c) ∷ ys)
unfolding set_prev
set_prev_lem w start start' end q c ys (n, ch) out =
    let lm : LinkMap = record {
      contents = c;
      l_next = first end ys;
      l_prev = start';
      l_real = n.real;
    } in
    (
      lm,
      ground (arith, n.ne_null, n.holds),
      (
        record { real = n.real; ne_null = n.ne_null; holds = ground arith },
        frame w.maps (write w.maps q (some lm)) q end ys ch (λ p i. ground arith),
      ),
    )
