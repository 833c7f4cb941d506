-- ===== src/Debugger/Host.antt =====
-- The link maps of the system's own loader: `init_host_debug` and `find_host_link_map` of
-- src/host_init.rs. A walk along `next` pointers takes fuel; it is `none` at a fault and when the
-- fuel runs out.
use rust_dlopen.Common.{
  ℕ, zero, suc, ◌≡◌, ◌≢◌, ◌<◌, refl, true, false, Option, none, some, [], ◌∷◌, ◌==◌, arith, length,
  if◌then◌else◌,
}
use rust_dlopen.Common.Maybe.{◌>>=◌}
use rust_dlopen.Debugger.{Ptr, null, Contents, RDebug, Maps, World, read}
use rust_dlopen.Debugger.Chain.{Entries, IsDistinct, first, last, Chain}
use rust_dlopen.Debugger.Refine.Shown.{Shows}

-- The loop of `init_host_debug`: the last link map from `cur` on.
unfoldable pub walk_to_end : ℕ → Ptr → Maps → Option Ptr
walk_to_end zero cur h = none
walk_to_end (suc fuel) cur h = do
  lm ← read h cur
  let rest = walk_to_end fuel lm.l_next h
  if lm.l_next == null then some cur else rest

unfoldable pub init_host_debug : ℕ → Ptr → World → Option World
unfolding walk_to_end
init_host_debug fuel debug w = do
  d ← read w.debugs debug
  tail ← if d.map == null then some null else walk_to_end fuel d.map w.maps
  some (record w { debug = debug; tail = tail })

-- The loop of `find_host_link_map`, with the address of the link map or null.
unfoldable pub find_from : ℕ → ℕ → Ptr → Maps → Option Ptr
find_from zero base cur h = none
find_from (suc fuel) base cur h = elim (cur == null) [
  | true ↦ some null
  | false ↦ (do
    lm ← read h cur
    let rest = find_from fuel base lm.l_next h
    if lm.contents.l_addr == base then some cur else rest)
]

unfoldable pub find_host_link_map : ℕ → ℕ → World → Option Ptr
unfolding find_from
find_host_link_map fuel base w =
    if w.debug == null
    then some null
    else (do d ← read w.debugs w.debug; find_from fuel base d.map w.maps)

walk_to_end_lem :
    (h : Maps) (start p : Ptr) (c : Contents) (xs : Entries) (fuel : ℕ)
    → Chain h start null ((p, c) ∷ xs)
    → length xs < fuel
    → walk_to_end fuel p h ≡ some (last p xs)
unfolding walk_to_end
walk_to_end_lem h start p c xs zero ch f = absurd (omega arith)
walk_to_end_lem h start p c [] (suc fuel) (n, ch) f = ground (arith, n.ne_null, n.holds)
walk_to_end_lem h start p c ((q, d) ∷ xs) (suc fuel) (n, ch) f =
    ground (arith, n.ne_null, n.holds, ch.0.ne_null, walk_to_end_lem h p q d xs fuel ch)

tail_lem :
    (h : Maps) (xs : Entries) (fuel : ℕ)
    → Chain h null null xs
    → length xs < fuel
    → (if first null xs == null then some null else walk_to_end fuel (first null xs) h)
      ≡ some (last null xs)
tail_lem h [] fuel ch f = ground arith
tail_lem h ((p, c) ∷ xs) fuel ch f =
    ground (arith, ch.0.ne_null, walk_to_end_lem h null p c xs fuel ch)

-- The address of the first link map of a library at `base`, or null.
unfoldable pub address_of : ℕ → Entries → Ptr
address_of base [] = null
address_of base ((p, c) ∷ xs) = if c.l_addr == base then p else address_of base xs

find_from_lem :
    (h : Maps) (base : ℕ) (start : Ptr) (xs : Entries) (fuel : ℕ)
    → Chain h start null xs
    → length xs < fuel
    → find_from fuel base (first null xs) h ≡ some (address_of base xs)
unfolding find_from address_of
find_from_lem h base start xs zero ch f = absurd (omega arith)
find_from_lem h base start [] (suc fuel) ch f = ground arith
find_from_lem h base start ((p, c) ∷ xs) (suc fuel) (n, ch) f =
    ground (arith, n.ne_null, n.holds, find_from_lem h base p xs fuel ch)

module _ (w : World) (debug : Ptr) (d : RDebug) (xs : Entries) (fuel : ℕ) where
  -- The system's debug structure at `debug` and its list.
  pub record IsHosted : Type 0 where
    pub ne_null : debug ≢ null
    pub holds : w.debugs debug ≡ some d
    pub at_first : d.map ≡ first null xs
    pub chain : Chain w.maps null null xs
    pub distinct : IsDistinct xs

  -- With more fuel than the system's list is long, taking it over runs without a fault, the memory
  -- shows that list, and looking for a base address finds its first link map there, or null if none
  -- has it.
  pub init_host_debug_lem :
      IsHosted
      → length xs < fuel
      → (w' : World) × (init_host_debug fuel debug w ≡ some w')
        × Shows w' d.brk xs
        × ((base : ℕ) → find_host_link_map fuel base w' ≡ some (address_of base xs))
  unfolding init_host_debug find_host_link_map
  init_host_debug_lem s f =
      let given : (debug == null) ≡ false = ground (arith, s.ne_null) in
      (
        record w { debug = debug; tail = last null xs },
        rw (given, s.holds, s.at_first, tail_lem w.maps xs fuel s.chain f),
        record {
          head = record {
            info = d;
            ne_null = s.ne_null;
            holds = s.holds;
            at_first = s.at_first;
            calls_back = refl;
          };
          at_last = refl;
          chain = s.chain;
          distinct = s.distinct;
        },
        λ base. rw (given, s.holds, s.at_first) (find_from_lem w.maps base null xs fuel s.chain f),
      )
