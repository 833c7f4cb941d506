-- ===== src/LdCache/Search.antt =====
-- The search of `LdCache::lookup`, for a table that is given by its accessors.
use rust_dlopen.Common.{
  ℕ, zero, suc, ◌+◌, ◌-◌, ◌/◌, Bool, true, false, Option, none, some, List, [], ◌∷◌, ◌==◌, ltb,
}
use Prim.Native.Nat.{compare, Ordering}
use rust_dlopen.Common.Outcome.{Outcome, done, ◌>>=◌}

abbrev pub Text : Type 0
Text = List ℕ

unfoldable pub starts_with_slash : Text → Bool
starts_with_slash [] = false
starts_with_slash (c ∷ s) = c == b'/'

-- `str::cmp`: the bytes in lexicographic order.
unfoldable pub cmp : Text → Text → Ordering
cmp [] [] = Ordering.eq
cmp [] (y ∷ ys) = Ordering.lt
cmp (x ∷ xs) [] = Ordering.gt
cmp (x ∷ xs) (y ∷ ys) = elim (compare x y) [
  | Ordering.lt ↦ Ordering.lt
  | Ordering.gt ↦ Ordering.gt
  | Ordering.eq ↦ cmp xs ys
]

unfoldable pub is_name : Text → Option Text → Bool
unfolding cmp
is_name name none = false
is_name name (some other) = elim (cmp other name) [ Ordering.eq ↦ true | _ ↦ false ]

-- Where a binary search ends.
pub data Probe : Type 0 where
  unreadable : Probe
  absent : Probe
  found_at : ℕ → Text → Probe

module _ (get_name : ℕ → Outcome (Option Text)) (check_flags : ℕ → Bool)
    (get_path : ℕ → Outcome (Option Text)) where
  -- The loop of the binary search, with fuel; `order` compares the name that is looked for with
  -- the one that is probed.
  unfoldable pub search : (Text → Ordering) → ℕ → ℕ → ℕ → Outcome Probe
  search order zero left right = done absent
  search order (suc fuel) left right = elim (ltb left right) [
    | false ↦ done absent
    | true ↦ get_name (left + (right - left) / 2) >>= λ probed. elim probed [
      | none ↦ done unreadable
      | some name ↦ elim (order name) [
        | Ordering.eq ↦ done (found_at (left + (right - left) / 2) name)
        | Ordering.lt ↦ search order fuel left (left + (right - left) / 2)
        | Ordering.gt ↦ search order fuel (left + (right - left) / 2 + 1) right
      ]
    ]
  ]

  -- The loop that goes back to the first entry with the name.
  unfoldable pub first_same : Text → ℕ → Outcome ℕ
  unfolding is_name
  first_same name zero = done 0
  first_same name (suc start) = get_name start >>= λ before. elim (is_name name before) [
    | true ↦ first_same name start
    | false ↦ done (suc start)
  ]

  -- The path of an entry that suits this machine.
  unfoldable pub suitable_path : ℕ → Outcome (Option Text)
  suitable_path i = elim (check_flags i) [ true ↦ get_path i | false ↦ done none ]

  -- The scan over the entries with the name, with the entries that are left.
  unfoldable pub scan : Text → ℕ → ℕ → Outcome (Option Text)
  unfolding is_name suitable_path
  scan name zero i = done none
  scan name (suc left) i = get_name i >>= λ here. elim (is_name name here) [
    | false ↦ done none
    | true ↦ suitable_path i >>= λ path. elim path [
      | some p ↦ done (some p)
      | none ↦ scan name left (i + 1)
    ]
  ]

  unfoldable pub scan_matches : ℕ → Probe → Outcome (Option Text)
  unfolding first_same scan
  scan_matches nlibs unreadable = done none
  scan_matches nlibs absent = done none
  scan_matches nlibs (found_at mid name) =
      first_same name mid >>= λ start. scan name (nlibs - start) start

  abbrev pub order_of : Text → Text → Text → Text → Ordering
  order_of first last lib_name = elim (cmp first last) [
    | Ordering.gt ↦ λ name. cmp name lib_name
    | Ordering.eq ↦ cmp lib_name
    | Ordering.lt ↦ cmp lib_name
  ]

  -- `lookup`: the order of the table is read off its first and last names.
  unfoldable pub lookup_sorted : ℕ → Text → Outcome (Option Text)
  unfolding search scan_matches
  lookup_sorted nlibs lib_name = elim (nlibs == 0) [
    | true ↦ done none
    | false ↦ get_name 0 >>= λ first. elim first [
      | none ↦ done none
      | some first_name ↦ get_name (nlibs - 1) >>= λ last. elim last [
        | none ↦ done none
        | some last_name ↦
            search (order_of first_name last_name lib_name) nlibs 0 nlibs >>= scan_matches nlibs
      ]
    ]
  ]
