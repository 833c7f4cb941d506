-- ===== src/LdCache/Laws.antt =====
-- `LdCache::lookup` of src/utils/ld_cache.rs, on sorted tables.
use Prim.Native.Nat.{Ordering}
use rust_dlopen.Common.{
  ℕ, zero, suc, ◌+◌, ◌-◌, ◌/◌, ◌≤◌, ◌<◌, ◌≡◌, ◌∙◌, refl, sym, ◌⊎◌, inl, inr, Bool, true, false,
  Option, none, some, ◌==◌, ltb, arith, Bool-cases, Option-cases,
}
use rust_dlopen.Common.Outcome.{Outcome, done, bind-done}
use rust_dlopen.LdCache.Search.{
  Text, cmp, is_name, found_at, search, first_same, suitable_path, scan, scan_matches, order_of,
  lookup_sorted,
}
use rust_dlopen.LdCache.Order.{cmp_refl, cmp-eq, lt_trans, gt_trans, order-cases, one_less}

module _ (get_name : ℕ → Outcome (Option Text)) (check_flags : ℕ → Bool)
    (get_path : ℕ → Outcome (Option Text)) (n : ℕ) (names : ℕ → Text) (lib_name : Text)
    (readable : (i : ℕ) → i < n → get_name i ≡ done (some (names i)))
    (sorted : (i j : ℕ) → i ≤ j → j < n → cmp (names i) (names j) ≡ Ordering.gt → ⊥) where
  stays_lt :
      (i j : ℕ)
      → i ≤ j
      → j < n
      → cmp lib_name (names i) ≡ Ordering.lt
      → cmp lib_name (names j) ≡ Ordering.lt
  stays_lt i j h k e = lt_trans lib_name (names i) (names j) e (sorted i j h k)

  stays_gt :
      (i j : ℕ)
      → i ≤ j
      → j < n
      → cmp lib_name (names j) ≡ Ordering.gt
      → cmp lib_name (names i) ≡ Ordering.gt
  stays_gt i j h k e = gt_trans lib_name (names i) (names j) e (sorted i j h k)

  is_name-true : (a : Text) → is_name lib_name (some a) ≡ true → a ≡ lib_name
  unfolding is_name
  is_name-true a h = elim (order-cases (cmp a lib_name)) [
    | inl o ↦ cmp-eq a lib_name o
    | inr (inl o) ↦ absurd (ground (arith, h, o))
    | inr (inr o) ↦ absurd (ground (arith, h, o))
  ]

  is_name-false : (a : Text) → is_name lib_name (some a) ≡ false → a ≡ lib_name → ⊥
  unfolding is_name
  is_name-false a h e = let r = cmp_refl lib_name in ground (arith, h, e, r)

  is_name-lib : is_name lib_name (some lib_name) ≡ true
  unfolding is_name
  is_name-lib = rw (is_name, cmp_refl lib_name)

  -- An entry between two that have the name has it.
  sandwich :
      (i j l : ℕ)
      → i ≤ j
      → j ≤ l
      → l < n
      → names i ≡ lib_name
      → names l ≡ lib_name
      → names j ≡ lib_name
  sandwich i j l h k p a b =
      let at_i : cmp lib_name (names i) ≡ Ordering.eq = rw a (cmp_refl lib_name) in
      let at_l : cmp lib_name (names l) ≡ Ordering.eq = rw b (cmp_refl lib_name) in
      let lt_l = stays_lt j l k p in
      let gt_i = stays_gt i j h (omega arith) in
      sym (cmp-eq lib_name (names j) (ground (arith, at_i, at_l, lt_l, gt_i)))

  left_half :
      (k mid : ℕ)
      → mid < n
      → names k ≡ lib_name
      → cmp lib_name (names mid) ≡ Ordering.lt
      → k < n
      → k < mid
  left_half k mid h e o l = elim (Bool-cases (ltb k mid)) [
    | inl t ↦ ground (arith, t)
    | inr t ↦
        let at_k : cmp lib_name (names k) ≡ Ordering.eq = rw e (cmp_refl lib_name) in
        let lt_k = stays_lt mid k (ground (arith, t)) l o in absurd (ground (arith, at_k, lt_k))
  ]

  right_half :
      (k mid : ℕ) → mid < n → names k ≡ lib_name → cmp lib_name (names mid) ≡ Ordering.gt → mid < k
  right_half k mid h e o = elim (Bool-cases (ltb mid k)) [
    | inl t ↦ ground (arith, t)
    | inr t ↦
        let at_k : cmp lib_name (names k) ≡ Ordering.eq = rw e (cmp_refl lib_name) in
        let gt_k = stays_gt k mid (ground (arith, t)) h o in absurd (ground (arith, at_k, gt_k))
  ]

  -- The table is taken to be ascending.
  ascending :
      0 < n
      → order_of get_name check_flags get_path (names 0) (names (n - 1)) lib_name ≡ cmp lib_name
  ascending h = elim (order-cases (cmp (names 0) (names (n - 1)))) [
    | inl o ↦ rw (order_of, o) refl
    | inr (inl o) ↦ rw (order_of, o) refl
    | inr (inr o) ↦ absurd (sorted 0 (n - 1) (omega arith) (omega arith) o)
  ]

  search_lem :
      (fuel left right k : ℕ)
      → left ≤ k
      → k < right
      → right ≤ n
      → right - left ≤ fuel
      → names k ≡ lib_name
      → (mid : ℕ) × (search get_name check_flags get_path (cmp lib_name) fuel left right
          ≡ done (found_at mid (names mid)))
        × (mid < n)
        × (names mid ≡ lib_name)
  unfolding search
  search_lem zero left right k a b c d e = absurd (omega arith)
  search_lem (suc fuel) left right k a b c d e =
      let mid : ℕ = left + (right - left) / 2 in
      let open_ : ltb left right ≡ true = ground arith in
      let low : left ≤ mid = omega arith in
      let high : mid < right = omega arith in
      let r = readable mid (omega arith) in
      elim (order-cases (cmp lib_name (names mid))) [
        | inl o ↦ (
          mid,
          rw (search, open_) (bind-done _ r (rw o refl)),
          omega arith,
          sym (cmp-eq lib_name (names mid) o),
        )
        | inr (inl o) ↦
            let before : k < mid = left_half k mid (omega arith) e o (omega arith) in
            let (x, f, l, w) = search_lem fuel left mid k a before (omega arith) (omega arith) e in
            (x, rw (search, open_) (bind-done _ r (rw o f)), l, w)
        | inr (inr o) ↦
            let after : mid < k = right_half k mid (omega arith) e o in
            let (x, f, l, w) =
              search_lem fuel (mid + 1) right k (omega arith) b c (omega arith) e in
            (x, rw (search, open_) (bind-done _ r (rw o f)), l, w)
      ]

  -- The way back stops at an entry from which on all have the name.
  first_same_lem :
      (mid : ℕ)
      → mid < n
      → names mid ≡ lib_name
      → (start : ℕ) × (first_same get_name check_flags get_path lib_name mid ≡ done start)
        × (start ≤ mid)
        × (names start ≡ lib_name)
        × ((start ≡ 0) ⊎ (names (start - 1) ≡ lib_name → ⊥))
  unfolding first_same
  first_same_lem zero h e = (0, refl, omega arith, e, inl refl)
  first_same_lem (suc i) h e =
      let r = readable i (omega arith) in
      elim (Bool-cases (is_name lib_name (some (names i)))) [
        | inl t ↦
            let (start, f, l, p, q) = first_same_lem i (omega arith) (is_name-true (names i) t) in
            (start, bind-done _ r (rw t f), omega arith, p, q)
        | inr t ↦ (
          suc i,
          bind-done _ r (rw t refl),
          omega arith,
          e,
          inr (rw (one_less i) (is_name-false (names i) t)),
        )
      ]

  module _ (paths : ℕ → Option Text)
      (path_readable : (i : ℕ) → i < n → get_path i ≡ done (paths i)) where
    -- An entry that the lookup may answer with, and its path.
    pub record Suits (i : ℕ) (p : Text) : Type 0 where
      pub inside : i < n
      pub same_name : names i ≡ lib_name
      pub suitable : check_flags i ≡ true
      pub path : paths i ≡ some p

    nothing_here :
        (i : ℕ)
        → i < n
        → check_flags i ≡ false
        → suitable_path get_name check_flags get_path i ≡ done none
    unfolding suitable_path
    nothing_here i h c = rw (suitable_path, c)

    path_here :
        (i : ℕ)
        → i < n
        → check_flags i ≡ true
        → suitable_path get_name check_flags get_path i ≡ done (paths i)
    unfolding suitable_path
    path_here i h c = rw (suitable_path, c) (path_readable i h)

    answer :
        (i : ℕ) (q : Text)
        → i < n
        → check_flags i ≡ true
        → paths i ≡ some q
        → suitable_path get_name check_flags get_path i ≡ done (some q)
    answer i q h c e = path_here i h c ∙ rw e refl

    no_answer :
        (i : ℕ)
        → i < n
        → check_flags i ≡ true
        → paths i ≡ none
        → suitable_path get_name check_flags get_path i ≡ done none
    no_answer i h c e = path_here i h c ∙ rw e refl

    not_here :
        (i k : ℕ) (p : Text)
        → i ≤ k
        → Suits k p
        → suitable_path get_name check_flags get_path i ≡ done none
        → i < k
    not_here i k p h s e = elim (Bool-cases (i == k)) [
      | inr t ↦ ground (arith, t)
      | inl t ↦
          let same : i ≡ k = ground (arith, t) in
          let here = path_here k s.inside s.suitable in
          absurd (ground (arith, same, here, e, s.path))
    ]

    -- The entry that is looked for is not in front of the first entry of its run.
    run_start :
        (start mid k : ℕ) (p : Text)
        → start ≤ mid
        → mid < n
        → names mid ≡ lib_name
        → Suits k p
        → ((start ≡ 0) ⊎ (names (start - 1) ≡ lib_name → ⊥))
        → start ≤ k
    run_start start mid k p a b e s (inl z) = omega arith
    run_start start mid k p a b e s (inr new) = elim (Bool-cases (ltb k start)) [
      | inr t ↦ ground (arith, t)
      | inl t ↦
          let low : k ≤ start - 1 = ground (arith, t) in
          absurd (new (sandwich k (start - 1) mid low (omega arith) b s.same_name e))
    ]

    scan_lem :
        (left i k : ℕ) (p : Text)
        → i ≤ k
        → k < i + left
        → names i ≡ lib_name
        → Suits k p
        → (q : Text) × (j : ℕ) × (scan get_name check_flags get_path lib_name left i
            ≡ done (some q))
          × Suits j q
    unfolding scan
    scan_lem zero i k p a b e s = absurd (omega arith)
    scan_lem (suc left) i k p a b e s =
        let inside : i < n = omega (arith, s.inside) in
        let r : get_name i ≡ done (some lib_name) = readable i inside ∙ rw e in
        let after : suitable_path get_name check_flags get_path i ≡ done none
            → (q : Text) × (j : ℕ) × (scan get_name check_flags get_path lib_name (suc left) i
                ≡ done (some q))
              × Suits j q =
          λ nothing.
            (let later : i < k = not_here i k p a s nothing in
              let next : names (i + 1) ≡ lib_name =
                sandwich i (i + 1) k (omega arith) (omega arith) s.inside e s.same_name in
              let (q, j, f, t) = scan_lem left (i + 1) k p (omega arith) (omega arith) next s in
              (q, j, bind-done _ r (rw is_name-lib (bind-done _ nothing f)), t)) in
        elim (Bool-cases (check_flags i)) [
          | inr c ↦ after (nothing_here i inside c)
          | inl c ↦ elim (Option-cases (paths i)) [
            | inl none_ ↦ after (no_answer i inside c none_)
            | inr (q, some_) ↦ (
              q,
              i,
              bind-done _ r (rw is_name-lib (bind-done _ (answer i q inside c some_) refl)),
              record { inside = inside; same_name = e; suitable = c; path = some_ },
            )
          ]
        ]

    -- If the names and paths of all entries can be read, the names are in ascending order, and
    -- some entry has the name that is looked for, the right flags and a path, then the lookup does
    -- not panic and answers with the path of such an entry.
    pub lookup_sorted_lem :
        (k : ℕ) (p : Text)
        → Suits k p
        → (q : Text) × (j : ℕ) × (lookup_sorted get_name check_flags get_path n lib_name
            ≡ done (some q))
          × Suits j q
    unfolding lookup_sorted scan_matches
    lookup_sorted_lem k p s =
        let some_entry : (n == 0) ≡ false = (let l = s.inside in ground arith) in
        let first = readable 0 (omega (arith, s.inside)) in
        let last = readable (n - 1) (omega (arith, s.inside)) in
        let (mid, probed, inside, same) =
          search_lem n 0 n k (omega arith) s.inside (omega arith) (omega arith) s.same_name in
        let searched : search get_name check_flags get_path
              (order_of get_name check_flags get_path (names 0) (names (n - 1)) lib_name) n 0 n
            ≡ done (found_at mid (names mid)) =
          rw (ascending (omega (arith, s.inside))) probed in
        let (start, back, before, start_name, run) = first_same_lem mid inside same in
        let from : start ≤ k = run_start start mid k p before inside same s run in
        let (q, j, found, t) =
          scan_lem (n - start) start k p from (omega (arith, s.inside)) start_name s in
        (
          q,
          j,
          rw (lookup_sorted, some_entry)
              (bind-done _ first
                (bind-done _ last (bind-done _ searched (rw same (bind-done _ back found))))),
          t,
        )
