-- ===== src/Debugger/Chain.antt =====
-- Doubly linked chains of link maps in memory.
use rust_dlopen.Common.{
  ◌≡◌, ◌≢◌, refl, ap, sym, subst, ◌∙◌, Bool, true, false, ◌||◌, some, List, [], ◌∷◌, ◌++◌, ◌==◌,
  arith,
}
use rust_dlopen.Debugger.{Ptr, null, Contents, Maps}

-- The abstract list: the address and the contents of each link map, in order.
abbrev pub Entries : Type 0
Entries = List (Ptr × Contents)

abbrev pub has : Ptr → Entries → Bool
has p [] = false
has p ((q, c) ∷ xs) = (p == q) || has p xs

abbrev pub IsDistinct : Entries → Type 0
IsDistinct [] = Unit
IsDistinct ((p, c) ∷ xs) = (has p xs ≡ false) × IsDistinct xs

-- The first address of a list that `end` follows, and the last of one that `start` precedes.
abbrev pub first : Ptr → Entries → Ptr
first end [] = end
first end ((p, c) ∷ xs) = p

abbrev pub last : Ptr → Entries → Ptr
last start [] = start
last start ((p, c) ∷ xs) = last p xs

-- `p` holds a link map with these contents and neighbours.
pub record Node (h : Maps) (p : Ptr) (c : Contents) (prev next : Ptr) : Type 0 where
  pub real : Ptr
  pub ne_null : p ≢ null
  pub holds : h p ≡ some (record { contents = c; l_next = next; l_prev = prev; l_real = real })

-- The link maps of `xs` are linked in both directions, between `start` and `end`.
abbrev pub Chain : Maps → Ptr → Ptr → Entries → Type 0
Chain h start end [] = Unit
Chain h start end ((p, c) ∷ xs) = Node h p c start (first end xs) × Chain h p end xs

-- A list that is not empty, by its last entry.
pub snoc :
    (xs : Entries) (p : Ptr) (c : Contents)
    → (ys : Entries) × (q : Ptr) × (d : Contents) × ((p, c) ∷ xs ≡ ys ++ (q, d) ∷ [])
snoc [] p c = ([], p, c, refl)
snoc ((r, e) ∷ xs) p c =
    let (ys, q, d, s) = snoc xs r e in ((p, c) ∷ ys, q, d, ap (λ (t : Entries). (p, c) ∷ t) s)

pub has-append : (p : Ptr) (xs ys : Entries) → has p (xs ++ ys) ≡ (has p xs || has p ys)
has-append p [] ys = refl
has-append p ((q, c) ∷ xs) ys = ground (arith, has-append p xs ys)

pub last-append : (start : Ptr) (xs ys : Entries) → last start (xs ++ ys) ≡ last (last start xs) ys
last-append start [] ys = refl
last-append start ((p, c) ∷ xs) ys = last-append p xs ys

pub first-append : (end : Ptr) (xs ys : Entries) → first end (xs ++ ys) ≡ first (first end ys) xs
first-append end [] ys = refl
first-append end ((p, c) ∷ xs) ys = refl

pub disjoint_of_IsDistinct :
    (xs ys : Entries) → IsDistinct (xs ++ ys) → (p : Ptr) → has p xs ≡ true → has p ys ≡ false
disjoint_of_IsDistinct [] ys d p h = cc
disjoint_of_IsDistinct ((q, c) ∷ xs) ys (out, d) p h =
    ground (arith, has-append q xs ys, disjoint_of_IsDistinct xs ys d p)

pub IsDistinct-left : (xs ys : Entries) → IsDistinct (xs ++ ys) → IsDistinct xs
IsDistinct-left [] ys d = tt
IsDistinct-left ((p, c) ∷ xs) ys (out, d) =
    (ground (arith, has-append p xs ys), IsDistinct-left xs ys d)

pub IsDistinct-right : (xs ys : Entries) → IsDistinct (xs ++ ys) → IsDistinct ys
IsDistinct-right [] ys d = d
IsDistinct-right ((p, c) ∷ xs) ys (out, d) = IsDistinct-right xs ys d

pub IsDistinct-snoc :
    (xs : Entries) (p : Ptr) (c : Contents)
    → IsDistinct xs
    → has p xs ≡ false
    → IsDistinct (xs ++ (p, c) ∷ [])
IsDistinct-snoc [] p c d out = (refl, tt)
IsDistinct-snoc ((q, e) ∷ xs) p c (o, d) out =
    (ground (arith, has-append q xs ((p, c) ∷ [])), IsDistinct-snoc xs p c d (ground arith))

pub IsDistinct-drop :
    (xs ys : Entries) (p : Ptr) (c : Contents)
    → IsDistinct (xs ++ (p, c) ∷ ys)
    → IsDistinct (xs ++ ys) × (has p (xs ++ ys) ≡ false)
IsDistinct-drop [] ys p c (out, d) = (d, out)
IsDistinct-drop ((q, e) ∷ xs) ys p c (out, d) =
    let (d', out') = IsDistinct-drop xs ys p c d in
    (
      (ground (arith, has-append q xs ys, has-append q xs ((p, c) ∷ ys)), d'),
      ground (arith, has-append q xs ((p, c) ∷ ys)),
    )

module _ (h : Maps) where
  pub frame :
      (g : Maps) (start end : Ptr) (xs : Entries)
      → Chain h start end xs
      → ((p : Ptr) → has p xs ≡ true → g p ≡ h p)
      → Chain g start end xs
  frame g start end [] ch same = tt
  frame g start end ((p, c) ∷ xs) (n, ch) same = (
    record { real = n.real; ne_null = n.ne_null; holds = same p (ground arith) ∙ n.holds },
    frame g p end xs ch (λ q i. same q (ground arith)),
  )

  pub Chain-split :
      (start end : Ptr) (xs ys : Entries)
      → Chain h start end (xs ++ ys)
      → Chain h start (first end ys) xs × Chain h (last start xs) end ys
  Chain-split start end [] ys ch = (tt, ch)
  Chain-split start end ((p, c) ∷ xs) ys (n, ch) =
      let (l, r) = Chain-split p end xs ys ch in
      ((subst (Node h p c start) (first-append end xs ys) n, l), r)

  pub Chain-join :
      (start end : Ptr) (xs ys : Entries)
      → Chain h start (first end ys) xs
      → Chain h (last start xs) end ys
      → Chain h start end (xs ++ ys)
  Chain-join start end [] ys l r = r
  Chain-join start end ((p, c) ∷ xs) ys (n, l) r =
      (subst (Node h p c start) (sym (first-append end xs ys)) n, Chain-join p end xs ys l r)

  pub last_ne_null :
      (start end p : Ptr) (c : Contents) (xs : Entries)
      → Chain h start end ((p, c) ∷ xs)
      → last p xs ≢ null
  last_ne_null start end p c [] (n, ch) = n.ne_null
  last_ne_null start end p c ((q, d) ∷ xs) (n, ch) = last_ne_null p end q d xs ch
