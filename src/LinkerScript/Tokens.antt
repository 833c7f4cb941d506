-- ===== src/LinkerScript/Tokens.antt =====
-- Words and tokens as they are written, for `tokenize` of src/utils/linker_script.rs.
use rust_dlopen.Common.{
  ℕ, zero, suc, ◌≤◌, ◌<◌, ◌≡◌, ◌∙◌, refl, Bool, true, false, not, ◌&&◌, ◌||◌, List, [], ◌∷◌, ◌++◌,
  ◌==◌, length, length-append, arith, Bool-cases, inl, inr,
}
use rust_dlopen.LinkerScript.{
  Text, is_whitespace, is_paren, is_break, starts_with, take_word, tokenize_from, open_paren,
  close_paren,
}

-- A word that the tokenizer gives back as one token.
unfoldable pub has_break : Text → Bool
has_break [] = false
has_break (c ∷ w) = is_break c || has_break w

unfoldable pub is_word : Text → Bool
is_word [] = false
is_word (c ∷ w) = not (has_break (c ∷ w)) && not (c == b'/' && starts_with b'*' w)

-- Tokens written out, each followed by a space.
unfoldable pub print : List Text → Text
print [] = []
print (t ∷ ts) = t ++ b' ' ∷ print ts

take_word_lem : (w s : Text) → has_break w ≡ false → take_word (w ++ b' ' ∷ s) ≡ (w, b' ' ∷ s)
unfolding take_word has_break
take_word_lem [] s h = unfold is_break is_whitespace in refl
take_word_lem (c ∷ w) s h = ground (arith, take_word_lem w s)

tokenize_blank : (fuel : ℕ) (s : Text) → tokenize_from (suc fuel) (b' ' ∷ s) ≡ tokenize_from fuel s
unfolding tokenize_from is_whitespace
tokenize_blank fuel s = refl

word_head :
    (c : ℕ) (w : Text)
    → is_word (c ∷ w) ≡ true
    → (is_whitespace c ≡ false)
      × (is_paren c ≡ false)
      × (has_break w ≡ false)
      × ((c == b'/' && starts_with b'*' w) ≡ false)
unfolding is_word has_break is_break
word_head c w h = elim (Bool-cases (c == b'/' && starts_with b'*' w)) [
  | inl e ↦
      absurd (
        and_false (c == b'/') (starts_with b'*' w) (has_break w) (is_whitespace c || is_paren c) e
          h)
  | inr e ↦ parts (is_whitespace c) (is_paren c) (has_break w) (c == b'/' && starts_with b'*' w) h e
]
  where
    and_false : (x y b p : Bool) → (x && y) ≡ true → (not (p || b) && not (x && y)) ≡ true → ⊥
    and_false x y b p e h = ground arith

    parts :
        (ws paren b k : Bool)
        → (not ((ws || paren) || b) && not k) ≡ true
        → k ≡ false
        → (ws ≡ false) × (paren ≡ false) × (b ≡ false) × (k ≡ false)
    parts ws paren b k h e = ground arith

starts_with-word : (w s : Text) → starts_with b'*' (w ++ b' ' ∷ s) ≡ starts_with b'*' w
unfolding starts_with
starts_with-word [] s = refl
starts_with-word (d ∷ w) s = refl

tokenize_word :
    (fuel c : ℕ) (w s : Text)
    → is_word (c ∷ w) ≡ true
    → tokenize_from (suc fuel) (c ∷ w ++ b' ' ∷ s) ≡ (c ∷ w) ∷ tokenize_from fuel (b' ' ∷ s)
unfolding tokenize_from
tokenize_word fuel c w s h =
    let (ws, paren, whole, plain) = word_head c w h in
    rw (tokenize_from, ws, paren, starts_with-word w s, plain, take_word_lem w s whole)

tokenize_paren :
    (fuel c : ℕ) (s : Text)
    → is_whitespace c ≡ false
    → is_paren c ≡ true
    → tokenize_from (suc fuel) (c ∷ s) ≡ (c ∷ []) ∷ tokenize_from fuel s
unfolding tokenize_from
tokenize_paren fuel c s h k = rw (tokenize_from, h, k)

-- A token of a printed script: a parenthesis or a word.
pub data IsToken : Text → Type 0 where
  opening : IsToken open_paren
  closing : IsToken close_paren
  word : (c : ℕ) (w : Text) → is_word (c ∷ w) ≡ true → IsToken (c ∷ w)

abbrev pub AllTokens : List Text → Type 0
AllTokens [] = Unit
AllTokens (t ∷ ts) = IsToken t × AllTokens ts

token_positive : (t : Text) → IsToken t → 0 < length t
token_positive t opening = omega arith
token_positive t closing = omega arith
token_positive t (word c w h) = omega arith

tokenize_token :
    (fuel : ℕ) (t s : Text)
    → IsToken t
    → tokenize_from (suc (suc fuel)) (t ++ b' ' ∷ s) ≡ t ∷ tokenize_from fuel s
tokenize_token fuel t s opening =
    tokenize_paren (suc fuel) b'(' (b' ' ∷ s) (unfold is_whitespace in refl)
      (unfold is_paren in refl)
    ∙ rw (tokenize_blank fuel s)
tokenize_token fuel t s closing =
    tokenize_paren (suc fuel) b')' (b' ' ∷ s) (unfold is_whitespace in refl)
      (unfold is_paren in refl)
    ∙ rw (tokenize_blank fuel s)
tokenize_token fuel t s (word c w h) = tokenize_word (suc fuel) c w s h ∙ rw (tokenize_blank fuel s)

pub tokenize_print :
    (ts : List Text) (fuel : ℕ)
    → AllTokens ts
    → length (print ts) ≤ fuel
    → tokenize_from fuel (print ts) ≡ ts
unfolding print
tokenize_print [] fuel h l = unfold tokenize_from in refl
tokenize_print (t ∷ ts) zero h l = absurd (omega (arith, length-append t (b' ' ∷ print ts)))
tokenize_print (t ∷ ts) (suc zero) h l =
    absurd (omega (arith, length-append t (b' ' ∷ print ts), token_positive t h.0))
tokenize_print (t ∷ ts) (suc (suc fuel)) h l =
    let e = length-append t (b' ' ∷ print ts) in
    let p = token_positive t h.0 in
    tokenize_token fuel t (print ts) h.0 ∙ rw (tokenize_print ts fuel h.1 (omega (arith, e, p)))
