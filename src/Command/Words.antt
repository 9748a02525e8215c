-- ===== src/Command/Words.antt =====
-- What splitting a line of src/command.rs at white space and at "->" gives.
use mathlib.Core.List.{append-nil, append_assoc}
use file_sharing_example.Common.{
  ℕ, ◌≡◌, ◌≢◌, refl, sym, ap, ◌∙◌, subst, true, false, List, [], ◌∷◌, ◌++◌, All, arith, Bool-cases,
  inl, inr, nat_eq,
}
use file_sharing_example.FileGet.Types.{Text}
use file_sharing_example.Command.Split.{
  is_whitespace, flush, words_from, split_whitespace, is_arrow, arrow_from, split_arrow,
}

abbrev pub NoSpace : Text → Type 0
NoSpace t = All (λ c. is_whitespace c ≡ false) t

-- A word: not empty, and without white space.
abbrev pub IsWord : Text → Type 0
IsWord t = (t ≢ []) × NoSpace t

module _ {A : Type 0} (P : A → Type 0) where
  pub All-append : (xs ys : List A) → All P xs → All P ys → All P (xs ++ ys)
  All-append [] ys h k = k
  All-append (x ∷ xs) ys h k = (h.0, All-append xs ys h.1 k)

words_from-word : (cur w s : Text) → NoSpace w → words_from cur (w ++ s) ≡ words_from (cur ++ w) s
unfolding words_from
words_from-word cur [] s h = ap (λ t. words_from t s) (sym (append-nil cur))
words_from-word cur (c ∷ w) s (plain, h) =
    rw plain (
      words_from-word (cur ++ c ∷ []) w s h
      ∙ ap (λ t. words_from t s) (append_assoc cur (c ∷ []) w))

flush-word : (w : Text) → w ≢ [] → flush w ≡ w ∷ []
flush-word [] h = absurd (h refl)
flush-word (c ∷ w) h = refl

-- One word is one part.
pub split_whitespace-word : (w : Text) → IsWord w → split_whitespace w ≡ w ∷ []
unfolding split_whitespace
split_whitespace-word w (some_char, plain) =
    subst (λ t. words_from [] t ≡ w ∷ []) (append-nil w)
      (words_from-word [] w [] plain ∙ flush-word w some_char)

-- A word, then white space.
pub split_whitespace-cons :
    (w : Text) (c : ℕ) (s : Text)
    → IsWord w
    → is_whitespace c ≡ true
    → split_whitespace (w ++ c ∷ s) ≡ w ∷ split_whitespace s
unfolding split_whitespace
split_whitespace-cons w c s (some_char, plain) blank =
    words_from-word [] w (c ∷ s) plain
    ∙ rw (blank, words_from) (ap (λ ws. ws ++ words_from [] s) (flush-word w some_char))

flush-IsWord : (cur : Text) → NoSpace cur → All IsWord (flush cur)
flush-IsWord [] h = tt
flush-IsWord (c ∷ cs) h = ((λ e. cc, h), tt)

words_from-IsWord : (cur s : Text) → NoSpace cur → All IsWord (words_from cur s)
unfolding words_from
words_from-IsWord cur [] h = flush-IsWord cur h
words_from-IsWord cur (c ∷ s) h = elim (Bool-cases (is_whitespace c)) [
  | inl blank ↦ rw blank (
      All-append IsWord (flush cur) (words_from [] s) (flush-IsWord cur h)
        (words_from-IsWord [] s tt))
  | inr plain ↦ rw plain (
      words_from-IsWord (cur ++ c ∷ []) s
        (All-append (λ x. is_whitespace x ≡ false) cur (c ∷ []) h (plain, tt)))
]

-- Whatever the line, its parts are words.
pub split_whitespace-IsWord : (s : Text) → All IsWord (split_whitespace s)
unfolding split_whitespace
split_whitespace-IsWord s = words_from-IsWord [] s tt

-- "->" stands nowhere in the text.
abbrev pub NoArrow : Text → Type 0
NoArrow [] = Unit
NoArrow (a ∷ []) = Unit
NoArrow (a ∷ b ∷ s) = (is_arrow a b ≡ false) × NoArrow (b ∷ s)

arrow_from-cons :
    (cur u s : Text)
    → NoArrow u
    → arrow_from cur (u ++ b'-' ∷ b'>' ∷ s) ≡ (cur ++ u) ∷ arrow_from [] s
unfolding arrow_from
arrow_from-cons cur [] s h = ap (λ t. t ∷ arrow_from [] s) (sym (append-nil cur))
arrow_from-cons cur (a ∷ []) s h = let plain : is_arrow a b'-' ≡ false = ground arith in rw plain
arrow_from-cons cur (a ∷ b ∷ u) s (plain, h) = rw plain (
    arrow_from-cons (cur ++ a ∷ []) (b ∷ u) s h
    ∙ ap (λ t. t ∷ arrow_from [] s) (append_assoc cur (a ∷ []) (b ∷ u)))

arrow_from-end : (cur f : Text) → NoArrow f → arrow_from cur f ≡ (cur ++ f) ∷ []
unfolding arrow_from
arrow_from-end cur [] h = ap (λ t. t ∷ []) (sym (append-nil cur))
arrow_from-end cur (a ∷ []) h = refl
arrow_from-end cur (a ∷ b ∷ f) (plain, h) = rw plain (
    arrow_from-end (cur ++ a ∷ []) (b ∷ f) h ∙ ap (λ t. t ∷ []) (append_assoc cur (a ∷ []) (b ∷ f)))

pub split_arrow-cons :
    (u s : Text) → NoArrow u → split_arrow (u ++ b'-' ∷ b'>' ∷ s) ≡ u ∷ split_arrow s
unfolding split_arrow
split_arrow-cons u s h = arrow_from-cons [] u s h

pub split_arrow-end : (f : Text) → NoArrow f → split_arrow f ≡ f ∷ []
unfolding split_arrow
split_arrow-end f h = arrow_from-end [] f h
