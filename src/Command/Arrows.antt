-- ===== src/Command/Arrows.antt =====
-- The parts that splitting at "->" gives, in src/command.rs.
use file_sharing_example.Common.{ℕ, ◌≡◌, false, [], ◌∷◌, ◌++◌, All, Bool-cases, inl, inr}
use file_sharing_example.FileGet.Types.{Text}
use file_sharing_example.Command.Split.{is_arrow, arrow_from, split_arrow}
use file_sharing_example.Command.Words.{NoArrow, All-append}

NoArrow-snoc :
    (cur : Text) (a b : ℕ)
    → NoArrow (cur ++ a ∷ [])
    → is_arrow a b ≡ false
    → NoArrow ((cur ++ a ∷ []) ++ b ∷ [])
NoArrow-snoc [] a b h plain = (plain, tt)
NoArrow-snoc (x ∷ []) a b h plain = (h.0, (plain, tt))
NoArrow-snoc (x ∷ y ∷ cur) a b h plain = (h.0, NoArrow-snoc (y ∷ cur) a b h.1 plain)

NoArrow-init : (cur : Text) (a : ℕ) → NoArrow (cur ++ a ∷ []) → NoArrow cur
NoArrow-init [] a h = tt
NoArrow-init (x ∷ []) a h = tt
NoArrow-init (x ∷ y ∷ cur) a h = (h.0, NoArrow-init (y ∷ cur) a h.1)

-- Of the part that is being read, with the next code point if there is one.
abbrev Reads : Text → Text → Type 0
Reads cur [] = NoArrow cur
Reads cur (a ∷ _) = NoArrow (cur ++ a ∷ [])

Reads-nil : (s : Text) → Reads [] s
Reads-nil [] = tt
Reads-nil (a ∷ s) = tt

arrow_from-NoArrow : (cur s : Text) → Reads cur s → All NoArrow (arrow_from cur s)
unfolding arrow_from
arrow_from-NoArrow cur [] h = (h, tt)
arrow_from-NoArrow cur (a ∷ []) h = (h, tt)
arrow_from-NoArrow cur (a ∷ b ∷ s) h = elim (Bool-cases (is_arrow a b)) [
  | inl arrow ↦ rw arrow (NoArrow-init cur a h, arrow_from-NoArrow [] s (Reads-nil s))
  | inr plain ↦ rw plain (arrow_from-NoArrow (cur ++ a ∷ []) (b ∷ s) (NoArrow-snoc cur a b h plain))
]

-- Whatever the text, no part holds an arrow.
pub split_arrow-NoArrow : (s : Text) → All NoArrow (split_arrow s)
unfolding split_arrow
split_arrow-NoArrow s = arrow_from-NoArrow [] s (Reads-nil s)

module _ (P : ℕ → Type 0) where
  arrow_from-All : (cur s : Text) → All P cur → All P s → All (All P) (arrow_from cur s)
  unfolding arrow_from
  arrow_from-All cur [] h k = (h, tt)
  arrow_from-All cur (a ∷ []) h k = (All-append P cur (a ∷ []) h k, tt)
  arrow_from-All cur (a ∷ b ∷ s) h (p, (q, k)) = elim (Bool-cases (is_arrow a b)) [
    | inl arrow ↦ rw arrow (h, arrow_from-All [] s tt k)
    | inr plain ↦
        rw plain
          (arrow_from-All (cur ++ a ∷ []) (b ∷ s) (All-append P cur (a ∷ []) h (p, tt)) (q, k))
  ]

  -- What holds of all code points of the text holds of those of its parts.
  pub split_arrow-All : (s : Text) → All P s → All (All P) (split_arrow s)
  unfolding split_arrow
  split_arrow-All s k = arrow_from-All [] s tt k
