-- ===== src/Command/Sound.antt =====
-- What `from_str` of src/command.rs reads can be typed, and is read again the same.
use mathlib.Core.List.{append-nil}
use file_sharing_example.Common.{
  ℕ, zero, suc, ◌≡◌, refl, sym, ◌∙◌, subst, false, List, [], ◌∷◌, All, Bool-cases, inl, inr, ◌==◌,
  nat_eq, list_eq, drop,
}
use file_sharing_example.FileGet.Types.{Text}
use file_sharing_example.Command.Split.{
  codes, is_whitespace, split_whitespace, starts_with, split_arrow,
}
use file_sharing_example.Command.Words.{NoSpace, IsWord, NoArrow, split_whitespace-IsWord}
use file_sharing_example.Command.Arrows.{split_arrow-NoArrow, split_arrow-All}
use file_sharing_example.Command.{Command, ok, parse_register, parse_get, parse_command, from_str}
use file_sharing_example.Command.RoundTrip.{
  print, IsReadable, from_str_of_split, from_str_of_nil, ok_injective, from_str-print,
}

read_get-IsReadable :
    (parts : List Text) {c : Command}
    → parse_get parts ≡ ok c
    → All NoSpace parts
    → All NoArrow parts
    → IsReadable c
unfolding parse_get
read_get-IsReadable [] e h k = cc
read_get-IsReadable (u ∷ []) e h k = cc
read_get-IsReadable (u ∷ f ∷ parts) e h k =
    subst IsReadable (ok_injective e) (h.0, k.0, h.1.0, k.1.0)

NoSpace-drop : (n : ℕ) (t : Text) → NoSpace t → NoSpace (drop n t)
NoSpace-drop zero t h = h
NoSpace-drop (suc n) [] h = tt
NoSpace-drop (suc n) (c ∷ t) h = NoSpace-drop n t h.1

read_register-IsReadable :
    (parts : List Text) {c : Command}
    → parse_register parts ≡ ok c
    → All IsWord parts
    → IsReadable c
unfolding parse_register
read_register-IsReadable [] e h = cc
read_register-IsReadable (u ∷ parts) e h = subst IsReadable (ok_injective e) h.0

read_command-IsReadable :
    (w : Text) (parts : List Text) {c : Command}
    → NoSpace w
    → All IsWord parts
    → parse_command w parts ≡ ok c
    → IsReadable c
unfolding parse_command
read_command-IsReadable w parts {c} word words e = elim (Bool-cases (w == codes "register")) [
  | inl t ↦ read_register-IsReadable parts (rw (t, parse_command) at e) words
  | inr n1 ↦ elim (Bool-cases (w == codes "ls_peers")) [
    | inl t ↦ subst IsReadable (ok_injective (rw (n1, parse_command, t) at e)) tt
    | inr n2 ↦ elim (Bool-cases (starts_with (codes "ls@") w)) [
      | inl t ↦
          subst IsReadable (ok_injective (rw (n1, parse_command, n2, t) at e))
            (NoSpace-drop 3 w word)
      | inr n3 ↦ elim (Bool-cases (starts_with (codes "get@") w)) [
        | inl t ↦
            read_get-IsReadable (split_arrow (drop 4 w)) (rw (n1, parse_command, n2, n3, t) at e)
              (split_arrow-All (λ c. is_whitespace c ≡ false) (drop 4 w) (NoSpace-drop 4 w word))
              (split_arrow-NoArrow (drop 4 w))
        | inr n4 ↦ cc (rw (n1, parse_command, n2, n3, n4) at e)
      ]
    ]
  ]
]

-- A line is read as a readable command or refused: user names of `register` are words, and the
-- names of `ls@` and `get@` hold no white space, those of `get@` no arrow either. So, by
-- `from_str-print`, printing and reading again gives the same command.
pub from_str-IsReadable :
    (s : Text) {c : Command} → from_str s ≡ ok c → IsReadable c × (from_str (print c) ≡ ok c)
from_str-IsReadable s {c} e = (readable, again)
  where
    of_parts : (parts : List Text) → split_whitespace s ≡ parts → All IsWord parts → IsReadable c
    of_parts [] p h = cc (from_str_of_nil s p, e)
    of_parts (w ∷ ws) p h =
        read_command-IsReadable w ws h.0.1 h.1 (sym (from_str_of_split s w ws p) ∙ e)

    readable : IsReadable c
    readable = of_parts (split_whitespace s) refl (split_whitespace-IsWord s)

    again : from_str (print c) ≡ ok c
    again = subst (λ t. from_str t ≡ ok c) (append-nil (print c)) (from_str-print c [] readable tt)
