-- ===== src/Command/Split.antt =====
-- What `from_str` of src/command.rs uses of Rust's `str`: `split_whitespace`, `starts_with`, slices
-- and `split("->")`, over the code points of a text.
use Prim.Native.Char.{code}
use Prim.Native.String.{String}
use file_sharing_example.Common.{
  ℕ, Bool, true, false, ◌&&◌, ◌||◌, List, [], ◌∷◌, ◌++◌, ◌==◌, nat_eq, leb, if◌then◌else◌,
}
use file_sharing_example.FileGet.Types.{Text}

abbrev pub codes : String → Text
codes String.[] = []
codes (String.◌∷◌ c s) = code c ∷ codes s

abbrev between : ℕ → ℕ → ℕ → Bool
between lo hi c = leb lo c && leb c hi

-- `char::is_whitespace`: the code points with the Unicode property White_Space.
unfoldable pub is_whitespace : ℕ → Bool
is_whitespace c =
    between 0x9 0xd c
    || (c == 0x20
        || (c == 0x85
            || (c == 0xa0
                || (c == 0x1680
                    || (between 0x2000 0x200a c
                        || (between 0x2028 0x2029 c
                            || (c == 0x202f || (c == 0x205f || c == 0x3000))))))))

abbrev pub flush : Text → List Text
flush [] = []
flush (c ∷ cs) = (c ∷ cs) ∷ []

-- `cur` is the word that is being read.
unfoldable pub words_from : Text → Text → List Text
words_from cur [] = flush cur
words_from cur (c ∷ s) =
    let next = words_from [] s in
    let longer = words_from (cur ++ c ∷ []) s in
    if is_whitespace c then flush cur ++ next else longer

unfoldable pub split_whitespace : Text → List Text
unfolding words_from is_whitespace
split_whitespace s = words_from [] s

unfoldable pub starts_with : Text → Text → Bool
starts_with [] s = true
starts_with (p ∷ ps) [] = false
starts_with (p ∷ ps) (c ∷ s) = p == c && starts_with ps s

abbrev pub is_arrow : ℕ → ℕ → Bool
is_arrow a b = a == b'-' && b == b'>'

-- `cur` is the part that is being read.
unfoldable pub arrow_from : Text → Text → List Text
arrow_from cur [] = cur ∷ []
arrow_from cur (a ∷ []) = (cur ++ a ∷ []) ∷ []
arrow_from cur (a ∷ b ∷ s) =
    let next = arrow_from [] s in
    let longer = arrow_from (cur ++ a ∷ []) (b ∷ s) in if is_arrow a b then cur ∷ next else longer

unfoldable pub split_arrow : Text → List Text
unfolding arrow_from
split_arrow s = arrow_from [] s
