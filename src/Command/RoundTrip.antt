-- ===== src/Command/RoundTrip.antt =====
-- Reading back what a command looks like on the command line (src/command.rs, README.md).
use mathlib.Core.List.{append-nil}
use file_sharing_example.Common.{
  ◌≡◌, refl, sym, ap, ◌∙◌, subst, true, false, List, [], ◌∷◌, ◌++◌, arith, nat_eq, list_eq,
}
use file_sharing_example.FileGet.Types.{Text}
use file_sharing_example.Command.Split.{codes, is_whitespace, split_whitespace}
use file_sharing_example.Command.Words.{
  NoSpace, IsWord, NoArrow, All-append, split_whitespace-word, split_whitespace-cons,
  split_arrow-cons, split_arrow-end,
}
use file_sharing_example.Command.{
  Command, register, list_peers, list_files, get_file, ok, err, invalid_command, parse_command,
  from_str,
}

-- The line that a user types for the command.
pub print : Command → Text
print (register r) = codes "register" ++ b' ' ∷ r.user_name
print list_peers = codes "ls_peers"
print (list_files r) = codes "ls@" ++ r.user_name
print (get_file r) = codes "get@" ++ (r.user_name ++ b'-' ∷ b'>' ∷ r.file_name)

-- The commands that a line can stand for.
abbrev pub IsReadable : Command → Type 0
IsReadable (register r) = IsWord r.user_name
IsReadable list_peers = Unit
IsReadable (list_files r) = NoSpace r.user_name
IsReadable (get_file r) =
    NoSpace r.user_name × NoArrow r.user_name × NoSpace r.file_name × NoArrow r.file_name

-- The end of the line, or white space.
abbrev pub EndsWord : Text → Type 0
EndsWord [] = Unit
EndsWord (c ∷ _) = is_whitespace c ≡ true

parts_after : Text → List Text
parts_after [] = []
parts_after (c ∷ s) = split_whitespace s

split_whitespace-EndsWord :
    (w s : Text) → IsWord w → EndsWord s → split_whitespace (w ++ s) ≡ w ∷ parts_after s
unfolding parts_after
split_whitespace-EndsWord w [] h e =
    subst (λ t. split_whitespace t ≡ w ∷ []) (sym (append-nil w)) (split_whitespace-word w h)
split_whitespace-EndsWord w (c ∷ s) h e = split_whitespace-cons w c s h e

pub from_str_of_split :
    (s w : Text) (ws : List Text) → split_whitespace s ≡ w ∷ ws → from_str s ≡ parse_command w ws
unfolding from_str
from_str_of_split s w ws e = rw e

pub from_str_of_nil : (s : Text) → split_whitespace s ≡ [] → from_str s ≡ err invalid_command
unfolding from_str
from_str_of_nil s e = rw e

codes-IsWord : IsWord (codes "register") × IsWord (codes "ls_peers")
unfolding is_whitespace
codes-IsWord = ((λ e. cc, ground arith), (λ e. cc, ground arith))

print_get-IsWord :
    (u f : Text) → NoSpace u → NoSpace f → IsWord (codes "get@" ++ (u ++ b'-' ∷ b'>' ∷ f))
unfolding is_whitespace
print_get-IsWord u f h k =
    let tail : NoSpace (b'-' ∷ b'>' ∷ f) = (ground arith, (ground arith, k)) in
    let all = All-append (λ c. is_whitespace c ≡ false) u (b'-' ∷ b'>' ∷ f) h tail in
    (λ e. cc, (ground arith, (ground arith, (ground arith, (ground arith, all)))))

print_list-IsWord : (u : Text) → NoSpace u → IsWord (codes "ls@" ++ u)
unfolding is_whitespace
print_list-IsWord u h = (λ e. cc, (ground arith, (ground arith, (ground arith, h))))

read_get :
    (u f : Text) (parts : List Text)
    → NoArrow u
    → NoArrow f
    → parse_command (codes "get@" ++ (u ++ b'-' ∷ b'>' ∷ f)) parts
      ≡ ok (get_file (record { user_name = u; file_name = f }))
unfolding parse_command
read_get u f parts h k = rw (split_arrow-cons u f h, split_arrow-end f k)

blank : is_whitespace b' ' ≡ true
unfolding is_whitespace
blank = refl

read_register :
    (u : Text) (parts : List Text)
    → parse_command (codes "register") (u ∷ parts) ≡ ok (register (record { user_name = u }))
unfolding parse_command
read_register u parts = refl

read_peers : (parts : List Text) → parse_command (codes "ls_peers") parts ≡ ok list_peers
unfolding parse_command
read_peers parts = refl

read_get_more :
    (u f more : Text) (parts : List Text)
    → NoArrow u
    → NoArrow f
    → parse_command (codes "get@" ++ (u ++ b'-' ∷ b'>' ∷ (f ++ b'-' ∷ b'>' ∷ more))) parts
      ≡ ok (get_file (record { user_name = u; file_name = f }))
unfolding parse_command
read_get_more u f more parts h k = rw (split_arrow-cons u _ h, split_arrow-cons f more k)

arrow-NoSpace : (f more : Text) → NoSpace f → NoSpace more → NoSpace (f ++ b'-' ∷ b'>' ∷ more)
unfolding is_whitespace
arrow-NoSpace f more h k =
    All-append (λ c. is_whitespace c ≡ false) f (b'-' ∷ b'>' ∷ more) h
      (ground arith, (ground arith, k))

pub ok_injective : {a b : Command} → ok a ≡ ok b → a ≡ b
ok_injective e = cc

read_list :
    (u : Text) (parts : List Text)
    → parse_command (codes "ls@" ++ u) parts ≡ ok (list_files (record { user_name = u }))
unfolding parse_command
read_list u parts = refl

-- What a user types for a readable command is read as that command, also if white space and
-- anything else follow on the line: the user name of `register` and the file name of `get@` end at
-- the first white space.
pub from_str-print :
    (c : Command) (rest : Text) → IsReadable c → EndsWord rest → from_str (print c ++ rest) ≡ ok c
unfolding print
from_str-print (register r) rest h e =
    let u = r.user_name in
    let split : split_whitespace (codes "register" ++ b' ' ∷ (u ++ rest))
        ≡ codes "register" ∷ u ∷ parts_after rest =
      split_whitespace-cons (codes "register") b' ' (u ++ rest) codes-IsWord.0 blank
      ∙ ap (λ ws. codes "register" ∷ ws) (split_whitespace-EndsWord u rest h e) in
    from_str_of_split _ _ _ split ∙ read_register u (parts_after rest)
from_str-print list_peers rest h e =
    from_str_of_split _ _ _ (split_whitespace-EndsWord (codes "ls_peers") rest codes-IsWord.1 e)
    ∙ read_peers (parts_after rest)
from_str-print (list_files r) rest h e =
    let w = codes "ls@" ++ r.user_name in
    from_str_of_split _ _ _ (split_whitespace-EndsWord w rest (print_list-IsWord r.user_name h) e)
    ∙ read_list r.user_name (parts_after rest)
from_str-print (get_file r) rest (u, u', f, f') e =
    let w = codes "get@" ++ (r.user_name ++ b'-' ∷ b'>' ∷ r.file_name) in
    from_str_of_split _ _ _
      (split_whitespace-EndsWord w rest (print_get-IsWord r.user_name r.file_name u f) e)
    ∙ read_get r.user_name r.file_name (parts_after rest) u' f'

-- What stands behind a second arrow is dropped: such a line asks for another file than the one that
-- it names.
pub from_str_drops_arrow :
    (u f more rest : Text)
    → NoSpace u
    → NoArrow u
    → NoSpace f
    → NoArrow f
    → NoSpace more
    → EndsWord rest
    → from_str ((codes "get@" ++ (u ++ b'-' ∷ b'>' ∷ (f ++ b'-' ∷ b'>' ∷ more))) ++ rest)
      ≡ ok (get_file (record { user_name = u; file_name = f }))
from_str_drops_arrow u f more rest hu au hf af hm e =
    let tail = f ++ b'-' ∷ b'>' ∷ more in
    let w = codes "get@" ++ (u ++ b'-' ∷ b'>' ∷ tail) in
    from_str_of_split _ _ _
      (split_whitespace-EndsWord w rest (print_get-IsWord u tail hu (arrow-NoSpace f more hf hm)) e)
    ∙ read_get_more u f more (parts_after rest) au af
