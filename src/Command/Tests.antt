-- ===== src/Command/Tests.antt =====
-- Lines of the command line (src/command.rs) and what they are read as.
use file_sharing_example.Common.{◌≡◌, refl, [], ◌∷◌, ◌++◌}
use file_sharing_example.Command.{Command, list_files, get_file, ok, from_str}
use file_sharing_example.Command.Split.{codes, is_whitespace, split_whitespace}
use file_sharing_example.Command.Words.{NoSpace, NoArrow}
use file_sharing_example.Command.Sound.{from_str-IsReadable}
use file_sharing_example.Command.RoundTrip.{print, IsReadable, from_str-print, from_str_drops_arrow}

abbrev get_b : Command
get_b = get_file (record { user_name = codes "u"; file_name = codes "f" })

u_f_fit : NoSpace (codes "u") × NoArrow (codes "u") × NoSpace (codes "f") × NoArrow (codes "f")
unfolding is_whitespace
u_f_fit = ((refl, tt), tt, (refl, tt), tt)

from_str-print_example : from_str (print get_b ++ codes "\n") ≡ ok get_b
unfolding is_whitespace
from_str-print_example = from_str-print get_b (codes "\n") u_f_fit refl

from_str_drops_arrow_example :
    from_str
      ((codes "get@" ++ (codes "u" ++ b'-' ∷ b'>' ∷ (codes "f" ++ b'-' ∷ b'>' ∷ codes "g"))) ++ [])
    ≡ ok get_b
unfolding is_whitespace
from_str_drops_arrow_example =
    let (u, a, f, b) = u_f_fit in
    from_str_drops_arrow (codes "u") (codes "f") (codes "g") [] u a f b (refl, tt) tt

abbrev list_u : Command
list_u = list_files (record { user_name = codes "u" })

reads_list : from_str (codes " ls@u x") ≡ ok list_u
unfolding from_str split_whitespace
reads_list = refl

from_str-IsReadable_example : IsReadable list_u × (from_str (print list_u) ≡ ok list_u)
from_str-IsReadable_example = from_str-IsReadable (codes " ls@u x") reads_list
