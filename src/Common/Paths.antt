-- ===== src/Common/Paths.antt =====
-- path.Clean, path.Join and path.Base on slash-separated paths.
pub mod Plain
use mathlib.Core.Bool.{Bool, true, false, ◌||◌}
use mathlib.Core.List.{List, [], ◌∷◌, ◌++◌, reverse, foldl}
use Prim.Native.Nat.{ℕ}
use agentfile.Common.Tests.{◌==◌, if◌then◌else◌}
use agentfile.Common.Texts.{Text, codes, text_eq, is_empty}

unfoldable pub cons_head : ℕ → List Text → List Text
cons_head c [] = (c ∷ []) ∷ []
cons_head c (x ∷ xs) = (c ∷ x) ∷ xs

-- The elements between slashes.
unfoldable pub split_slash : Text → List Text
unfolding cons_head
split_slash [] = [] ∷ []
split_slash (c ∷ s) = let rest = split_slash s in if c == b'/' then [] ∷ rest else cons_head c rest

unfoldable pub join_slash : List Text → Text
join_slash [] = []
join_slash (s ∷ []) = s
join_slash (s ∷ t ∷ ts) = s ++ (b'/' ∷ join_slash (t ∷ ts))

-- `..` takes back the last element; there is nothing above the root.
unfoldable pub go_up : Bool → List Text → List Text
unfolding text_eq
go_up true [] = []
go_up false [] = codes ".." ∷ []
go_up rooted (top ∷ stack) = if text_eq top (codes "..") then codes ".." ∷ top ∷ stack else stack

-- One element, over the stack of those kept.
unfoldable pub clean_step : Bool → List Text → Text → List Text
unfolding text_eq go_up
clean_step rooted stack seg =
    if is_empty seg || text_eq seg (codes ".")
    then stack
    else if text_eq seg (codes "..")
    then go_up rooted stack
    else seg ∷ stack

-- path.Clean of a rooted and of a relative path
unfoldable pub clean : Text → Text
unfolding clean_step split_slash join_slash
clean [] = codes "."
clean (c ∷ s) =
    let rooted = c == b'/' in
    let body = join_slash (reverse (foldl (clean_step rooted) [] (split_slash (c ∷ s)))) in
    if rooted then b'/' ∷ body else if is_empty body then codes "." else body

-- path.Join of two elements, the second not empty
unfoldable pub join : Text → Text → Text
unfolding clean
join [] rest = clean rest
join (c ∷ root) rest = clean ((c ∷ root) ++ (b'/' ∷ rest))

-- The last of the elements, trailing slashes aside.
unfoldable pub last_segment : List Text → Text
last_segment [] = []
last_segment (s ∷ ss) = let rest = last_segment ss in if is_empty rest then s else rest

-- path.Base
unfoldable pub base : Text → Text
unfolding last_segment split_slash
base [] = codes "."
base (c ∷ s) =
    let last = last_segment (split_slash (c ∷ s)) in if is_empty last then codes "/" else last
