-- ===== src/Base/Path.antt =====
-- The package path of Go's library, on paths whose elements stand between slashes.
use Prim.Native.Char.{Char}
use Prim.Native.String.{String, ◌++◌}
use mathlib.Core.Path.{◌≡◌, refl}
use mathlib.Core.Bool.{Bool, true, false, ◌||◌}
use mathlib.Core.List.{List, [], ◌∷◌}
use text.Mathlib.Text.{◌==◌}
use page_spy_api.Base.Tests.{if◌then◌else◌}
use page_spy_api.Base.Text.{split, join}

abbrev slash : Char
slash = "/"

-- What ".." makes of the elements before it, the last one first.
abbrev above : Bool → List String → List String
above true [] = []
above false [] = ".." ∷ []
above rooted (w ∷ ws) = if w == ".." then ".." ∷ w ∷ ws else ws

abbrev step : Bool → List String → String → List String
step rooted ws w = if w == "" || w == "." then ws else if w == ".." then above rooted ws else w ∷ ws

abbrev walk : Bool → List String → List String → List String
walk rooted before [] = before
walk rooted before (w ∷ ws) = walk rooted (step rooted before w) ws

abbrev turned : List String → List String → List String
turned [] ws = ws
turned (v ∷ vs) ws = turned vs (v ∷ ws)

abbrev rooted_at : List String → Bool
rooted_at (w ∷ v ∷ ws) = w == ""
rooted_at _ = false

abbrev shown : Bool → List String → String
shown true ws = "/" ++ join slash ws
shown false [] = "."
shown false (w ∷ ws) = join slash (w ∷ ws)

abbrev cleaned : List String → String
cleaned ws = shown (rooted_at ws) (turned (walk (rooted_at ws) [] ws) [])

-- path.Clean
unfoldable pub clean : String → String
unfolding split
clean path = cleaned (split slash path)

abbrev non_empty : List String → List String
non_empty [] = []
non_empty (w ∷ ws) = if w == "" then non_empty ws else w ∷ non_empty ws

abbrev cleaned_join : List String → String
cleaned_join [] = ""
cleaned_join (w ∷ ws) = clean (join slash (w ∷ ws))

-- path.Join
unfoldable pub join_all : List String → String
unfolding clean
join_all ws = cleaned_join (non_empty ws)

cleaned_test : clean "/a/../b/./c//" ≡ "/b/c"
unfolding clean split
cleaned_test = refl

up_test : clean "a/../../b" ≡ "../b"
unfolding clean split
up_test = refl

join_test : join_all ("log" ∷ "" ∷ "data/data.db" ∷ []) ≡ "log/data/data.db"
unfolding join_all clean split
join_test = refl
