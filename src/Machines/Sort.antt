-- ===== src/Machines/Sort.antt =====
-- sort.Strings: the texts in the order of their bytes, which is that of their characters' numbers.
use Prim.Native.Nat.{compare, Ordering}
use Prim.Native.Char.{Char, code}
use Prim.Native.String.{String, [], ◌∷◌}
use mathlib.Core.Path.{◌≡◌, refl, ap₂, ◌∙◌}
use mathlib.Core.Bool.{Bool, true, false}
use mathlib.Core.List.{List, Permᴰ}
use native.Mathlib.Omega.{arith}
use text.Mathlib.TextEquality.{Char-path}
use page_spy_api.Base.{if◌then◌else◌}

abbrev text_le : String → String → Bool
text_le [] t = true
text_le (c ∷ s) [] = false
text_le (c ∷ s) (d ∷ t) = elim (compare (code c) (code d)) [
  | Ordering.lt ↦ true
  | Ordering.gt ↦ false
  | Ordering.eq ↦ text_le s t
]

abbrev place : String → List String → List String
place s List.[] = List.◌∷◌ s List.[]
place s (List.◌∷◌ t ts) =
    let rest = place s ts in if text_le s t then List.◌∷◌ s (List.◌∷◌ t ts) else List.◌∷◌ t rest

abbrev pub sort_strings : List String → List String
sort_strings List.[] = List.[]
sort_strings (List.◌∷◌ s ss) = place s (sort_strings ss)

text_le_total : (s t : String) → text_le s t ≡ false → text_le t s ≡ true
text_le_total [] t h = absurd cc
text_le_total (c ∷ s) [] h = refl
text_le_total (c ∷ s) (d ∷ t) h = ground (arith, text_le_total s t)

text_le_trans : (s t u : String) → text_le s t ≡ true → text_le t u ≡ true → text_le s u ≡ true
text_le_trans [] t u h k = refl
text_le_trans (c ∷ s) [] u h k = absurd cc
text_le_trans (c ∷ s) (d ∷ t) [] h k = absurd cc
text_le_trans (c ∷ s) (d ∷ t) (e ∷ u) h k = ground (arith, text_le_trans s t u)

equal_cons : (c d : Char) (s t : String) → c ≡ d → s ≡ t → c ∷ s ≡ d ∷ t
equal_cons c d s t e f = ap₂ ◌∷◌ e f

text_le_antisymm : (s t : String) → text_le s t ≡ true → text_le t s ≡ true → s ≡ t
text_le_antisymm [] [] h k = refl
text_le_antisymm [] (d ∷ t) h k = absurd cc
text_le_antisymm (c ∷ s) [] h k = absurd cc
text_le_antisymm (c ∷ s) (d ∷ t) h k =
    ground (arith, Char-path c d, text_le_antisymm s t, equal_cons c d s t)

place_comm : (s t : String) (l : List String) → place s (place t l) ≡ place t (place s l)
place_comm s t List.[] = ground (arith, text_le_total s t, text_le_total t s, text_le_antisymm s t)
place_comm s t (List.◌∷◌ x l) = ground (
  arith,
  place_comm s t l,
  text_le_total s t,
  text_le_total t s,
  text_le_antisymm s t,
  text_le_trans s t x,
  text_le_trans t s x,
)

-- Sorting forgets the order.
pub sort_strings-Permᴰ : {l m : List String} → Permᴰ l m → sort_strings l ≡ sort_strings m
sort_strings-Permᴰ Permᴰ.nil = refl
sort_strings-Permᴰ (Permᴰ.cons e p) = ap₂ place e (sort_strings-Permᴰ p)
sort_strings-Permᴰ (Permᴰ.swap {a} {b} {a'} {b'} {l} e f) =
    place_comm a b (sort_strings l) ∙ ap₂ (λ x y. place x (place y (sort_strings l))) f e
sort_strings-Permᴰ (Permᴰ.trans p q) = sort_strings-Permᴰ p ∙ sort_strings-Permᴰ q
