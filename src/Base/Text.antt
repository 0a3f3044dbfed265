-- ===== src/Base/Text.antt =====
-- `strings.Split` at one character, and how it undoes concatenation.
use Prim.Native.Char.{Char, code}
use Prim.Native.String.{String, [], ◌∷◌, ◌++◌}
use Prim.Native.String.append
use mathlib.Core.Path.{◌≡◌, refl, sym, ap, ◌∙◌}
use mathlib.Core.Logic.{◌≢◌, inl, inr}
use mathlib.Core.Bool.{false}
use mathlib.Core.List.{List}
use native.Mathlib.Omega.{arith}
use text.Mathlib.TextEquality.{Char-path}
use page_spy_api.Base.Tests.{eqb, eqb_iff, if◌then◌else◌, Bool-cases}
use page_spy_api.Base.Lists.{All}

-- A character in front of the first piece.
abbrev pub extend : Char → List String → List String
extend c List.[] = List.◌∷◌ (c ∷ []) List.[]
extend c (List.◌∷◌ w ws) = List.◌∷◌ (c ∷ w) ws

-- strings.Split(s, sep), for a separator of one character.
unfoldable pub split : Char → String → List String
split sep [] = List.◌∷◌ [] List.[]
split sep (c ∷ s) =
    let rest = split sep s in if eqb (code c) (code sep) then List.◌∷◌ [] rest else extend c rest

-- The separator does not stand in the text.
abbrev pub Free : Char → String → Type 0
Free sep [] = Unit
Free sep (c ∷ s) = (eqb (code c) (code sep) ≡ false) × Free sep s

pub split-Free : (sep : Char) (s : String) → Free sep s → split sep s ≡ List.◌∷◌ s List.[]
unfolding split
split-Free sep [] h = refl
split-Free sep (c ∷ s) h = ground (arith, split-Free sep s h.1)

pub split-append :
    (sep : Char) (s t : String) → Free sep s → split sep (s ++ (sep ∷ t)) ≡ List.◌∷◌ s (split sep t)
unfolding split
split-append sep [] t h = rw append.nil (ground arith)
split-append sep (c ∷ s) t h = rw append.cons (ground (arith, split-append sep s t h.1))

-- The pieces with the separator between them.
abbrev pub join : Char → List String → String
join sep List.[] = []
join sep (List.◌∷◌ w List.[]) = w
join sep (List.◌∷◌ w (List.◌∷◌ v ws)) = w ++ (sep ∷ join sep (List.◌∷◌ v ws))

join-extend :
    (sep c : Char) (w : String) (ws : List String)
    → join sep (extend c (List.◌∷◌ w ws)) ≡ c ∷ join sep (List.◌∷◌ w ws)
join-extend sep c w List.[] = refl
join-extend sep c w (List.◌∷◌ v ws) = append.cons c w (sep ∷ join sep (List.◌∷◌ v ws))

-- Splitting loses nothing.
join-step :
    (sep c : Char) (s : String) (ws : List String)
    → ws ≢ List.[]
    → join sep ws ≡ s
    → join sep (if eqb (code c) (code sep) then List.◌∷◌ [] ws else extend c ws) ≡ c ∷ s
join-step sep c s List.[] h e = absurd (h refl)
join-step sep c s (List.◌∷◌ w ws) h e = elim (Bool-cases (eqb (code c) (code sep))) [
  | inl hit ↦
      rw (hit, e)
        (append.nil (sep ∷ s) ∙ ap (λ d. d ∷ s) (sym (Char-path c sep ((eqb_iff _ _).0 hit))))
  | inr miss ↦ rw miss (join-extend sep c w ws ∙ ap (◌∷◌ c) e)
]

extend-ne-nil : (c : Char) (ws : List String) → extend c ws ≢ List.[]
extend-ne-nil c List.[] e = cc
extend-ne-nil c (List.◌∷◌ w ws) e = cc

split-ne-nil : (sep : Char) (s : String) → split sep s ≢ List.[]
unfolding split
split-ne-nil sep [] e = cc
split-ne-nil sep (c ∷ s) e = ground (arith, extend-ne-nil c (split sep s))

pub join-split : (sep : Char) (s : String) → join sep (split sep s) ≡ s
unfolding split
join-split sep [] = refl
join-split sep (c ∷ s) = join-step sep c s (split sep s) (split-ne-nil sep s) (join-split sep s)

extend-Free :
    (sep c : Char) (ws : List String)
    → eqb (code c) (code sep) ≡ false
    → All (Free sep) ws
    → All (Free sep) (extend c ws)
extend-Free sep c List.[] h k = ((h, tt), tt)
extend-Free sep c (List.◌∷◌ w ws) h k = ((h, k.0), k.1)

-- No piece holds the separator.
pub split-All-Free : (sep : Char) (s : String) → All (Free sep) (split sep s)
unfolding split
split-All-Free sep [] = (tt, tt)
split-All-Free sep (c ∷ s) = elim (Bool-cases (eqb (code c) (code sep))) [
  | inl hit ↦ rw hit (tt, split-All-Free sep s)
  | inr miss ↦ rw miss (extend-Free sep c (split sep s) miss (split-All-Free sep s))
]

abbrev pub concat : String → String → String
concat s t = s ++ t

abbrev pub dot : Char
dot = "."

-- The text that fmt puts in front of a dotted part.
pub dot_text : (s : String) → concat "." s ≡ dot ∷ s
dot_text s = append.cons dot "" s ∙ ap (◌∷◌ dot) (append.nil s)

abbrev behind_first : String → String
behind_first [] = []
behind_first (c ∷ s) = s

-- Texts with one prefix are equal only if their rests are.
pub concat-injective : (p a b : String) → concat p a ≡ concat p b → a ≡ b
concat-injective [] a b e = sym (append.nil a) ∙ e ∙ append.nil b
concat-injective (c ∷ p) a b e =
    concat-injective p a b (ap behind_first (sym (append.cons c p a) ∙ e ∙ append.cons c p b))

-- A text that begins with a character is not empty.
pub concat-ne-nil : (c : Char) (p s : String) → concat (c ∷ p) s ≢ []
concat-ne-nil c p s e = let f : c ∷ (p ++ s) ≡ [] = sym (append.cons c p s) ∙ e in cc

-- Nor is one in front of such a text.
pub concat-behind-ne-nil : (s : String) (c : Char) (p : String) → concat s (c ∷ p) ≢ []
concat-behind-ne-nil [] c p e = let f : c ∷ p ≡ [] = sym (append.nil (c ∷ p)) ∙ e in cc
concat-behind-ne-nil (d ∷ s) c p e = concat-ne-nil d s (c ∷ p) e

abbrev pub colon : Char
colon = ":"

-- The text that fmt puts in front of a port.
pub colon_text : (s : String) → concat ":" s ≡ colon ∷ s
colon_text s = append.cons colon "" s ∙ ap (◌∷◌ colon) (append.nil s)

abbrev pub space : Char
space = " "

pub space_text : (s : String) → concat " " s ≡ space ∷ s
space_text s = append.cons space "" s ∙ ap (◌∷◌ space) (append.nil s)
