-- ===== src/LocalManager/Tags.antt =====
-- room/basic_manager.go: likeTags and getRoomsByTags. Texts that are compared without case are lists
-- of code points; the table of unicode.ToLower is a parameter.
pub mod Likeness
use Prim.Native.Char.{code}
use Prim.Native.String
use page_spy_api.Base.{
  ℕ, ◌+◌, String, ◌≡◌, refl, ap, sym, ◌∙◌, ◌↔◌, ◌⊎◌, inl, inr, ◌≢◌, Bool, true, false, ◌&&◌, ◌||◌,
  Option, none, some, List, [], ◌∷◌, ◌++◌, leb, eqb, eqb_iff, All, arith, Bool-cases, if◌then◌else◌,
}
use page_spy_api.Base.Dict.{Dict, lookup}
use page_spy_api.World.{Ptr}
use page_spy_api.World.Action.{Action, ◌>>=◌, pure}
use page_spy_api.LocalRoom.Fields.{this}
use page_spy_api.LocalManager.{Managed, in_world, get_rooms}

-- strings.ToLower, over unicode.ToLower of a code point
abbrev pub lower : (ℕ → ℕ) → String → List ℕ
lower to_lower String.[] = []
lower to_lower (String.◌∷◌ c s) = to_lower (code c) ∷ lower to_lower s

-- t stands at the start of s.
starts : List ℕ → List ℕ → Bool
starts s [] = true
starts [] (y ∷ t) = false
starts (x ∷ s) (y ∷ t) = eqb x y && starts s t

-- strings.Contains
unfoldable pub contains : List ℕ → List ℕ → Bool
unfolding starts
contains [] t = starts [] t
contains (x ∷ s) t = let later = contains s t in starts (x ∷ s) t || later

abbrev pub or_blank : Option String → String
or_blank none = ""
or_blank (some v) = v

-- The loop over the condition
unfoldable pub all_like : (ℕ → ℕ) → Dict String → Dict String → Bool
unfolding contains lookup
all_like to_lower origin [] = true
all_like to_lower origin ((k, v) ∷ condition) =
    let rest = all_like to_lower origin condition in
    contains (lower to_lower (or_blank (lookup k origin))) (lower to_lower v) && rest

unfoldable pub like_tags : (ℕ → ℕ) → Dict String → Dict String → Bool
unfolding all_like
like_tags to_lower [] [] = true
like_tags to_lower [] (t ∷ condition) = false
like_tags to_lower (o ∷ origin) [] = false
like_tags to_lower (o ∷ origin) (t ∷ condition) = all_like to_lower (o ∷ origin) (t ∷ condition)

abbrev non_empty : Dict String → Bool
non_empty [] = false
non_empty (t ∷ m) = true

abbrev add_if : Bool → Ptr → List Ptr → List Ptr
add_if true p ps = p ∷ ps
add_if false p ps = ps

tagged : (ℕ → ℕ) → Dict String → List Ptr → Action Managed (List Ptr)
unfolding in_world this like_tags
tagged to_lower tags [] = pure []
tagged to_lower tags (p ∷ ps) = do
  r ← in_world (this p)
  rest ← tagged to_lower tags ps
  pure (add_if (non_empty r.info.tags && like_tags to_lower r.info.tags tags) p rest)

-- getRoomsByTags, and GetRoomsByGroup
unfoldable pub get_rooms_by_tags : (ℕ → ℕ) → Dict String → Action Managed (List Ptr)
unfolding get_rooms tagged
get_rooms_by_tags to_lower [] = get_rooms
get_rooms_by_tags to_lower (t ∷ tags) = get_rooms >>= tagged to_lower (t ∷ tags)
