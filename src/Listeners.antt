-- ===== src/Listeners.antt =====
-- event/local_event.go: the table of listeners, `addListener`, `RemoveListener`, `getListeners`.
pub mod Table
pub mod Tests
use page_spy_api.Base.{
  String, Bool, true, false, Option, none, some, List, [], ◌∷◌, ◌++◌, eqb, if◌then◌else◌,
}
use page_spy_api.Base.Dict.{Dict, lookup, insert}
use page_spy_api.Failure.{ok, panic}
use page_spy_api.Address.{Address}
use page_spy_api.World.{Ptr, World}
use page_spy_api.World.Action.{Action, Done}

-- `&l == &listener` compares the addresses of two variables, the loop's and the parameter's.
abbrev same_variable : Bool
same_variable = false

abbrev already_listed : List Ptr → Bool
already_listed [] = false
already_listed (l ∷ ls) = if same_variable then true else already_listed ls

abbrev or_empty : Option (List Ptr) → List Ptr
or_empty none = []
or_empty (some ls) = ls

add_listed : String → Ptr → List Ptr → Dict (List Ptr) → Dict (List Ptr)
add_listed id p ls t = if already_listed ls then t else insert id (ls ++ p ∷ []) t

abbrev pub without : Ptr → List Ptr → List Ptr
without p [] = []
without p (l ∷ ls) = let rest = without p ls in if eqb l p then rest else l ∷ rest

remove_listed : String → Ptr → Option (List Ptr) → Dict (List Ptr) → Dict (List Ptr)
remove_listed id p none t = t
remove_listed id p (some ls) t = insert id (without p ls) t

-- addListener, and Listen, which calls it
unfoldable pub listen : Option Address → Ptr → Action World Done
unfolding add_listed
listen none p w = (panic, w)
listen (some a) p w = (
  ok tt,
  record w { listeners = add_listed a.id p (or_empty (lookup a.id w.listeners)) w.listeners },
)

unfoldable pub remove_listener : Option Address → Ptr → Action World Done
unfolding remove_listed
remove_listener none p w = (panic, w)
remove_listener (some a) p w =
    (ok tt, record w { listeners = remove_listed a.id p (lookup a.id w.listeners) w.listeners })

unfoldable pub get_listeners : Option Address → World → List Ptr
get_listeners none w = []
get_listeners (some a) w = or_empty (lookup a.id w.listeners)
