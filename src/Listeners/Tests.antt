-- ===== src/Listeners/Tests.antt =====
-- A listener that comes twice and goes.
use page_spy_api.Base.{◌≡◌, [], ◌∷◌, some}
use page_spy_api.Base.Dict.{lookup}
use page_spy_api.Samples.{address, world}
use page_spy_api.Listeners.{get_listeners, listen}
use page_spy_api.Listeners.Table.{get_listeners-listen}

get_listeners-listen_example :
    get_listeners (some (address "a.local")) (listen (some (address "a.local")) 1 world).1
    ≡ 1 ∷ 1 ∷ []
unfolding get_listeners lookup
get_listeners-listen_example = get_listeners-listen (address "a.local") (address "a.local") 1 world
