-- ===== src/Routes/Queries.antt =====
-- What getQueryList makes of the parameters of a list.
use page_spy_api.Base.{ℕ, ◌<◌, String, Bool, not, Option, none, some, List}
use page_spy_api.Base.Number.{decimal}
use page_spy_api.Base.Text.{join, space}
use page_spy_api.Data.{Label}
use page_spy_api.Routes.Params.{include, black_tag_name}

-- A parameter that is none of the list's own, and the tag that it asks for.
abbrev pub is_tag : String × List String → Bool
is_tag (k, vs) = not (include black_tag_name k)

abbrev pub asked : String × List String → Label
asked (k, vs) = record { key = k; value = join space vs }

-- The text of a time that may be missing
abbrev pub text_of : Option ℕ → String
text_of none = ""
text_of (some n) = decimal n

abbrev pub IsSmall : Option ℕ → Type 0
IsSmall none = Unit
IsSmall (some n) = n < 9223372036854775808
