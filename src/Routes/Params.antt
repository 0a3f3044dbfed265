-- ===== src/Routes/Params.antt =====
-- serve/route/route.go: what the handlers read of a request's query, by include, getTags and
-- getQueryList.
use page_spy_api.Base.{
  ℕ, String, Bool, true, false, ◌||◌, Option, none, some, List, [], ◌∷◌, map, ◌==◌, if◌then◌else◌,
}
use page_spy_api.Base.Dict.{Dict, lookup}
use page_spy_api.Base.Number.{atoi}
use page_spy_api.Base.Text.{concat, join, space}
use page_spy_api.Failure.{GoError, wrapped, error_text, Outcome, ok, err, panic, text}
use page_spy_api.Storage.{Tag}
use page_spy_api.Data.{Label}
use page_spy_api.Data.Query.{FileListQuery}

abbrev pub QueryParams : Type 0
QueryParams = Dict (List String)

abbrev first_or_empty : Option (List String) → String
first_or_empty none = ""
first_or_empty (some []) = ""
first_or_empty (some (v ∷ vs)) = v

-- c.QueryParam(name), and c.QueryParams()[name]
unfoldable pub query_param : QueryParams → String → String
query_param q name = first_or_empty (lookup name q)

abbrev all_or_none : Option (List String) → List String
all_or_none none = []
all_or_none (some vs) = vs

unfoldable pub query_values : QueryParams → String → List String
query_values q name = all_or_none (lookup name q)

abbrev pub black_tag_name : List String
black_tag_name = "page" ∷ "size" ∷ "from" ∷ "to" ∷ []

abbrev pub include : List String → String → Bool
include [] v = false
include (x ∷ xs) v = let rest = include xs v in if x == v then true else rest

-- getTags
unfoldable pub get_tags : QueryParams → List Tag
get_tags [] = []
get_tags ((k, vs) ∷ q) =
    let rest = get_tags q in
    if include black_tag_name k then rest else record { key = k; value = join space vs } ∷ rest

abbrev pub label : Tag → Label
label t = record { key = t.key; value = t.value }

module _ (bad_number : String → GoError) where
  -- strconv.Atoi with its error, which is a parameter
  unfoldable pub number : String → Outcome ℕ
  number s = elim (atoi s) [ none ↦ err (bad_number s) | some n ↦ ok n ]

  abbrev in_format : String → Outcome ℕ → Outcome (Option ℕ)
  in_format s (ok n) = ok (some n)
  in_format s (err e) = err (wrapped (concat s (error_text e)) e)
  in_format s panic = panic

  -- The parameters from and to, which may be missing
  unfoldable pub time_of : String → String → Outcome (Option ℕ)
  unfolding number
  time_of context s = if s == "" then ok none else in_format context (number s)

  abbrev with_times :
      ℕ → ℕ → List Label → Outcome (Option ℕ) → Outcome (Option ℕ) → Outcome FileListQuery
  with_times p n tags (ok from) (ok to) =
      ok (record { page_size = n; page_number = p; from_time = from; to_time = to; wanted = tags })
  with_times p n tags (ok from) (err e) = err e
  with_times p n tags (ok from) panic = panic
  with_times p n tags (err e) to = err e
  with_times p n tags panic to = panic

  unfoldable pub with_numbers : QueryParams → Outcome ℕ → Outcome ℕ → Outcome FileListQuery
  unfolding get_tags query_param time_of
  with_numbers q (ok p) (ok n) =
      with_times p n (map label (get_tags q))
        (time_of "from time format error " (query_param q "from"))
        (time_of "to time format error " (query_param q "to"))
  with_numbers q (ok p) (err e) = err e
  with_numbers q (ok p) panic = panic
  with_numbers q (err e) n = err e
  with_numbers q panic n = panic

  -- getQueryList
  unfoldable pub get_query_list : QueryParams → Outcome FileListQuery
  unfolding query_param number with_numbers
  get_query_list q =
      if query_param q "page" == "" || query_param q "size" == ""
      then err (text "find logs need page and size")
      else with_numbers q (number (query_param q "page")) (number (query_param q "size"))
