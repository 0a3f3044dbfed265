-- ===== src/Data/Paging.antt =====
-- FindLogs and FindLogGroups page by page.
use page_spy_api.Base.{
  ℕ, zero, suc, ◌+◌, ◌-◌, ◌*◌, ◌%◌, ◌≤◌, ◌<◌, String, List, [], ◌∷◌, ◌++◌, take, drop, length,
  take-append, arith, ◌≡◌, refl, ap,
}
use page_spy_api.Base.Int.{at_most_zero-positive}
use page_spy_api.Failure.{Outcome, ok, err, panic}
use page_spy_api.Pages.{Page}
use page_spy_api.Data.{Query, offset, limit, Table, Gorm, LogData, log_key}
use page_spy_api.Data.Query.{FileListQuery, get_offset, get_log_db}
use page_spy_api.Data.Rows.{find_page, find_logs}

-- Adding 2 ^ 64 - 1 takes one away.
one_less :
    (k n : ℕ)
    → k * n < 9223372036854775808
    → ((k + 1 + 18446744073709551615) * n) % 18446744073709551616 ≡ k * n
one_less k n h =
    let e : (k + 1 + 18446744073709551615) * n ≡ k * n + 18446744073709551616 * n = omega arith in
    rw e (omega arith)

-- Documented behaviour of the library for one query of one table in one state: Offset and Limit
-- cut a part of the rows that Find gives without them, and Count counts these rows.
pub record Pageable {S R : Type 0} (t : Table S R) (query : Query) (s : S) (rows : List R)
    : Type 0 where
  pub find-query : t.find query s ≡ ok rows
  pub find-cut :
      (o n : ℕ)
      → o < 9223372036854775808
      → t.find (query ++ offset o ∷ limit n ∷ []) s ≡ ok (take n (drop o rows))
  pub count-query : t.count query s ≡ ok (length rows)

abbrev pub at_page : FileListQuery → ℕ → FileListQuery
at_page q k = record q { page_number = k }

mul_le : (k n : ℕ) → 0 < n → k ≤ k * n
mul_le zero n h = omega arith
mul_le (suc k) n h = let e : suc k * n ≡ k * n + n = omega arith in omega (arith, mul_le k n h)

fits :
    (k n size : ℕ) → k < n → n * size < 9223372036854775808 → k * size + size < 9223372036854775808
fits k n size h m =
    let e : n ≡ k + 1 + (n - (k + 1)) = omega arith in
    let f : (k + 1 + (n - (k + 1))) * size ≡ k * size + size + (n - (k + 1)) * size = omega arith in
    let g : n * size ≡ (k + 1 + (n - (k + 1))) * size = ap (λ x. x * size) e in omega arith

module _ {R : Type 0} (key : R → String) where
  abbrev add_page : Outcome (List R) → Outcome (Page key) → Outcome (List R)
  add_page (ok rows) (ok p) = ok (rows ++ p.rows)
  add_page (ok rows) (err e) = err e
  add_page (ok rows) panic = panic
  add_page (err e) p = err e
  add_page panic p = panic

  -- The rows of the first n pages, asked for one after another.
  abbrev pub first_pages : (ℕ → Outcome (Page key)) → ℕ → Outcome (List R)
  first_pages ask zero = ok []
  first_pages ask (suc n) = add_page (first_pages ask n) (ask (suc n))

  -- The page of a given size behind k others.
  abbrev pub page_behind : ℕ → List R → ℕ → Page key
  page_behind size rows k = record { total = length rows; rows = take size (drop (k * size) rows) }

  pages-take :
      (ask : ℕ → Outcome (Page key)) (size : ℕ) (rows : List R)
      → ((k : ℕ)
          → k * size + size < 9223372036854775808
          → ask (suc k) ≡ ok (page_behind size rows k))
      → (n : ℕ) → n * size < 9223372036854775808
      → first_pages ask n ≡ ok (take (n * size) rows)
  pages-take ask size rows each zero h = let e : 0 * size ≡ 0 = omega arith in rw e refl
  pages-take ask size rows each (suc n) h =
      let e : suc n * size ≡ n * size + size = omega arith in
      rw
        (
          pages-take ask size rows each n (omega arith),
          each n (omega arith),
          e,
          ← take-append (n * size) size rows,
        )
        refl

module _ {S R : Type 0} (key : R → String) (t : Table S R) (build : FileListQuery → Query)
    (q : FileListQuery) (s : S) (rows : List R) (free : (k : ℕ) → build (at_page q k) ≡ build q)
    (pageable : Pageable t (build q) s rows) (some_size : 0 < q.page_size) where
  pub find_page-page_behind :
      (k : ℕ)
      → k * q.page_size + q.page_size < 9223372036854775808
      → find_page key t build (at_page q (suc k)) s ≡ ok (page_behind key q.page_size rows k)
  unfolding find_page get_offset
  find_page-page_behind k h =
      let small : suc k < 9223372036854775808 = omega (arith, mul_le k q.page_size some_size) in
      let e : suc k + 18446744073709551615 ≡ k + 1 + 18446744073709551615 = omega arith in
      let size_fits : q.page_size < 9223372036854775808 = omega arith in
      rw
        (
          at_most_zero-positive q.page_size some_size size_fits,
          at_most_zero-positive (suc k) (omega arith) small,
          free (suc k),
          e,
          one_less k q.page_size (omega arith),
          pageable.find-cut (k * q.page_size) q.page_size (omega arith),
          pageable.count-query,
        )
        refl

-- If the library cuts the rows of a query by Offset and Limit and counts them, FindLogs of the first
-- n pages, of a size above 0, gives together the first n times as many rows in their order, and each
-- of the pages has the number of all rows as its total; n times the size must be below 2 ^ 63.
pub find_logs-pages :
    {S : Type 0} (g : Gorm S) (q : FileListQuery) (s : S) (rows : List LogData)
    → Pageable g.log_table (get_log_db q) s rows
    → 0 < q.page_size
    → (n : ℕ) → n * q.page_size < 9223372036854775808
    → (first_pages log_key (λ k. (find_logs g (at_page q k) s).0) n
        ≡ ok (take (n * q.page_size) rows))
      × ((k : ℕ)
          → k < n
          → (p : Page log_key) × ((find_logs g (at_page q (suc k)) s).0 ≡ ok p)
            × (p.total ≡ length rows))
unfolding find_logs get_log_db
find_logs-pages {S} g q s rows pageable some_size n h =
    let each : (k : ℕ)
        → k * q.page_size + q.page_size < 9223372036854775808
        → find_page log_key g.log_table get_log_db (at_page q (suc k)) s
          ≡ ok (page_behind log_key q.page_size rows k) =
      find_page-page_behind log_key g.log_table get_log_db q s rows (λ k. refl) pageable
        some_size in
    (
      pages-take log_key (λ k. (find_logs g (at_page q k) s).0) q.page_size rows each n h,
      λ k below. (_, each k (fits k n q.page_size below h), refl),
    )
