-- ===== src/Data/Saved.antt =====
-- CreateLog, and what FindLogByFileId finds after it.
use page_spy_api.Base.{String, none, some, ◌≡◌, ◌≢◌, refl, ap, ◌∙◌, ◌⊎◌, inl, inr, ℕ}
use page_spy_api.Failure.{GoError, ok}
use page_spy_api.World.Action.{bind-ok}
use page_spy_api.Data.{LogData, status_saved, First, row, not_found, failed, Table, Gorm}
use page_spy_api.Data.Rows.{
  result_error, saved_file, find_log_by_file_id, create_unless, create_log,
}

-- Documented behaviour of the library on a database that can be reached: First answers with a row
-- that meets the conditions or that there is none, and Create, which numbers the row, lets First find
-- it if it found none.
pub record Working {S : Type 0} (t : Table S LogData) : Type 0 where
  pub answers : (id : String) (s : S) (e : GoError) → t.first (saved_file id) s ≢ failed e
  pub meets :
      (id : String) (s : S) (l : LogData) → t.first (saved_file id) s ≡ row l → l.file_id ≡ id
  pub creates :
      (l : LogData) (s : S)
      → l.status ≡ status_saved
      → t.first (saved_file l.file_id) s ≡ not_found
      → (n : ℕ) × (s' : S) × (t.create l s ≡ (none, s'))
        × (t.first (saved_file l.file_id) s' ≡ row (record l { id = n }))

First-cases :
    {R : Type 0} (f : First R)
    → ((r : R) × (f ≡ row r)) ⊎ (f ≡ not_found) ⊎ ((e : GoError) × (f ≡ failed e))
First-cases (row r) = inl (r, refl)
First-cases not_found = inr (inl refl)
First-cases (failed e) = inr (inr (e, refl))

module _ {S : Type 0} (g : Gorm S) where
  found_lem :
      (id : String) (s : S) (r : LogData)
      → g.log_table.first (saved_file id) s ≡ row r
      → find_log_by_file_id g id s ≡ (ok (some r), s)
  unfolding find_log_by_file_id
  found_lem id s r e = rw e refl

  absent_lem :
      (id : String) (s : S)
      → g.log_table.first (saved_file id) s ≡ not_found
      → find_log_by_file_id g id s ≡ (ok none, s)
  unfolding find_log_by_file_id
  absent_lem id s e = rw e refl

  known_lem :
      (l : LogData) (s : S) (r : LogData)
      → g.log_table.first (saved_file l.file_id) s ≡ row r
      → create_log g l s ≡ (ok tt, s)
  unfolding create_log
  known_lem l s r e =
      bind-ok (find_log_by_file_id g l.file_id) (create_unless g l) s s (some r)
        (found_lem l.file_id s r e)

  new_lem :
      (l : LogData) (s s' : S)
      → g.log_table.first (saved_file l.file_id) s ≡ not_found
      → g.log_table.create l s ≡ (none, s')
      → create_log g l s ≡ (ok tt, s')
  unfolding create_log
  new_lem l s s' e made =
      bind-ok (find_log_by_file_id g l.file_id) (create_unless g l) s s none
        (absent_lem l.file_id s e)
      ∙ ap result_error made

  -- On a database that can be reached, CreateLog of a log with the status of a saved one returns
  -- without an error, FindLogByFileId then finds a row of its file, and to create the log
  -- again changes nothing.
  pub find_log_by_file_id-create_log :
      Working g.log_table
      → (l : LogData) (s : S) → l.status ≡ status_saved
      → (r : LogData) × (s' : S) × (create_log g l s ≡ (ok tt, s'))
        × (find_log_by_file_id g l.file_id s' ≡ (ok (some r), s'))
        × (r.file_id ≡ l.file_id)
        × (create_log g l s' ≡ (ok tt, s'))
  find_log_by_file_id-create_log w l s saved =
      elim (First-cases (g.log_table.first (saved_file l.file_id) s)) [
        | inl (r, e) ↦ (
          r,
          s,
          known_lem l s r e,
          found_lem l.file_id s r e,
          w.meets l.file_id s r e,
          known_lem l s r e,
        )
        | inr (inl e) ↦
            let (n, s', made, there) = w.creates l s saved e in
            let r : LogData = record l { id = n } in
            (
              r,
              s',
              new_lem l s s' e made,
              found_lem l.file_id s' r there,
              refl,
              known_lem l s' r there,
            )
        | inr (inr (e, h)) ↦ absurd (w.answers l.file_id s e h)
      ]
