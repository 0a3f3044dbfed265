-- ===== src/Cleaning/Group.antt =====
-- What DeleteLogGroup deletes of a group.
use page_spy_api.Base.{
  ◌≡◌, refl, ap, sym, subst, ◌∙◌, ◌⊎◌, inl, inr, String, Option, none, some, List, [], ◌∷◌, ◌++◌,
  map, All, Option-cases,
}
use mathlib.Core.List.{append-nil, append_assoc}
use page_spy_api.Failure.{GoError, Outcome, ok, err}
use page_spy_api.World.Action.{Done, ◌>>=◌, ◌>>◌, bind-ok, bind-err}
use page_spy_api.Cleaning.{
  Log, Stores, Gone, answer, delete_file, delete_each, delete_row, delete_log_group,
}
use page_spy_api.Cleaning.Amount.{trouble, either}

abbrev ended_by : Option GoError → Outcome Done
ended_by none = ok tt
ended_by (some e) = err e

abbrev one_id : Option GoError → String → List String
one_id none id = id ∷ []
one_id (some e) id = []

delete_file_lem :
    (d : Stores) (l : Log) (s : Gone)
    → (t : Gone) × (delete_file d l.file_id s ≡ (ended_by (trouble d l), t))
      × (t.rows ≡ s.rows ++ one_id (trouble d l) l.file_id)
      × (t.groups ≡ s.groups)
unfolding delete_file ◌>>=◌
delete_file_lem d l s = answers (d.remove_log l.file_id) (d.delete_log l.file_id)
  where
    add_file : Gone → Gone
    add_file s = record s { files = s.files ++ l.file_id ∷ [] }

    add_row : Gone → Gone
    add_row s = record s { rows = s.rows ++ l.file_id ∷ [] }

    answers :
        (o p : Option GoError)
        → (t : Gone) × ((answer o add_file >> answer p add_row) s ≡ (ended_by (either o p), t))
          × (t.rows ≡ s.rows ++ one_id (either o p) l.file_id)
          × (t.groups ≡ s.groups)
    answers none none = (_, refl, refl, refl)
    answers none (some e) = (_, refl, sym (append-nil s.rows), refl)
    answers (some e) p = (_, refl, sym (append-nil s.rows), refl)

-- How the loop over a group's logs ended: all are gone, or the first that could not be deleted
-- gave its error, and those before it are gone.
pub record LogsDeleted (d : Stores) (logs : List Log) (s : Gone) (result : Outcome Done × Gone)
    : Type 0 where
  pub before : List Log
  pub after : List Log
  pub parts : logs ≡ before ++ after
  pub deleted : All (λ l. trouble d l ≡ none) before
  pub rows : result.1.rows ≡ s.rows ++ map (λ l. l.file_id) before
  pub groups : result.1.groups ≡ s.groups
  pub ended :
      ((after ≡ []) × (result.0 ≡ ok tt))
      ⊎ ((l : Log) × (rest : List Log) × (e : GoError) × (after ≡ l ∷ rest)
          × (trouble d l ≡ some e)
          × (result.0 ≡ err e))

none_lem : (d : Stores) (s : Gone) → delete_each d [] s ≡ (ok tt, s)
unfolding delete_each ◌>>=◌
none_lem d s = refl

step :
    (d : Stores) (l : Log) (ls : List Log) (s : Gone)
    → delete_each d (l ∷ ls) s ≡ (delete_file d l.file_id >> delete_each d ls) s
unfolding delete_each
step d l ls s = refl

delete_each-LogsDeleted :
    (d : Stores) (logs : List Log) (s : Gone) → LogsDeleted d logs s (delete_each d logs s)
delete_each-LogsDeleted d [] s = subst (LogsDeleted d [] s) (sym (none_lem d s)) (record {
  before = [];
  after = [];
  parts = refl;
  deleted = tt;
  rows = sym (append-nil s.rows);
  groups = refl;
  ended = inl (refl, refl);
})
delete_each-LogsDeleted d (l ∷ ls) s =
    let (t, e, r, g) = delete_file_lem d l s in
    elim (Option-cases (trouble d l)) [
      | inl fine ↦
          let c = delete_each-LogsDeleted d ls t in
          subst (LogsDeleted d (l ∷ ls) s)
            (sym (
              step d l ls s
              ∙ bind-ok (delete_file d l.file_id) (λ _. delete_each d ls) s t tt
                  (e ∙ ap (λ o. (ended_by o, t)) fine)))
            (record {
              before = l ∷ c.before;
              after = c.after;
              parts = ap (◌∷◌ l) c.parts;
              deleted = (fine, c.deleted);
              rows =
                  c.rows
                  ∙ ap (λ k. k ++ map (λ l. l.file_id) c.before)
                      (r ∙ ap (λ o. s.rows ++ one_id o l.file_id) fine)
                  ∙ append_assoc s.rows (l.file_id ∷ []) (map (λ l. l.file_id) c.before);
              groups = c.groups ∙ g;
              ended = c.ended;
            })
      | inr (x, bad) ↦
          subst (LogsDeleted d (l ∷ ls) s)
            (sym (
              step d l ls s
              ∙ bind-err (delete_file d l.file_id) (λ _. delete_each d ls) s t x
                  (e ∙ ap (λ o. (ended_by o, t)) bad)))
            (record {
              before = [];
              after = l ∷ ls;
              parts = refl;
              deleted = tt;
              rows = r ∙ ap (λ o. s.rows ++ one_id o l.file_id) bad;
              groups = g;
              ended = inr (l, ls, x, refl, bad, refl);
            })
    ]

-- How the deletion of a group ended: all logs are gone, and then the group's own row, unless that
-- could not be deleted, which gave its error; or the first log that could not be deleted gave its
-- error, those before it are gone, and the group's row is still there.
pub record GroupDeleted (d : Stores) (id : String) (logs : List Log) (s : Gone)
    (result : Outcome Done × Gone) : Type 0 where
  pub before : List Log
  pub after : List Log
  pub parts : logs ≡ before ++ after
  pub deleted : All (λ l. trouble d l ≡ none) before
  pub rows : result.1.rows ≡ s.rows ++ map (λ l. l.file_id) before
  pub ended :
      ((after ≡ [])
        × (d.delete_log_group_by_group_id id ≡ none)
        × (result.0 ≡ ok tt)
        × (result.1.groups ≡ s.groups ++ id ∷ []))
      ⊎ (((e : GoError) × (after ≡ [])
            × (d.delete_log_group_by_group_id id ≡ some e)
            × (result.0 ≡ err e)
            × (result.1.groups ≡ s.groups))
          ⊎ ((l : Log) × (rest : List Log) × (e : GoError) × (after ≡ l ∷ rest)
              × (trouble d l ≡ some e)
              × (result.0 ≡ err e)
              × (result.1.groups ≡ s.groups)))

module _ (d : Stores) (id : String) (logs : List Log) (s : Gone) where
  -- The state behind the loop
  looped : Gone
  looped = (delete_each d logs s).1

  whole : Gone
  whole = record looped { groups = looped.groups ++ id ∷ [] }

  found_lem : delete_log_group d id (ok (some logs)) s ≡ (delete_each d logs >> delete_row d id) s
  unfolding delete_log_group ◌>>=◌
  found_lem = refl

  stop_lem :
      (x : GoError)
      → (delete_each d logs s).0 ≡ err x
      → delete_log_group d id (ok (some logs)) s ≡ (err x, looped)
  unfolding looped
  stop_lem x h =
      found_lem
      ∙ bind-err (delete_each d logs) (λ _. delete_row d id) s looped x (ap (λ o. (o, looped)) h)

  row_lem :
      (delete_each d logs s).0 ≡ ok tt
      → delete_log_group d id (ok (some logs)) s ≡ delete_row d id looped
  unfolding looped
  row_lem h =
      found_lem
      ∙ bind-ok (delete_each d logs) (λ _. delete_row d id) s looped tt (ap (λ o. (o, looped)) h)

  row_gone : d.delete_log_group_by_group_id id ≡ none → delete_row d id looped ≡ (ok tt, whole)
  unfolding delete_row whole
  row_gone h = rw h refl

  row_stays :
      (x : GoError)
      → d.delete_log_group_by_group_id id ≡ some x
      → delete_row d id looped ≡ (err x, looped)
  unfolding delete_row
  row_stays x h = rw h refl

  -- DeleteLogGroup of a group that was found deletes the rows of its logs in their order, up to the
  -- first whose file or row cannot be deleted, whose error it returns with the group's own row left
  -- in place; if there is none, it deletes the group's own row and returns without an error, or
  -- returns the error of that deletion with the row left in place.
  pub delete_log_group-GroupDeleted :
      GroupDeleted d id logs s (delete_log_group d id (ok (some logs)) s)
  unfolding looped whole
  delete_log_group-GroupDeleted =
      let c = delete_each-LogsDeleted d logs s in
      elim c.ended [
        | inl (none_left, fine) ↦ elim (Option-cases (d.delete_log_group_by_group_id id)) [
          | inl h ↦ subst (GroupDeleted d id logs s) (sym (row_lem fine ∙ row_gone h)) (record {
            before = c.before;
            after = c.after;
            parts = c.parts;
            deleted = c.deleted;
            rows = c.rows;
            ended = inl (none_left, h, refl, ap (λ g. g ++ id ∷ []) c.groups);
          })
          | inr (x, h) ↦
              subst (GroupDeleted d id logs s) (sym (row_lem fine ∙ row_stays x h)) (record {
                before = c.before;
                after = c.after;
                parts = c.parts;
                deleted = c.deleted;
                rows = c.rows;
                ended = inr (inl (x, none_left, h, refl, c.groups));
              })
        ]
        | inr (l, rest, x, left_over, bad, failed) ↦
            subst (GroupDeleted d id logs s) (sym (stop_lem x failed)) (record {
              before = c.before;
              after = c.after;
              parts = c.parts;
              deleted = c.deleted;
              rows = c.rows;
              ended = inr (inr (l, rest, x, left_over, bad, refl, c.groups));
            })
      ]
