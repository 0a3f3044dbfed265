-- ===== src/Pages.antt =====
-- data/logs.go: Page, Merge and UniqData; rpc/util.go: CallAllClient, over the pages that the
-- instances answered.
use page_spy_api.Base.{
  ℕ, ◌+◌, String, ◌≡◌, refl, sym, ◌∙◌, map, Bool, false, not, ◌&&◌, ◌||◌, List, [], ◌∷◌, ◌++◌, ◌==◌,
  eq_iff, eq_refl, arith, Bool-cases, inl, inr, if◌then◌else◌,
}
use mathlib.Core.List.{append-nil, append_assoc}
use page_spy_api.Failure.{Outcome, ok, err, panic, text}

module _ {T : Type 0} (key : T → String) where
  pub record Page : Type 0 where
    pub total : ℕ
    pub rows : List T

  -- Merge, of a page of the same type
  abbrev pub merge : Page → Page → Page
  merge p q = record { total = p.total + q.total; rows = p.rows ++ q.rows }

  merge_answers : List (Outcome Page) → Page → Outcome Page
  merge_answers [] p = ok p
  merge_answers (ok q ∷ answers) p = merge_answers answers (merge p q)
  merge_answers (err e ∷ answers) p = err e
  merge_answers (panic ∷ answers) p = panic

  -- CallAllClient
  unfoldable pub call_all_client : List (Outcome Page) → Page → Outcome Page
  unfolding merge_answers
  call_all_client [] p = err (text "rpc client list is empty")
  call_all_client (a ∷ answers) p = merge_answers (a ∷ answers) p

  abbrev pub member : String → List String → Bool
  member k [] = false
  member k (j ∷ ks) = j == k || member k ks

  -- The loop of UniqData, with the keys that it has seen
  unfoldable pub uniq_from : List String → List T → List T
  uniq_from seen [] = []
  uniq_from seen (x ∷ xs) =
      let skipped = uniq_from seen xs in
      let kept = uniq_from (key x ∷ seen) xs in if member (key x) seen then skipped else x ∷ kept

  -- UniqData
  unfoldable pub uniq_data : Page → Page
  unfolding uniq_from
  uniq_data p = record p { rows = uniq_from [] p.rows }

  abbrev pub has_key : String → List T → Bool
  has_key k [] = false
  has_key k (x ∷ xs) = key x == k || has_key k xs

  -- No two rows have one key.
  abbrev pub Distinct : List T → Type 0
  Distinct [] = Unit
  Distinct (x ∷ xs) = (has_key (key x) xs ≡ false) × Distinct xs

  has_key-uniq_from :
      (k : String) (seen : List String) (xs : List T)
      → has_key k (uniq_from seen xs) ≡ (has_key k xs && not (member k seen))
  unfolding uniq_from
  has_key-uniq_from k seen [] = refl
  has_key-uniq_from k seen (x ∷ xs) =
      ground (
        arith,
        eq_iff (key x) k,
        has_key-uniq_from k seen xs,
        has_key-uniq_from k (key x ∷ seen) xs,
      )

  own_key :
      (x : T) (seen : List String) (b : Bool)
      → (b && not (key x == key x || member (key x) seen)) ≡ false
  own_key x seen b = rw eq_refl (ground arith)

  Distinct-uniq_from : (seen : List String) (xs : List T) → Distinct (uniq_from seen xs)
  unfolding uniq_from
  Distinct-uniq_from seen [] = tt
  Distinct-uniq_from seen (x ∷ xs) = elim (Bool-cases (member (key x) seen)) [
    | inl h ↦ rw h (Distinct-uniq_from seen xs)
    | inr h ↦ rw h (
      has_key-uniq_from (key x) (key x ∷ seen) xs ∙ own_key x seen (has_key (key x) xs),
      Distinct-uniq_from (key x ∷ seen) xs,
    )
  ]

  -- UniqData leaves rows of different keys, of every key that there was and of no other, and the
  -- total as it was.
  pub uniq_data-Distinct :
      (p : Page)
      → Distinct (uniq_data p).rows
        × ((k : String) → has_key k (uniq_data p).rows ≡ has_key k p.rows)
        × ((uniq_data p).total ≡ p.total)
  unfolding uniq_data
  uniq_data-Distinct p =
      (Distinct-uniq_from [] p.rows, λ k. has_key-uniq_from k [] p.rows ∙ ground arith, refl)

  unfoldable pub sum_totals : List Page → ℕ
  sum_totals [] = 0
  sum_totals (q ∷ qs) = q.total + sum_totals qs

  unfoldable pub all_rows : List Page → List T
  all_rows [] = []
  all_rows (q ∷ qs) = q.rows ++ all_rows qs

  unfoldable pub joined : Page → List Page → Page
  joined p qs = record { total = p.total + sum_totals qs; rows = p.rows ++ all_rows qs }

  paged : ℕ → List T → Outcome Page
  paged n xs = ok (record { total = n; rows = xs })

  page_equal : {m n : ℕ} {xs ys : List T} → m ≡ n → xs ≡ ys → paged m xs ≡ paged n ys
  page_equal e f = rw (e, f) refl

  merge_answers-map : (qs : List Page) (p : Page) → merge_answers (map ok qs) p ≡ ok (joined p qs)
  unfolding merge_answers joined paged sum_totals all_rows
  merge_answers-map [] p = page_equal {n = p.total + 0} (omega arith) (sym (append-nil p.rows))
  merge_answers-map (q ∷ qs) p =
      merge_answers-map qs (merge p q)
      ∙ page_equal {n = p.total + (q.total + sum_totals qs)} (omega arith)
          (append_assoc p.rows q.rows (all_rows qs))

  -- If every instance of a list that is not empty answers with a page, CallAllClient gives the rows
  -- of all, in the order of the instances, behind those that there were, and the sum of the totals.
  pub call_all_client-map :
      (q : Page) (qs : List Page) (p : Page)
      → call_all_client (map ok (q ∷ qs)) p ≡ ok (joined p (q ∷ qs))
  unfolding call_all_client
  call_all_client-map q qs p = merge_answers-map (q ∷ qs) p
