-- ===== src/Cleaning/Amount.antt =====
-- How much CleanFileBySize deletes.
use page_spy_api.Base.{
  ℕ, ◌+◌, ◌-◌, ◌≤◌, ◌<◌, String, ◌≡◌, refl, ap, sym, subst, ◌∙◌, ◌⊎◌, inl, inr, Bool, true, false,
  Option, none, some, List, [], ◌∷◌, ◌++◌, ltb, arith, Bool-cases, if◌then◌else◌,
}
use mathlib.Core.List.{append-nil, append_assoc}
use page_spy_api.Failure.{GoError, Outcome, ok}
use page_spy_api.World.Action.{Done, ◌>>=◌, ◌>>◌, Action, attempt, pure, lift, bind-lift, bind-ok}
use page_spy_api.Cleaning.{
  Log, Stores, Gone, answer, delete_file, left, is_zero, clean_until, clean_file_by_size,
}

-- The error of DeleteFile, if any
abbrev pub either : Option GoError → Option GoError → Option GoError
either none o = o
either (some e) o = some e

abbrev pub trouble : Stores → Log → Option GoError
trouble d l = either (d.remove_log l.file_id) (d.delete_log l.file_id)

abbrev add_size : Option GoError → ℕ → ℕ → ℕ
add_size none size n = size + n
add_size (some e) size n = n

-- The bytes of the logs that can be deleted.
abbrev pub freed : Stores → List Log → ℕ
freed d [] = 0
freed d (l ∷ ls) = add_size (trouble d l) l.size (freed d ls)

abbrev add_id : Option GoError → String → List String → List String
add_id none id ids = id ∷ ids
add_id (some e) id ids = ids

abbrev pub ids : Stores → List Log → List String
ids d [] = []
ids d (l ∷ ls) = add_id (trouble d l) l.file_id (ids d ls)

delete_lem :
    (d : Stores) (l : Log) (s : Gone)
    → (t : Gone) × (attempt (delete_file d l.file_id) s ≡ (ok (trouble d l), t))
      × (t.rows ≡ s.rows ++ add_id (trouble d l) l.file_id [])
unfolding delete_file ◌>>=◌
delete_lem d l s = answers (d.remove_log l.file_id) (d.delete_log l.file_id)
  where
    answers :
        (o p : Option GoError)
        → (t : Gone) × (attempt
              (answer o (λ s. record s { files = s.files ++ l.file_id ∷ [] })
                >> answer p (λ s. record s { rows = s.rows ++ l.file_id ∷ [] }))
              s
            ≡ (ok (either o p), t))
          × (t.rows ≡ s.rows ++ add_id (either o p) l.file_id [])
    answers none none = (_, refl, refl)
    answers none (some e) = (_, refl, sym (append-nil s.rows))
    answers (some e) p = (_, refl, sym (append-nil s.rows))

-- Every proper prefix frees less than n.
abbrev pub Short : Stores → ℕ → List Log → Type 0
Short d n ls = (p q : List Log) (x : Log) → ls ≡ p ++ (x ∷ q) → freed d p < n

cons_equal : (x y : Log) (s t : List Log) → x ∷ s ≡ y ∷ t → (x ≡ y) × (s ≡ t)
cons_equal x y s t h = (cc, cc)

no_prefix : (p q : List Log) (x : Log) → [] ≡ p ++ (x ∷ q) → ⊥
no_prefix [] q x h = cc
no_prefix (y ∷ p) q x h = cc

left_less :
    (n m : ℕ) (l : Log) (o : Option GoError) → 0 < n → m < left n l o → add_size o l.size m < n
left_less n m l none h k = omega (arith, h, k)
left_less n m l (some e) h k = k

Short-cons :
    (d : Stores) (n : ℕ) (l : Log) (ls : List Log)
    → 0 < n
    → ((m : ℕ) → m < left n l (trouble d l) → add_size (trouble d l) l.size m < n)
    → Short d (left n l (trouble d l)) ls
    → Short d n (l ∷ ls)
Short-cons d n l ls pos less h [] q x e = pos
Short-cons d n l ls pos less h (y ∷ p) q x e =
    let (head, tail) = cons_equal l y ls (p ++ (x ∷ q)) e in
    subst (λ z. add_size (trouble d z) z.size (freed d p) < n) head
      (less (freed d p) (h p q x tail))

-- What CleanFileBySize leaves that has n bytes to delete and finds these logs, the oldest first: it
-- deletes the logs of a first part that it can; that part is all of them or frees n bytes, and every
-- shorter part frees less.
pub record Cleaned (d : Stores) (n : ℕ) (logs : List Log) (s : Gone) (result : Outcome Done × Gone)
    : Type 0 where
  pub before : List Log
  pub after : List Log
  pub parts : logs ≡ before ++ after
  pub returned : result.0 ≡ ok tt
  pub rows : result.1.rows ≡ s.rows ++ ids d before
  pub enough : (after ≡ []) ⊎ (n ≤ freed d before)
  pub short : Short d n before

none_lem : (d : Stores) (n : ℕ) (s : Gone) → clean_until d n [] s ≡ (ok tt, s)
unfolding clean_until ◌>>=◌
none_lem d n s = refl

stop_lem :
    (d : Stores) (n : ℕ) (l : Log) (ls : List Log) (s : Gone)
    → is_zero n ≡ true
    → clean_until d n (l ∷ ls) s ≡ (ok tt, s)
unfolding clean_until ◌>>=◌
stop_lem d n l ls s h = rw (clean_until, h) refl

step_lem :
    (d : Stores) (n : ℕ) (l : Log) (ls : List Log)
    → is_zero n ≡ false
    → clean_until d n (l ∷ ls)
      ≡ (attempt (delete_file d l.file_id) >>= λ failed. clean_until d (left n l failed) ls)
unfolding clean_until
step_lem d n l ls h = rw (clean_until, h) refl

rows_lem :
    (o : Option GoError) (id : String) (rows more : List String)
    → (rows ++ add_id o id []) ++ more ≡ rows ++ add_id o id more
rows_lem none id rows more = append_assoc rows (id ∷ []) more
rows_lem (some e) id rows more = ap (λ r. r ++ more) (append-nil rows)

enough_lem : (n m : ℕ) (l : Log) (o : Option GoError) → left n l o ≤ m → n ≤ add_size o l.size m
enough_lem n m l none h = omega (arith, h)
enough_lem n m l (some e) h = h

pub clean_until-Cleaned :
    (d : Stores) (n : ℕ) (logs : List Log) (s : Gone) → Cleaned d n logs s (clean_until d n logs s)
clean_until-Cleaned d n [] s = subst (Cleaned d n [] s) (sym (none_lem d n s)) (record {
  before = [];
  after = [];
  parts = refl;
  returned = refl;
  rows = sym (append-nil s.rows);
  enough = inl refl;
  short = λ p q x e. absurd (no_prefix p q x e);
})
clean_until-Cleaned d n (l ∷ ls) s = elim (Bool-cases (is_zero n)) [
  | inl h ↦ subst (Cleaned d n (l ∷ ls) s) (sym (stop_lem d n l ls s h)) (record {
    before = [];
    after = l ∷ ls;
    parts = refl;
    returned = refl;
    rows = sym (append-nil s.rows);
    enough = inr (ground arith);
    short = λ p q x e. absurd (no_prefix p q x e);
  })
  | inr h ↦
      let (t, e, r) = delete_lem d l s in
      let c = clean_until-Cleaned d (left n l (trouble d l)) ls t in
      subst (Cleaned d n (l ∷ ls) s)
        (sym (
          ap (λ m. m s) (step_lem d n l ls h)
          ∙ bind-ok (attempt (delete_file d l.file_id))
              (λ failed. clean_until d (left n l failed) ls) s t (trouble d l) e))
        (record {
          before = l ∷ c.before;
          after = c.after;
          parts = ap (◌∷◌ l) c.parts;
          returned = c.returned;
          rows =
              c.rows
              ∙ ap (λ k. k ++ ids d c.before) r
              ∙ rows_lem (trouble d l) l.file_id s.rows (ids d c.before);
          enough = elim c.enough [
            | inl k ↦ inl k
            | inr k ↦ inr (enough_lem n (freed d c.before) l (trouble d l) k)
          ];
          short =
              Short-cons d n l c.before (ground arith)
                (λ m k. left_less n m l (trouble d l) (ground arith) k) c.short;
        })
]

lift_lem :
    {A B : Type 0} (o : Outcome A) (a : A) (f : A → Action Gone B) (s : Gone)
    → o ≡ ok a
    → (lift o >>= f) s ≡ f a s
lift_lem o a f s e = rw e (bind-lift a f s)

full_lem :
    (d : Stores) (max size : ℕ) (s : Gone) (b : Bool)
    → d.count_logs_size ≡ ok size
    → ltb size max ≡ b
    → clean_file_by_size d max s
      ≡ (if b then pure tt else lift (d.find_oldest_logs 1000) >>= clean_until d (size - max)) s
unfolding clean_file_by_size
full_lem d max size s b c h =
    lift_lem d.count_logs_size size
      (λ size.
        if ltb size max
        then pure tt
        else lift (d.find_oldest_logs 1000) >>= clean_until d (size - max))
      s c
    ∙ ap
        (λ b.
          (if b then pure tt else lift (d.find_oldest_logs 1000) >>= clean_until d (size - max)) s)
        h

-- If the rows count as many bytes as the maximum or more, CleanFileBySize deletes the oldest logs
-- that it finds first, as many as free what is above the maximum and no more, passes over those that
-- cannot be deleted, and returns.
pub clean_file_by_size-Cleaned :
    (d : Stores) (max size : ℕ) (logs : List Log) (s : Gone)
    → d.count_logs_size ≡ ok size
    → d.find_oldest_logs 1000 ≡ ok logs
    → max ≤ size
    → Cleaned d (size - max) logs s (clean_file_by_size d max s)
clean_file_by_size-Cleaned d max size logs s c f h =
    subst (Cleaned d (size - max) logs s)
      (sym (
        full_lem d max size s false c (ground (arith, h))
        ∙ lift_lem (d.find_oldest_logs 1000) logs (clean_until d (size - max)) s f))
      (clean_until-Cleaned d (size - max) logs s)
