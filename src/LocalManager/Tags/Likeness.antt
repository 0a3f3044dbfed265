-- ===== src/LocalManager/Tags/Likeness.antt =====
-- What likeTags means: texts that stand in texts.
use page_spy_api.Base.{
  ℕ, String, ◌≡◌, refl, ap, ◌↔◌, ◌⊎◌, inl, inr, ◌≢◌, Bool, true, false, ◌&&◌, ◌||◌, List, [], ◌∷◌,
  ◌++◌, eqb, eqb_iff, All, arith,
}
use page_spy_api.Base.Dict.{Dict, lookup}
use page_spy_api.LocalManager.Tags.{starts, contains, lower, or_blank, all_like, like_tags}

-- The second text stands somewhere in the first.
abbrev pub Occurs : List ℕ → List ℕ → Type 0
Occurs s t = (before : List ℕ) × (after : List ℕ) × (s ≡ before ++ (t ++ after))

and_true : (a b : Bool) → (a && b) ≡ true → (a ≡ true) × (b ≡ true)
and_true a b h = (ground arith, ground arith)

or_true : (a b : Bool) → (a || b) ≡ true → (a ≡ true) ⊎ (b ≡ true)
or_true a b h = ground arith

cons_equal : (x y : ℕ) (s t : List ℕ) → x ∷ s ≡ y ∷ t → (x ≡ y) × (s ≡ t)
cons_equal x y s t h = (cc, cc)

no_cons : (y : ℕ) (t : List ℕ) → [] ≡ y ∷ t → ⊥
no_cons y t h = cc

not_both : false ≡ true → ⊥
not_both h = cc

-- t is a prefix of s.
abbrev Prefix : List ℕ → List ℕ → Type 0
Prefix s t = (after : List ℕ) × (s ≡ t ++ after)

Prefix-cons :
    (x y : ℕ) (s t : List ℕ) (b : Bool)
    → (b ≡ true) ↔ Prefix s t
    → ((eqb x y && b) ≡ true) ↔ Prefix (x ∷ s) (y ∷ t)
Prefix-cons x y s t b ih = (there, λ h. back h.0 h.1)
  where
    there : (eqb x y && b) ≡ true → Prefix (x ∷ s) (y ∷ t)
    there h =
        let (e, f) = and_true (eqb x y) b h in
        let (after, g) = ih.0 f in (after, rw ((eqb_iff x y).0 e, g) refl)

    back : (after : List ℕ) → x ∷ s ≡ y ∷ (t ++ after) → (eqb x y && b) ≡ true
    back after h =
        let (head, tail) = cons_equal x y s (t ++ after) h in
        rw ((eqb_iff x y).1 head, ih.1 (after, tail)) refl

starts_iff : (s t : List ℕ) → (starts s t ≡ true) ↔ Prefix s t
unfolding starts
starts_iff s [] = (λ h. (s, refl), λ h. refl)
starts_iff [] (y ∷ t) = (λ h. absurd (not_both h), λ h. absurd (no_cons y (t ++ h.0) h.1))
starts_iff (x ∷ s) (y ∷ t) = Prefix-cons x y s t (starts s t) (starts_iff s t)

Occurs-nil : (t before after : List ℕ) → [] ≡ before ++ (t ++ after) → [] ≡ t ++ after
Occurs-nil t [] after h = h
Occurs-nil t (x ∷ before) after h = absurd (no_cons x (before ++ (t ++ after)) h)

Occurs-cons :
    (x : ℕ) (s t before after : List ℕ)
    → x ∷ s ≡ before ++ (t ++ after)
    → Prefix (x ∷ s) t ⊎ Occurs s t
Occurs-cons x s t [] after h = inl (after, h)
Occurs-cons x s t (y ∷ before) after h =
    inr (before, after, (cons_equal x y s (before ++ (t ++ after)) h).1)

or_left : (a b : Bool) → a ≡ true → (a || b) ≡ true
or_left a b h = ground arith

or_right : (a b : Bool) → b ≡ true → (a || b) ≡ true
or_right a b h = ground arith

contains_step :
    (x : ℕ) (s t : List ℕ) (b : Bool)
    → (b ≡ true) ↔ Occurs s t
    → ((starts (x ∷ s) t || b) ≡ true) ↔ Occurs (x ∷ s) t
contains_step x s t b ih =
    (λ h. there (or_true (starts (x ∷ s) t) b h), λ h. back (Occurs-cons x s t h.0 h.1 h.2))
  where
    there : (starts (x ∷ s) t ≡ true) ⊎ (b ≡ true) → Occurs (x ∷ s) t
    there (inl f) = let (after, e) = (starts_iff (x ∷ s) t).0 f in ([], after, e)
    there (inr f) = let (before, after, e) = ih.0 f in (x ∷ before, after, ap (◌∷◌ x) e)

    back : Prefix (x ∷ s) t ⊎ Occurs s t → (starts (x ∷ s) t || b) ≡ true
    back (inl f) = or_left (starts (x ∷ s) t) b ((starts_iff (x ∷ s) t).1 f)
    back (inr f) = or_right (starts (x ∷ s) t) b (ih.1 f)

-- A text contains another exactly if the other stands somewhere in it.
pub contains_iff : (s t : List ℕ) → (contains s t ≡ true) ↔ Occurs s t
unfolding contains
contains_iff [] t = (
  λ h. let (after, e) = (starts_iff [] t).0 h in ([], after, e),
  λ h. (starts_iff [] t).1 (h.1, Occurs-nil t h.0 h.1 h.2),
)
contains_iff (x ∷ s) t = contains_step x s t (contains s t) (contains_iff s t)

module _ (to_lower : ℕ → ℕ) where
  -- What the tag k of a room holds of a condition's text v, letter case aside.
  abbrev pub Likes : Dict String → String × String → Type 0
  Likes origin (k, v) = Occurs (lower to_lower (or_blank (lookup k origin))) (lower to_lower v)

  all_like_iff :
      (origin condition : Dict String)
      → (all_like to_lower origin condition ≡ true) ↔ All (Likes origin) condition
  unfolding all_like
  all_like_iff origin [] = (λ h. tt, λ h. refl)
  all_like_iff origin ((k, v) ∷ condition) =
      let here = contains_iff (lower to_lower (or_blank (lookup k origin))) (lower to_lower v) in
      let rest = all_like_iff origin condition in
      (
        λ h.
            let (a, b) =
              and_true (contains (lower to_lower (or_blank (lookup k origin))) (lower to_lower v))
                (all_like to_lower origin condition) h in
            (here.0 a, rest.0 b),
        λ h. rw (here.1 h.0, rest.1 h.1) refl,
      )

  no_tag : (t : String × String) (m : Dict String) → t ∷ m ≡ [] → ⊥
  no_tag t m h = cc

  -- Tags are like a condition exactly if both are empty, or neither is and every text of the condition
  -- stands in the tag of its key, letter case aside; a missing tag is empty. Letter case is what unicode.ToLower makes
  -- of each code point, whatever its table.
  pub like_tags_iff :
      (origin condition : Dict String)
      → (like_tags to_lower origin condition ≡ true) ↔ (
          ((origin ≡ []) × (condition ≡ []))
          ⊎ ((origin ≢ []) × (condition ≢ []) × All (Likes origin) condition))
  unfolding like_tags
  like_tags_iff [] [] = (λ h. inl (refl, refl), λ h. refl)
  like_tags_iff [] (t ∷ condition) = (
    λ h. absurd (not_both h),
    λ h. elim h [ inl e ↦ absurd (no_tag t condition e.1) | inr n ↦ absurd (n.0 refl) ],
  )
  like_tags_iff (o ∷ origin) [] = (
    λ h. absurd (not_both h),
    λ h. elim h [ inl e ↦ absurd (no_tag o origin e.0) | inr n ↦ absurd (n.1 refl) ],
  )
  like_tags_iff (o ∷ origin) (t ∷ condition) = (
    λ h. inr (λ e. cc, λ e. cc, (all_like_iff (o ∷ origin) (t ∷ condition)).0 h),
    λ h. elim h [
      | inl e ↦ absurd (no_tag o origin e.0)
      | inr n ↦ (all_like_iff (o ∷ origin) (t ∷ condition)).1 n.2
    ],
  )
