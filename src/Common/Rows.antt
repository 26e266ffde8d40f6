-- ===== src/Common/Rows.antt =====
-- The parts of SQL that the program uses, over a table as the list of its rows in order of insertion.
use Prim.Native.Nat.{ℕ, suc, ◌+◌, ◌≤◌, ◌<◌}
use mathlib.Core.Logic.{inl, inr}
use mathlib.Core.Path.{◌≡◌, refl, subst, ◌∙◌}
use mathlib.Core.Bool.{Bool, true, false, ◌||◌}
use mathlib.Core.List.{List, [], ◌∷◌, ◌++◌}
use mathlib.Core.Option.{Option, none, some}
use native.Mathlib.Omega.{arith}
use xlchat_project.Common.Tests.{if◌then◌else◌, ◌==◌, Bool-cases}
use xlchat_project.Common.Lists.{length, All}

module _ {A : Type 0} where
  -- SELECT … WHERE test
  unfoldable pub select : (A → Bool) → List A → List A
  select p [] = []
  select p (x ∷ xs) = let rest = select p xs in if p x then x ∷ rest else rest

  -- The first row of such a SELECT.
  unfoldable pub find_row : (A → Bool) → List A → Option A
  find_row p [] = none
  find_row p (x ∷ xs) = let rest = find_row p xs in if p x then some x else rest

  -- SELECT COUNT(*) … > 0
  unfoldable pub has_row : (A → Bool) → List A → Bool
  has_row p [] = false
  has_row p (x ∷ xs) = p x || has_row p xs

  -- SELECT COUNT(*) … WHERE test
  unfoldable pub count_rows : (A → Bool) → List A → ℕ
  count_rows p [] = 0
  count_rows p (x ∷ xs) = (if p x then 1 else 0) + count_rows p xs

  -- UPDATE … SET change WHERE test
  unfoldable pub update_rows : (A → Bool) → (A → A) → List A → List A
  update_rows p f [] = []
  update_rows p f (x ∷ xs) = (if p x then f x else x) ∷ update_rows p f xs

  -- DELETE … WHERE test
  unfoldable pub delete_rows : (A → Bool) → List A → List A
  delete_rows p [] = []
  delete_rows p (x ∷ xs) = let rest = delete_rows p xs in if p x then rest else x ∷ rest

  pub count_rows-le : (p : A → Bool) (xs : List A) → count_rows p xs ≤ length xs
  unfolding count_rows
  count_rows-le p [] = omega arith
  count_rows-le p (x ∷ xs) = ground (arith, count_rows-le p xs)

  pub count_rows-append :
      (p : A → Bool) (xs ys : List A) → count_rows p (xs ++ ys) ≡ count_rows p xs + count_rows p ys
  unfolding count_rows
  count_rows-append p [] ys = omega arith
  count_rows-append p (x ∷ xs) ys = omega (arith, count_rows-append p xs ys)

  pub find_row-delete_rows : (p : A → Bool) (xs : List A) → find_row p (delete_rows p xs) ≡ none
  unfolding find_row delete_rows
  find_row-delete_rows p [] = refl
  find_row-delete_rows p (x ∷ xs) = ground (arith, find_row-delete_rows p xs)

  -- A found row meets the test.
  pub find_row_meets : (p : A → Bool) (xs : List A) (x : A) → find_row p xs ≡ some x → p x ≡ true
  unfolding find_row
  find_row_meets p [] x h = cc
  find_row_meets p (y ∷ xs) x h = ground (arith, find_row_meets p xs x)

  -- Nor can a found row be missing from the table.
  pub find_row_has :
      (p q : A → Bool) (xs : List A) (x : A)
      → find_row p xs ≡ some x
      → q x ≡ true
      → has_row q xs ≡ true
  unfolding find_row has_row
  find_row_has p q [] x h t = cc
  find_row_has p q (y ∷ xs) x h t = ground (arith, find_row_has p q xs x)

  pub find_row-append :
      (p : A → Bool) (xs ys : List A) → find_row p xs ≡ none → find_row p (xs ++ ys) ≡ find_row p ys
  unfolding find_row
  find_row-append p [] ys h = refl
  find_row-append p (x ∷ xs) ys h = ground (arith, find_row-append p xs ys)

-- AUTOINCREMENT: the ids of the rows rise strictly, from above `lo` to below `hi`.
module _ {A : Type 0} (key : A → ℕ) where
  abbrev pub Rising : ℕ → List A → ℕ → Type 0
  Rising lo [] hi = lo < hi
  Rising lo (x ∷ xs) hi = (lo < key x) × Rising (key x) xs hi

  Rising-weaken : (lo lo' hi : ℕ) (xs : List A) → lo' ≤ lo → Rising lo xs hi → Rising lo' xs hi
  Rising-weaken lo lo' hi [] h a = omega arith
  Rising-weaken lo lo' hi (x ∷ xs) h a = (omega arith, a.1)

  pub Rising-snoc :
      (lo hi : ℕ) (xs : List A) (x : A)
      → key x ≡ hi
      → Rising lo xs hi
      → Rising lo (xs ++ x ∷ []) (suc hi)
  Rising-snoc lo hi [] x h a = omega arith
  Rising-snoc lo hi (y ∷ xs) x h a = (a.0, Rising-snoc (key y) hi xs x h a.1)

  pub Rising-delete_rows :
      (p : A → Bool) (lo hi : ℕ) (xs : List A) → Rising lo xs hi → Rising lo (delete_rows p xs) hi
  unfolding delete_rows
  Rising-delete_rows p lo hi [] a = a
  Rising-delete_rows p lo hi (x ∷ xs) a = ground (
    arith,
    Rising-delete_rows p (key x) hi xs a.1,
    Rising-weaken (key x) lo hi (delete_rows p xs),
  )

  -- An id at or below `lo` is not used.
  pub Rising-unused :
      (lo hi k : ℕ) (xs : List A) → Rising lo xs hi → k ≤ lo → find_row (λ x. key x == k) xs ≡ none
  unfolding find_row
  Rising-unused lo hi k [] a h = refl
  Rising-unused lo hi k (x ∷ xs) a h = ground (arith, Rising-unused (key x) hi k xs a.1)

  pub Rising-lt : (lo hi : ℕ) (xs : List A) → Rising lo xs hi → lo < hi
  Rising-lt lo hi [] a = a
  Rising-lt lo hi (x ∷ xs) a = omega (arith, Rising-lt (key x) hi xs a.1, a.0)

  -- Nor is the next one.
  pub Rising-next :
      (lo hi : ℕ) (xs : List A) → Rising lo xs hi → find_row (λ x. key x == hi) xs ≡ none
  unfolding find_row
  Rising-next lo hi [] a = refl
  Rising-next lo hi (x ∷ xs) a =
      ground (arith, Rising-next (key x) hi xs a.1, Rising-lt (key x) hi xs a.1)

module _ {A : Type 0} where
  pub All-select {ℓ} :
      (P : A → Type ℓ) (q : A → Bool) (xs : List A)
      → All P xs
      → All (λ x. P x × (q x ≡ true)) (select q xs)
  unfolding select
  All-select P q [] h = tt
  All-select P q (x ∷ xs) h = elim (Bool-cases (q x)) [
    | inl e ↦ rw e ((h.0, e), All-select P q xs h.1)
    | inr e ↦ rw e (All-select P q xs h.1)
  ]

  pub find_row-All {ℓ} :
      (P : A → Type ℓ) (p : A → Bool) (xs : List A) (x : A)
      → All P xs
      → find_row p xs ≡ some x
      → P x
  unfolding find_row
  find_row-All P p [] x h e = absurd (none_some e)
    where
      none_some : none ≡ some x → ⊥
      none_some k = cc
  find_row-All P p (y ∷ xs) x h e = elim (Bool-cases (p y)) [
    | inl t ↦ subst P (ground arith) h.0
    | inr t ↦ find_row-All P p xs x h.1 (ground arith)
  ]

module _ {A : Type 0} (key : A → ℕ) where
  -- A row behind smaller ids is not touched by a deletion of one of them.
  Rising-kept :
      (lo hi k : ℕ) (xs : List A)
      → Rising key lo xs hi
      → k ≤ lo
      → delete_rows (λ y. key y == k) xs ≡ xs
  unfolding delete_rows
  Rising-kept lo hi k [] a h = refl
  Rising-kept lo hi k (x ∷ xs) a h = ground (arith, Rising-kept (key x) hi k xs a.1)

  -- Each row is the one found under its id.
  pub Rising-found :
      (lo hi : ℕ) (ys xs : List A)
      → ((k : ℕ) → lo < k → find_row (λ y. key y == k) ys ≡ find_row (λ y. key y == k) xs)
      → Rising key lo xs hi
      → All (λ x. find_row (λ y. key y == key x) ys ≡ some x) xs
  unfolding find_row
  Rising-found lo hi ys [] f a = tt
  Rising-found lo hi ys (x ∷ xs) f a = (
    f (key x) a.0 ∙ ground arith,
    Rising-found (key x) hi ys xs (λ k h. f k (omega (arith, a.0, h)) ∙ ground arith) a.1,
  )

  -- Deleting by the id of a row leaves the rows of any kind that it is not of.
  pub delete_one :
      (r : A → Bool) (lo hi : ℕ) (s : A) (xs : List A)
      → Rising key lo xs hi
      → find_row (λ y. key y == key s) xs ≡ some s
      → r s ≡ false
      → select r (delete_rows (λ y. key y == key s) xs) ≡ select r xs
  unfolding find_row select delete_rows
  delete_one r lo hi s [] a e h = refl
  delete_one r lo hi s (x ∷ xs) a e h =
      ground (arith, Rising-kept (key x) hi (key s) xs a.1, delete_one r (key x) hi s xs a.1)
