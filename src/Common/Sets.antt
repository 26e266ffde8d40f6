-- ===== src/Common/Sets.antt =====
-- Qt's QSet of ids as a list without repetition.
use Prim.Native.Nat.{ℕ, ◌≤◌, ◌<◌}
use mathlib.Core.Path.{◌≡◌, refl}
use mathlib.Core.Bool.{Bool, true, false, not, ◌&&◌, ◌||◌}
use mathlib.Core.List.{List, [], ◌∷◌}
use native.Mathlib.Omega.{arith}
use xlchat_project.Common.Tests.{◌==◌, if◌then◌else◌}
use xlchat_project.Common.Lists.{length}

unfoldable pub member : ℕ → List ℕ → Bool
member k [] = false
member k (x ∷ xs) = x == k || member k xs

unfoldable pub set_insert : ℕ → List ℕ → List ℕ
set_insert k xs = if member k xs then xs else k ∷ xs

unfoldable pub set_remove : ℕ → List ℕ → List ℕ
set_remove k [] = []
set_remove k (x ∷ xs) = let rest = set_remove k xs in if x == k then rest else x ∷ rest

pub member-set_insert :
    (k j : ℕ) (xs : List ℕ) → member j (set_insert k xs) ≡ (k == j || member j xs)
unfolding set_insert member
member-set_insert k j xs = ground arith

pub member-set_remove :
    (k j : ℕ) (xs : List ℕ) → member j (set_remove k xs) ≡ (not (k == j) && member j xs)
unfolding set_remove member
member-set_remove k j [] = ground arith
member-set_remove k j (x ∷ xs) = ground (arith, member-set_remove k j xs)

pub set_remove_absent : (k : ℕ) (xs : List ℕ) → member k xs ≡ false → set_remove k xs ≡ xs
unfolding set_remove member
set_remove_absent k [] h = refl
set_remove_absent k (x ∷ xs) h = ground (arith, set_remove_absent k xs)

abbrev pub NoRepeat : List ℕ → Type 0
NoRepeat [] = Unit
NoRepeat (x ∷ xs) = (member x xs ≡ false) × NoRepeat xs

pub set_insert-NoRepeat : (k : ℕ) (xs : List ℕ) → NoRepeat xs → NoRepeat (set_insert k xs)
unfolding set_insert
set_insert-NoRepeat k xs h = ground arith

set_remove_le : (k : ℕ) (xs : List ℕ) → length (set_remove k xs) ≤ length xs
unfolding set_remove
set_remove_le k [] = omega arith
set_remove_le k (x ∷ xs) = ground (arith, set_remove_le k xs)

length-set_remove :
    (k : ℕ) (xs : List ℕ) → member k xs ≡ true → length (set_remove k xs) < length xs
unfolding set_remove member
length-set_remove k [] h = ground arith
length-set_remove k (x ∷ xs) h = ground (arith, length-set_remove k xs, set_remove_le k xs)

-- A set whose elements are all in another is no longer than it.
pub subset_le :
    (xs ys : List ℕ)
    → NoRepeat xs
    → ((u : ℕ) → member u xs ≡ true → member u ys ≡ true)
    → length xs ≤ length ys
unfolding member
subset_le [] ys n h = omega arith
subset_le (x ∷ xs) ys n h =
    let rest =
      subset_le xs (set_remove x ys) n.1
        (λ u m. ground (arith, m, member-set_remove x u ys, h u, n.0)) in
    omega (arith, rest, length-set_remove x ys (h x (ground arith)))
