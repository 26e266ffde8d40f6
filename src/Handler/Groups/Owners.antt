-- ===== src/Handler/Groups/Owners.antt =====
-- The owners and members of a group, counted in the rows of conversation_members.
pub mod Leaving
pub mod Inviting
pub mod Requests
use xlchat_project.Common.{
  ℕ, ◌+◌, ◌≤◌, ◌<◌, ◌≡◌, ◌⊎◌, inl, inr, refl, subst, sym, Bool, true, false, not, ◌&&◌, List, [],
  ◌∷◌, ◌==◌, ltb, if◌then◌else◌, Bool-cases, has_row, find_row, select, count_rows, update_rows,
  delete_rows, some, arith,
}
use xlchat_project.Database.{User, Role, owner, Member}
use xlchat_project.Database.Groups.{is_in, is_member_row, comes_before, put_in_order, in_order}
use xlchat_project.Database.Groups.Membership.{is_owner}
use xlchat_project.Handler.Groups.{first_other}

abbrev pub owners : ℕ → List Member → ℕ
owners g ms = count_rows (λ m. is_in g m && is_owner m.role) ms

abbrev pub headcount : ℕ → List Member → ℕ
headcount g ms = count_rows (is_in g) ms

abbrev pub rows : ℕ → ℕ → List Member → ℕ
rows g user ms = count_rows (is_member_row g user) ms

-- The rows of a user that make it the owner.
abbrev pub owning : ℕ → ℕ → List Member → ℕ
owning g user ms = count_rows (λ m. is_member_row g user m && is_owner m.role) ms

abbrev pub is_known : List User → Member → Bool
is_known users m = has_row (λ u. u.id == m.user) users

-- A row whose user does not exist, or has no proper id.
abbrev pub strays : ℕ → List User → List Member → ℕ
strays g users ms = count_rows (λ m. is_in g m && not (is_known users m && ltb 0 m.user)) ms

-- The group has one owner or no member, each user at most once, and only existing users.
pub record Led (g : ℕ) (users : List User) (ms : List Member) : Type 0 where
  pub led : (owners g ms ≡ 1) ⊎ (headcount g ms ≡ 0)
  pub unique : (u : ℕ) → rows g u ms ≤ 1
  pub known : strays g users ms ≡ 0

module _ (g user : ℕ) where
  owning_le : (ms : List Member) → owning g user ms ≤ rows g user ms
  unfolding count_rows
  owning_le [] = omega arith
  owning_le (m ∷ ms) = ground (arith, owning_le ms)

  -- What the first row says of the role is all there is, as there is no second one.
  pub owning_found :
      (ms : List Member) (m : Member)
      → find_row (is_member_row g user) ms ≡ some m
      → rows g user ms ≤ 1
      → owning g user ms ≡ (if is_owner m.role then 1 else 0)
  unfolding count_rows find_row
  owning_found [] m e h = cc
  owning_found (x ∷ ms) m e h = ground (arith, owning_found ms m, owning_le ms)

module _ (g group user : ℕ) where
  pub owners-delete :
      (ms : List Member)
      → owners g (delete_rows (is_member_row group user) ms)
          + (if g == group then owning g user ms else 0)
        ≡ owners g ms
  unfolding count_rows delete_rows
  owners-delete [] = ground arith
  owners-delete (m ∷ ms) = ground (arith, owners-delete ms)

  pub headcount-delete :
      (ms : List Member)
      → headcount g (delete_rows (is_member_row group user) ms)
          + (if g == group then rows g user ms else 0)
        ≡ headcount g ms
  unfolding count_rows delete_rows
  headcount-delete [] = ground arith
  headcount-delete (m ∷ ms) = ground (arith, headcount-delete ms)

module _ (p : Member → Bool) where
  put_in_order-count :
      (m : Member) (ms : List Member) → count_rows p (put_in_order m ms) ≡ count_rows p (m ∷ ms)
  unfolding count_rows put_in_order
  put_in_order-count m [] = refl
  put_in_order-count m (n ∷ ns) = ground (arith, put_in_order-count m ns)

  pub in_order-count : (ms : List Member) → count_rows p (in_order ms) ≡ count_rows p ms
  unfolding count_rows in_order
  in_order-count [] = refl
  in_order-count (m ∷ ms) = ground (arith, in_order-count ms, put_in_order-count m (in_order ms))

-- The first other one is among the members, and is another; 0 stands for none.
pub first_other-count :
    (user : ℕ) (ms : List Member)
    → let found = first_other user ms in
      ((found ≡ 0) × (count_rows (λ m. not (m.user == user) && ltb 0 m.user) ms ≡ 0))
      ⊎ ((found ≡ 0) × (0 < count_rows (λ m. not (m.user == user) && not (ltb 0 m.user)) ms))
      ⊎ ((0 < found) × ((user == found) ≡ false) × (0 < count_rows (λ m. m.user == found) ms))
unfolding first_other count_rows
first_other-count user [] = ground arith
first_other-count user (m ∷ ms) = ground (arith, first_other-count user ms)

-- What concerns one group, read at another number.
pub at_group : (g group : ℕ) (f : ℕ → ℕ) → f group ≡ 1 → (if g == group then f g else 1) ≡ 1
at_group g group f h = elim (Bool-cases (g == group)) [
  | inl e ↦ rw e (subst (λ k. f k ≡ 1) (ground (arith, e)) h)
  | inr e ↦ rw e refl
]
