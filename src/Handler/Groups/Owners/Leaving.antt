-- ===== src/Handler/Groups/Owners/Leaving.antt =====
-- The rows of a group when its owner hands it over, and when a member leaves.
use xlchat_project.Common.{
  ℕ, ◌+◌, ◌≤◌, ◌<◌, ◌≡◌, ◌⊎◌, false, not, ◌&&◌, ◌||◌, List, [], ◌∷◌, ◌==◌, ltb, if◌then◌else◌,
  select, count_rows, update_rows, delete_rows, arith,
}
use xlchat_project.Database.{User, owner, Member}
use xlchat_project.Database.Groups.{is_in, is_member_row, in_order}
use xlchat_project.Database.Groups.Membership.{is_owner}
use xlchat_project.Handler.Groups.{first_other}
use xlchat_project.Handler.Groups.Owners.{
  owners, headcount, rows, owning, is_known, strays, Led, owners-delete, headcount-delete,
  in_order-count, first_other-count,
}

module _ (g group user : ℕ) (users : List User) where
  delete-tidy :
      (u : ℕ) (ms : List Member)
      → let left = delete_rows (is_member_row group user) ms in
        (rows g u left ≤ rows g u ms)
        × (strays g users left ≤ strays g users ms)
        × (headcount g left ≤ headcount g ms)
  unfolding count_rows delete_rows
  delete-tidy u [] = ground arith
  delete-tidy u (m ∷ ms) = ground (arith, delete-tidy u ms)

  update-tidy :
      (u : ℕ) (ms : List Member)
      → let made = update_rows (is_member_row group user) (λ m. record m { role = owner }) ms in
        (rows g u made ≡ rows g u ms)
        × (strays g users made ≡ strays g users ms)
        × (headcount g made ≡ headcount g ms)
  unfolding count_rows update_rows
  update-tidy u [] = ground arith
  update-tidy u (m ∷ ms) = ground (arith, update-tidy u ms)

  -- Once the owners are counted, the rest follows.
  Led-delete :
      (ms : List Member)
      → Led g users ms
      → let left = delete_rows (is_member_row group user) ms in
        (owners g left ≡ 1) ⊎ (headcount g left ≡ 0) → Led g users left
  Led-delete ms h o = record {
    led = o;
    unique = λ u. omega (arith, delete-tidy u ms, h.unique u);
    known = omega (arith, delete-tidy 0 ms, h.known);
  }

  -- One leaves that does not own the group, or one leaves another group.
  pub Led-leave :
      (ms : List Member)
      → Led g users ms
      → (if g == group then owning g user ms else 0) ≡ 0
      → Led g users (delete_rows (is_member_row group user) ms)
  Led-leave ms h o =
      Led-delete ms h (ground (arith, h.led, owners-delete g group user ms, o, delete-tidy 0 ms))

  -- The last one leaves, or one leaves another group.
  pub Led-last :
      (ms : List Member)
      → Led g users ms
      → (if g == group then headcount g ms else 0) ≤ rows g user ms
      → Led g users (delete_rows (is_member_row group user) ms)
  Led-last ms h o = Led-delete ms h (
      ground (
        arith,
        h.led,
        owners-delete g group user ms,
        headcount-delete g group user ms,
        o,
        delete-tidy 0 ms,
      ))

-- The rows of the group, and of others, that the two changes leave as they are.
abbrev third : ℕ → ℕ → ℕ → ℕ → List Member → ℕ
third g group user heir ms =
    count_rows
      (λ m.
        (is_in g m && is_owner m.role)
        && not (is_member_row group user m || is_member_row group heir m))
      ms

module _ (g group user heir : ℕ) (apart : (user == heir) ≡ false) where
  abbrev handed : List Member → List Member
  handed ms =
      delete_rows (is_member_row group user)
        (update_rows (is_member_row group heir) (λ m. record m { role = owner }) ms)

  owners-handed :
      (ms : List Member)
      → (owners g (handed ms)
          ≡ third g group user heir ms + (if g == group then rows g heir ms else 0))
        × (third g group user heir ms
              + (if g == group then owning g user ms + owning g heir ms else 0)
            ≡ owners g ms)
  unfolding count_rows delete_rows update_rows is_owner
  owners-handed [] = ground arith
  owners-handed (m ∷ ms) = ground (arith, owners-handed ms, apart)

  -- The heir is a member and the user the owner, or the group is another one.
  pub Led-handed :
      (users : List User) (ms : List Member)
      → Led g users ms
      → (if g == group then owning g user ms else 1) ≡ 1
      → (if g == group then rows g heir ms else 1) ≡ 1
      → Led g users (handed ms)
  Led-handed users ms h o r =
      let made = update_rows (is_member_row group heir) (λ m. record m { role = owner }) ms in
      record {
        led = ground (
          arith,
          h.led,
          owners-handed ms,
          o,
          r,
          delete-tidy g group user users 0 made,
          update-tidy g group heir users 0 ms,
          headcount-delete g group user made,
        );
        unique = λ u. omega (
          arith,
          delete-tidy g group user users u made,
          update-tidy g group heir users u ms,
          h.unique u,
        );
        known = omega (
          arith,
          delete-tidy g group user users 0 made,
          update-tidy g group heir users 0 ms,
          h.known,
        );
      }

module _ (users : List User) (group : ℕ) where
  abbrev listed : List Member → List Member
  listed ms = select (λ m. is_in group m && is_known users m) ms

  listed-count :
      (user found : ℕ) (ms : List Member)
      → (count_rows (λ m. m.user == found) (listed ms) ≤ rows group found ms)
        × (count_rows (λ m. not (m.user == user) && not (ltb 0 m.user)) (listed ms)
            ≤ strays group users ms)
        × (headcount group ms
            ≤ (rows group user ms + strays group users ms)
              + count_rows (λ m. not (m.user == user) && ltb 0 m.user) (listed ms))
  unfolding count_rows select
  listed-count user found [] = ground arith
  listed-count user found (m ∷ ms) = ground (arith, listed-count user found ms)

  -- The first other member is one, or the user is alone in the group.
  pub successor_found :
      (user : ℕ) (ms : List Member)
      → strays group users ms ≡ 0
      → let found = first_other user (in_order (listed ms)) in
        ((found ≡ 0) × (headcount group ms ≤ rows group user ms))
        ⊎ ((0 < found) × ((user == found) ≡ false) × (0 < rows group found ms))
  successor_found user ms h =
      let found = first_other user (in_order (listed ms)) in
      ground (
        arith,
        first_other-count user (in_order (listed ms)),
        in_order-count (λ m. not (m.user == user) && ltb 0 m.user) (listed ms),
        in_order-count (λ m. not (m.user == user) && not (ltb 0 m.user)) (listed ms),
        in_order-count (λ m. m.user == found) (listed ms),
        listed-count user found ms,
      )
