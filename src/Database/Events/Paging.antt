-- ===== src/Database/Events/Paging.antt =====
-- Reading the event stream page by page.
use xlchat_project.Common.{
  ℕ, zero, suc, ◌≤◌, ◌<◌, ◌≡◌, refl, ap, List, [], ◌∷◌, ◌++◌, arith, take, select, length, sym, ◌∙◌,
}
use xlchat_project.Database.{Event}
use xlchat_project.Database.Events.{is_due}
use xlchat_project.Database.Events.Pruning.{Ascends}

-- events.isEmpty() ? afterSeq : events.last().seq
unfoldable pub last_seq : ℕ → List Event → ℕ
last_seq after [] = after
last_seq after (e ∷ es) = last_seq e.seq es

-- Everything above `lo` is due from `lo` on just as from any earlier cursor.
due_above :
    (user after lo hi : ℕ) (es : List Event)
    → Ascends lo es hi
    → after ≤ lo
    → select (is_due user after) es ≡ select (is_due user lo) es
unfolding select
due_above user after lo hi [] a h = refl
due_above user after lo hi (e ∷ es) a h =
    ground (arith, due_above user after e.seq hi es a.1, due_above user lo e.seq hi es a.1)

pub last_seq-ge :
    (user after lo hi n : ℕ) (es : List Event)
    → Ascends lo es hi
    → after ≤ last_seq after (take n (select (is_due user after) es))
unfolding select last_seq
last_seq-ge user after lo hi zero es a = omega arith
last_seq-ge user after lo hi (suc n) [] a = omega arith
last_seq-ge user after lo hi (suc n) (e ∷ es) a = ground (
  arith,
  last_seq-ge user after e.seq hi (suc n) es a.1,
  last_seq-ge user e.seq e.seq hi n es a.1,
  due_above user after e.seq hi es a.1,
)

-- A page, and what is due behind its last event, together are what was due.
pub page-rest :
    (user after lo hi n : ℕ) (es : List Event)
    → Ascends lo es hi
    → let page = take n (select (is_due user after) es) in
      page ++ select (is_due user (last_seq after page)) es ≡ select (is_due user after) es
unfolding select last_seq
page-rest user after lo hi zero es a = refl
page-rest user after lo hi (suc n) [] a = refl
page-rest user after lo hi (suc n) (e ∷ es) a = ground (
  arith,
  page-rest user after e.seq hi (suc n) es a.1,
  last_seq-ge user after e.seq hi (suc n) es a.1,
  last_seq-ge user e.seq e.seq hi n es a.1,
  page-rest user e.seq e.seq hi n es a.1,
  due_above user after e.seq hi es a.1,
)

take_short : (n : ℕ) (es : List Event) → length (take n es) < n → take n es ≡ es
take_short zero es h = elim h [ ]
take_short (suc n) [] h = refl
take_short (suc n) (e ∷ es) h = ap (◌∷◌ e) (take_short n es (omega arith))

-- A page that is not full is the last one: nothing is due behind it.
pub short_page :
    (user after lo hi n : ℕ) (es : List Event)
    → Ascends lo es hi
    → let page = take n (select (is_due user after) es) in
      length page < n → select (is_due user (last_seq after page)) es ≡ []
short_page user after lo hi n es a h =
    append_nothing _ _ (page-rest user after lo hi n es a ∙ sym (take_short n _ h))
  where
    append_nothing : (xs ys : List Event) → xs ++ ys ≡ xs → ys ≡ []
    append_nothing [] ys e = e
    append_nothing (x ∷ xs) ys e = append_nothing xs ys (ground (arith, e))
