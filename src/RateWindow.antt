-- ===== src/RateWindow.antt =====
-- Chat-Server/core/RateWindow.h: a fixed-window counter on one connection.
pub mod Laws
mod Tests
use xlchat_project.Common.{
  ℕ, ◌+◌, ◌≡◌, Bool, true, false, List, [], ◌∷◌, leb, if◌then◌else◌, ◌||◌, not,
}

-- `m_windowStart` is a Unix time in seconds; `nowSecs - m_windowStart >= m_windowSeconds` over
-- qint64 is written with the start on the other side, since times are natural numbers here.
pub record RateWindow : Type 0 where
  pub max_count : ℕ
  pub window_seconds : ℕ
  pub window_start : ℕ
  pub count : ℕ
  pub initialized : Bool

unfoldable pub create : ℕ → ℕ → RateWindow
create max_count window_seconds = record {
  max_count = max_count;
  window_seconds = window_seconds;
  window_start = 0;
  count = 0;
  initialized = false;
}

-- The first half of `allow`: a window that has run out starts again.
unfoldable pub roll : RateWindow → ℕ → RateWindow
roll w now =
    if not w.initialized || leb (w.window_start + w.window_seconds) now
    then record w { window_start = now; count = 0; initialized = true }
    else w

unfoldable pub allow : RateWindow → ℕ → RateWindow × Bool
unfolding roll
allow w now =
    let r = roll w now in
    if leb r.max_count r.count then (r, false) else (record r { count = r.count + 1 }, true)

unfoldable pub reset : RateWindow → RateWindow
reset w = record w { window_start = 0; count = 0; initialized = false }

-- How many calls at the given times are let through.
unfoldable pub allowed : RateWindow → List ℕ → ℕ
allowed w [] = 0
allowed w (t ∷ ts) = (if (allow w t).1 then 1 else 0) + allowed (allow w t).0 ts
