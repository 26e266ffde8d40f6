-- ===== src/RateWindow/Tests.antt =====
-- The window for search requests: 20 calls in 60 seconds, here with a limit of 2 in 10.
use xlchat_project.Common.{◌+◌, ◌*◌, ◌≤◌, true, [], ◌∷◌, arith}
use xlchat_project.RateWindow.{RateWindow, allowed}
use xlchat_project.RateWindow.Laws.{IsValid, allowed-span}

abbrev running : RateWindow
running = record {
  max_count = 2;
  window_seconds = 10;
  window_start = 100;
  count = 1;
  initialized = true;
}

abbrev full : RateWindow
full = record {
  max_count = 2;
  window_seconds = 10;
  window_start = 100;
  count = 2;
  initialized = true;
}

running-IsValid : IsValid running
running-IsValid = record { bounded = omega arith; fresh = λ e. cc }

allowed-span_example : allowed running (105 ∷ 106 ∷ 112 ∷ 113 ∷ []) + 1 ≤ 2 * 2
allowed-span_example = allowed-span running 105 (105 ∷ 106 ∷ 112 ∷ 113 ∷ []) running-IsValid (
  (omega arith, omega arith),
  ((omega arith, omega arith), ((omega arith, omega arith), ((omega arith, omega arith), tt))),
)
