-- ===== src/RateWindow/Laws.antt =====
-- RateWindow: what the limit promises.
use xlchat_project.Common.{
  ℕ, ◌+◌, ◌*◌, ◌≤◌, ◌<◌, ◌≡◌, true, false, List, [], ◌∷◌, arith, All, ◌⊎◌, inl, inr, if◌then◌else◌,
  subst, sym,
}
use xlchat_project.RateWindow.{RateWindow, create, allow, allowed}

pub record IsValid (w : RateWindow) : Type 0 where
  pub bounded : w.count ≤ w.max_count
  pub fresh : w.initialized ≡ false → w.count ≡ 0

pub create-IsValid : (m s : ℕ) → IsValid (create m s)
unfolding create
create-IsValid m s = ground arith

pub allow-IsValid : (w : RateWindow) (now : ℕ) → IsValid w → IsValid (allow w now).0
unfolding allow
allow-IsValid w now v = ground arith

-- With a limit above 0 a refused call changes no count and does not move the start of a running
-- window: hammering does not push the window ahead of the caller.
pub allow_refused :
    (w : RateWindow) (now : ℕ)
    → 0 < w.max_count
    → (allow w now).1 ≡ false
    → ((allow w now).0 ≡ w) × (w.max_count ≤ w.count) × (now < w.window_start + w.window_seconds)
unfolding allow
allow_refused w now pos h = ground arith

-- What `allow` does inside a running window, and on one that has run out.
allow_running :
    (w : RateWindow) (now : ℕ)
    → IsValid w
    → w.initialized ≡ true
    → now < w.window_start + w.window_seconds
    → let r = (allow w now).0 in
      IsValid r
      × (r.initialized ≡ true)
      × (r.window_start ≡ w.window_start)
      × (r.window_seconds ≡ w.window_seconds)
      × (r.max_count ≡ w.max_count)
      × (r.count ≡ w.count + (if (allow w now).1 then 1 else 0))
unfolding allow
allow_running w now v i h =
    (allow-IsValid w now v, ground arith, ground arith, ground arith, ground arith, ground arith)

-- Whatever times the calls come at, while a valid window runs at most the room left in it is let
-- through.
pub allowed-window :
    (w : RateWindow) (ts : List ℕ)
    → IsValid w
    → w.initialized ≡ true
    → All (λ t. t < w.window_start + w.window_seconds) ts
    → allowed w ts + w.count ≤ w.max_count
unfolding allowed
allowed-window w [] v i h = omega (arith, v.bounded)
allowed-window w (t ∷ ts) v i (ht, hts) =
    let k = allow_running w t v i ht in
    let same : (allow w t).0.window_start + (allow w t).0.window_seconds
        ≡ w.window_start + w.window_seconds =
      omega (arith, k.2, k.3) in
    omega (
      arith,
      allowed-window (allow w t).0 ts k.0 k.1 (subst (λ m. All (λ u. u < m) ts) (sym same) hts),
      k.4,
      k.5,
    )

-- A call that starts a window leaves one that is running from that moment.
allow_rolled :
    (w : RateWindow) (now : ℕ)
    → IsValid w
    → ((allow w now).0.window_start ≡ now)
        × ((allow w now).0.initialized ≡ true)
        × ((allow w now).0.count ≡ (if (allow w now).1 then 1 else 0))
      ⊎ ((w.initialized ≡ true) × (now < w.window_start + w.window_seconds))
unfolding allow
allow_rolled w now v = ground arith

allow_keeps :
    (w : RateWindow) (now : ℕ)
    → ((allow w now).0.window_seconds ≡ w.window_seconds)
      × ((allow w now).0.max_count ≡ w.max_count)
unfolding allow
allow_keeps w now = ground arith

All-map {ℓ κ} :
    {A : Type 0} (P : A → Type ℓ) (Q : A → Type κ) (xs : List A)
    → ((x : A) → P x → Q x)
    → All P xs
    → All Q xs
All-map P Q [] f h = tt
All-map P Q (x ∷ xs) f h = (f x h.0, All-map P Q xs f h.1)

-- From a valid window on, in any span of time as long as a window at most twice the limit is let
-- through, however the calls fall into windows.
pub allowed-span :
    (w : RateWindow) (from : ℕ) (ts : List ℕ)
    → IsValid w
    → All (λ t. (from ≤ t) × (t < from + w.window_seconds)) ts
    → allowed w ts + w.count ≤ 2 * w.max_count
unfolding allowed
allowed-span w from [] v h = omega (arith, v.bounded)
allowed-span w from (t ∷ ts) v (ht, hts) = elim (allow_rolled w t v) [
  | inl (start, i, c) ↦ omega (
    arith,
    k.0,
    k.1,
    c,
    v.bounded,
    allowed-window (allow w t).0 ts (allow-IsValid w t v) i
        (All-map _ _ ts (λ u hu. omega (arith, start, k.0, hu, ht)) hts),
  )
  | inr (i, run) ↦
      let r = allow_running w t v i run in
      omega (
        arith,
        r.4,
        r.5,
        allowed-span (allow w t).0 from ts r.0
            (subst (λ m. All (λ u. (from ≤ u) × (u < from + m)) ts) (sym k.0) hts),
      )
]
  where
    k : ((allow w t).0.window_seconds ≡ w.window_seconds) × ((allow w t).0.max_count ≡ w.max_count)
    k = allow_keeps w t
