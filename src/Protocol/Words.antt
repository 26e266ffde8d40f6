-- ===== src/Protocol/Words.antt =====
-- QDataStream in big-endian order: quint16, quint32 and quint64 written to and read from bytes.
use xlchat_project.Common.{
  ℕ, ◌+◌, ◌*◌, ◌/◌, ◌%◌, ◌^◌, ◌≤◌, ◌≡◌, List, [], ◌∷◌, ◌++◌, arith, length, drop, refl, length-drop,
  drop-append_le,
}

unfoldable pub put16 : ℕ → List ℕ
put16 x = x / 256 % 256 ∷ x % 256 ∷ []

unfoldable pub put32 : ℕ → List ℕ
unfolding put16
put32 x = put16 (x / 2 ^ 16) ++ put16 (x % 2 ^ 16)

unfoldable pub put64 : ℕ → List ℕ
unfolding put32
put64 x = put32 (x / 2 ^ 32) ++ put32 (x % 2 ^ 32)

-- A read past the end yields 0; the decoder reads only from a whole header.
unfoldable pub get16 : List ℕ → ℕ
get16 (a ∷ b ∷ bs) = a * 256 + b
get16 _ = 0

unfoldable pub get32 : List ℕ → ℕ
unfolding get16
get32 bs = get16 bs * 2 ^ 16 + get16 (drop 2 bs)

unfoldable pub get64 : List ℕ → ℕ
unfolding get32
get64 bs = get32 bs * 2 ^ 32 + get32 (drop 4 bs)

-- A read looks at its own bytes only.
pub get16-append : (bs more : List ℕ) → 2 ≤ length bs → get16 (bs ++ more) ≡ get16 bs
unfolding get16
get16-append [] more h = absurd (omega arith)
get16-append (a ∷ []) more h = absurd (omega arith)
get16-append (a ∷ b ∷ bs) more h = refl

-- The same behind an offset.
pub get16-drop-append :
    (n : ℕ) (bs more : List ℕ) → n + 2 ≤ length bs → get16 (drop n (bs ++ more)) ≡ get16 (drop n bs)
get16-drop-append n bs more h =
    rw (drop-append_le n bs more (omega arith))
      (get16-append (drop n bs) more (omega (arith, length-drop n bs)))

pub get32-drop-append :
    (n : ℕ) (bs more : List ℕ) → n + 4 ≤ length bs → get32 (drop n (bs ++ more)) ≡ get32 (drop n bs)
unfolding get32
get32-drop-append n bs more h = rw (drop-append_le n bs more (omega arith)) (
    rw (get16-append (drop n bs) more (omega (arith, length-drop n bs)))
      (rw (get16-drop-append 2 (drop n bs) more (omega (arith, length-drop n bs)))))

pub get64-drop-append :
    (n : ℕ) (bs more : List ℕ) → n + 8 ≤ length bs → get64 (drop n (bs ++ more)) ≡ get64 (drop n bs)
unfolding get64
get64-drop-append n bs more h = rw (drop-append_le n bs more (omega arith)) (
    rw (get32-drop-append 0 (drop n bs) more (omega (arith, length-drop n bs)))
      (rw (get32-drop-append 4 (drop n bs) more (omega (arith, length-drop n bs)))))
