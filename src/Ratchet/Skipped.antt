-- ===== src/Ratchet/Skipped.antt =====
-- A QMap from iterations to message keys: an association list whose keys ascend.
use xlchat_project.Common.{
  ℕ, ◌<◌, ◌≤◌, ◌+◌, ◌≡◌, refl, none, some, [], ◌∷◌, ltb, ◌==◌, length, arith, if◌then◌else◌,
}
use xlchat_project.Common.Dict.{Dict, nat_eq, lookup, remove}

module _ {ℓ} {V : Type ℓ} where
  unfoldable pub put : ℕ → V → Dict ℕ V → Dict ℕ V
  put k v [] = (k, v) ∷ []
  put k v ((j, w) ∷ m) =
      let rest = put k v m in
      if ltb k j then (k, v) ∷ (j, w) ∷ m else if k == j then (k, v) ∷ m else (j, w) ∷ rest

  unfoldable pub put_all : Dict ℕ V → Dict ℕ V → Dict ℕ V
  put_all [] m = m
  put_all ((k, v) ∷ rest) m = put_all rest (put k v m)

  -- The smallest iterations go while more than 1000 are kept.
  unfoldable pub trim_skipped : Dict ℕ V → Dict ℕ V
  trim_skipped [] = []
  trim_skipped ((k, v) ∷ m) =
      let rest = trim_skipped m in if ltb 1000 (length ((k, v) ∷ m)) then rest else (k, v) ∷ m

  -- The keys ascend, and lie above `low` and below `high`.
  abbrev pub Between : ℕ → ℕ → Dict ℕ V → Type 0
  Between low high [] = Unit
  Between low high ((k, v) ∷ m) = (low < k) × (k < high) × Between k high m

  pub lookup-put :
      (k j : ℕ) (v : V) (m : Dict ℕ V)
      → lookup j (put k v m) ≡ (if k == j then some v else lookup j m)
  unfolding put lookup
  lookup-put k j v [] = ground arith
  lookup-put k j v ((i, w) ∷ m) = ground (arith, lookup-put k j v m)

  pub Between-weaken :
      (low low' high high' : ℕ) (m : Dict ℕ V)
      → low' ≤ low
      → high ≤ high'
      → Between low high m
      → Between low' high' m
  Between-weaken low low' high high' [] l h b = tt
  Between-weaken low low' high high' ((k, v) ∷ m) l h b =
      (omega arith, omega arith, Between-weaken k k high high' m (omega arith) h b.2)

  pub put-Between :
      (low high k : ℕ) (v : V) (m : Dict ℕ V)
      → low < k
      → k < high
      → Between low high m
      → Between low high (put k v m)
  unfolding put
  put-Between low high k v [] l h b = (l, h, tt)
  put-Between low high k v ((j, w) ∷ m) l h b = ground (
    arith,
    (λ (p : j < k). put-Between j high k v m p h b.2),
    (λ (p : j ≡ k). Between-weaken j k high high m),
  )

  pub put_all-Between :
      (low high : ℕ) (ps m : Dict ℕ V)
      → Between low high ps
      → Between low high m
      → Between low high (put_all ps m)
  unfolding put_all
  put_all-Between low high [] m p b = b
  put_all-Between low high ((k, v) ∷ ps) m p b =
      put_all-Between low high ps (put k v m)
        (Between-weaken k low high high ps (omega arith) (omega arith) p.2)
        (put-Between low high k v m p.0 p.1 b)

  pub remove-Between :
      (low high k : ℕ) (m : Dict ℕ V) → Between low high m → Between low high (remove k m)
  unfolding remove
  remove-Between low high k [] b = tt
  remove-Between low high k ((j, w) ∷ m) b = ground (
    arith,
    remove-Between j high k m b.2,
    Between-weaken j low high high (remove k m) (omega arith) (omega arith)
        (remove-Between j high k m b.2),
  )

  pub trim_skipped-Between :
      (low high : ℕ) (m : Dict ℕ V) → Between low high m → Between low high (trim_skipped m)
  unfolding trim_skipped
  trim_skipped-Between low high [] b = tt
  trim_skipped-Between low high ((k, v) ∷ m) b =
      ground
        (arith, Between-weaken k low high high (trim_skipped m), trim_skipped-Between k high m b.2)

  pub length-trim_skipped : (m : Dict ℕ V) → length (trim_skipped m) ≤ 1000
  unfolding trim_skipped
  length-trim_skipped [] = omega arith
  length-trim_skipped ((k, v) ∷ m) = ground (arith, length-trim_skipped m)

  pub trim_short : (m : Dict ℕ V) → length m ≤ 1000 → trim_skipped m ≡ m
  unfolding trim_skipped
  trim_short [] h = refl
  trim_short ((k, v) ∷ m) h = ground arith

  -- There are no more keys than numbers between the bounds.
  pub length-Between :
      (low high : ℕ) (m : Dict ℕ V) → low < high → Between low high m → low + length m < high
  length-Between low high [] h b = omega arith
  length-Between low high ((k, v) ∷ m) h b = omega (arith, length-Between k high m b.1 b.2)

  pub lookup-Between_low :
      (low high j : ℕ) (m : Dict ℕ V) → Between low high m → j ≤ low → lookup j m ≡ none
  unfolding lookup
  lookup-Between_low low high j [] b h = refl
  lookup-Between_low low high j ((k, v) ∷ m) b h = ground (arith, lookup-Between_low k high j m b.2)

  pub lookup-Between :
      (low high j : ℕ) (v : V) (m : Dict ℕ V)
      → Between low high m
      → lookup j m ≡ some v
      → (low < j) × (j < high)
  unfolding lookup
  lookup-Between low high j v [] b h = absurd cc
  lookup-Between low high j v ((k, w) ∷ m) b h = ground (arith, lookup-Between k high j v m b.2)

  -- What is found after trimming was found before.
  pub lookup-trim_skipped :
      (low high j : ℕ) (v : V) (m : Dict ℕ V)
      → Between low high m
      → lookup j (trim_skipped m) ≡ some v
      → lookup j m ≡ some v
  unfolding lookup trim_skipped
  lookup-trim_skipped low high j v [] b h = h
  lookup-trim_skipped low high j v ((k, w) ∷ m) b h =
      ground (arith, lookup-trim_skipped k high j v m b.2, lookup-Between k high j v m b.2)

  lookup-put_all_low :
      (low high j : ℕ) (ps m : Dict ℕ V)
      → Between low high ps
      → j ≤ low
      → lookup j (put_all ps m) ≡ lookup j m
  unfolding put_all lookup
  lookup-put_all_low low high j [] m b h = refl
  lookup-put_all_low low high j ((k, v) ∷ ps) m b h =
      ground (arith, lookup-put_all_low k high j ps (put k v m) b.2, lookup-put k j v m)

  -- An iteration is found in the joined map where it is found among the new keys, or else in the old.
  pub lookup-put_all :
      (low high j : ℕ) (ps m : Dict ℕ V)
      → Between low high ps
      → lookup j (put_all ps m) ≡ elim (lookup j ps) [ none ↦ lookup j m | some v ↦ some v ]
  unfolding put_all lookup
  lookup-put_all low high j [] m b = refl
  lookup-put_all low high j ((k, v) ∷ ps) m b = ground (
    arith,
    lookup-put_all k high j ps (put k v m) b.2,
    lookup-put_all_low k high j ps (put k v m) b.2,
    lookup-put k j v m,
  )

  pub lookup-trim_skipped-none :
      (low high j : ℕ) (m : Dict ℕ V)
      → Between low high m
      → lookup j m ≡ none
      → lookup j (trim_skipped m) ≡ none
  unfolding lookup trim_skipped
  lookup-trim_skipped-none low high j [] b h = h
  lookup-trim_skipped-none low high j ((k, w) ∷ m) b h =
      ground (arith, lookup-trim_skipped-none k high j m b.2)

  pub lookup-Between_high :
      (low high j : ℕ) (m : Dict ℕ V) → Between low high m → high ≤ j → lookup j m ≡ none
  unfolding lookup
  lookup-Between_high low high j [] b h = refl
  lookup-Between_high low high j ((k, v) ∷ m) b h =
      ground (arith, lookup-Between_high k high j m b.2)
