-- ===== src/Common/Dict.antt =====
-- Qt's QHash and QSet as association lists with distinct keys, over keys that an instance compares.
-- Qt leaves the order of iteration open; nothing below depends on the order of entries.
use Prim.Native.Nat.{ℕ, ◌≤◌}
use mathlib.Core.Path.{◌≡◌, refl}
use mathlib.Core.Logic.{◌↔◌}
use mathlib.Core.Bool.{Bool, true}
use mathlib.Core.List.{List, [], ◌∷◌}
use mathlib.Core.Option.{Option, none, some}
use native.Mathlib.Omega.{arith}
use xlchat_project.Common.Tests.{◌==◌, ==_iff, if◌then◌else◌}
use xlchat_project.Common.Lists.{length}
use xlchat_project.Common.Texts.{Text, text_eq, text_eq_iff}

pub record Eq {ℓ} (A : Type ℓ) : Type ℓ where
  pub beq : A → A → Bool
  pub beq_iff : (a b : A) → (beq a b ≡ true) ↔ (a ≡ b)

instance abbrev pub nat_eq : Eq ℕ
nat_eq = record { beq = ◌==◌; beq_iff = ==_iff }

instance abbrev pub text_eq_inst : Eq Text
text_eq_inst = record { beq = text_eq; beq_iff = text_eq_iff }

abbrev pub Dict {ℓ κ} : Type ℓ → Type κ → Type (ℓ ⊔ κ)
Dict K V = List (K × V)

pub beq_refl {ℓ} : {K : Type ℓ} ⦃e : Eq K⦄ (k : K) → e.beq k k ≡ true
beq_refl ⦃e⦄ k = (e.beq_iff k k).1 refl

module _ {ℓ κ} {K : Type ℓ} {V : Type κ} ⦃e : Eq K⦄ where
  unfoldable pub lookup : K → Dict K V → Option V
  lookup k [] = none
  lookup k ((j, v) ∷ m) = if e.beq j k then some v else lookup k m

  unfoldable pub remove : K → Dict K V → Dict K V
  remove k [] = []
  remove k ((j, v) ∷ m) = let rest = remove k m in if e.beq j k then rest else (j, v) ∷ rest

  -- An iterator loop that erases the entries which fail a test.
  unfoldable pub retain : (K → V → Bool) → Dict K V → Dict K V
  retain p [] = []
  retain p ((j, v) ∷ m) = let rest = retain p m in if p j v then (j, v) ∷ rest else rest

  unfoldable pub insert : K → V → Dict K V → Dict K V
  insert k v m = (k, v) ∷ remove k m

  pub lookup-remove :
      (k j : K) (m : Dict K V) → lookup j (remove k m) ≡ (if e.beq k j then none else lookup j m)
  unfolding lookup remove
  lookup-remove k j [] = ground arith
  lookup-remove k j ((i, v) ∷ m) =
      ground (arith, e.beq_iff i k, e.beq_iff i j, e.beq_iff k j, lookup-remove k j m)

  pub lookup-insert :
      (k j : K) (v : V) (m : Dict K V)
      → lookup j (insert k v m) ≡ (if e.beq k j then some v else lookup j m)
  unfolding lookup insert
  lookup-insert k j v m = ground (arith, lookup-remove k j m)

  -- An entry that the test keeps is still found; here nothing is said of shadowed entries.
  pub lookup-retain_keep :
      (p : K → V → Bool) (k : K) (v : V) (m : Dict K V)
      → lookup k m ≡ some v
      → p k v ≡ true
      → lookup k (retain p m) ≡ some v
  unfolding lookup retain
  lookup-retain_keep p k v [] h t = cc
  lookup-retain_keep p k v ((j, w) ∷ m) h t =
      ground (arith, e.beq_iff j k, lookup-retain_keep p k v m)

  pub length-retain : (p : K → V → Bool) (m : Dict K V) → length (retain p m) ≤ length m
  unfolding retain
  length-retain p [] = omega arith
  length-retain p ((j, v) ∷ m) = ground (arith, length-retain p m)

  pub length-remove : (k : K) (m : Dict K V) → length (remove k m) ≤ length m
  unfolding remove
  length-remove k [] = omega arith
  length-remove k ((j, v) ∷ m) = ground (arith, length-remove k m)

  -- The keys are distinct, as in a QHash.
  abbrev pub Distinct : Dict K V → Type κ
  Distinct [] = Unit
  Distinct ((k, v) ∷ m) = (lookup k m ≡ none) × Distinct m

  abbrev pub keep_if : (K → V → Bool) → K → Option V → Option V
  keep_if p k none = none
  keep_if p k (some v) = if p k v then some v else none

  pub lookup-retain-none :
      (p : K → V → Bool) (k : K) (m : Dict K V) → lookup k m ≡ none → lookup k (retain p m) ≡ none
  unfolding lookup retain
  lookup-retain-none p k [] h = refl
  lookup-retain-none p k ((j, v) ∷ m) h = ground (arith, lookup-retain-none p k m)

  pub lookup-retain :
      (p : K → V → Bool) (k : K) (m : Dict K V)
      → Distinct m
      → lookup k (retain p m) ≡ keep_if p k (lookup k m)
  unfolding lookup retain
  lookup-retain p k [] d = refl
  lookup-retain p k ((j, v) ∷ m) d =
      ground (arith, e.beq_iff j k, lookup-retain-none p k m, lookup-retain p k m d.1)

  pub retain-Distinct : (p : K → V → Bool) (m : Dict K V) → Distinct m → Distinct (retain p m)
  unfolding retain
  retain-Distinct p [] d = d
  retain-Distinct p ((k, v) ∷ m) d =
      ground (arith, lookup-retain-none p k m, retain-Distinct p m d.1)

  pub remove-Distinct : (k : K) (m : Dict K V) → Distinct m → Distinct (remove k m)
  unfolding remove
  remove-Distinct k [] d = d
  remove-Distinct k ((j, v) ∷ m) d =
      ground (arith, lookup-remove k j m, e.beq_iff k j, e.beq_iff j k, remove-Distinct k m d.1)

  pub insert-Distinct : (k : K) (v : V) (m : Dict K V) → Distinct m → Distinct (insert k v m)
  unfolding insert
  insert-Distinct k v m d = ground (arith, lookup-remove k k m, beq_refl k, remove-Distinct k m d)

  abbrev pub Keeps : (K → V → Bool) → Dict K V → Type 0
  Keeps p [] = Unit
  Keeps p ((k, v) ∷ m) = (p k v ≡ true) × Keeps p m

  -- Nothing is erased where the test keeps every entry.
  pub retain_all : (p : K → V → Bool) (m : Dict K V) → Keeps p m → retain p m ≡ m
  unfolding retain
  retain_all p [] h = refl
  retain_all p ((k, v) ∷ m) h = ground (arith, retain_all p m h.1)

  pub remove_absent : (k : K) (m : Dict K V) → lookup k m ≡ none → remove k m ≡ m
  unfolding lookup remove
  remove_absent k [] h = refl
  remove_absent k ((j, v) ∷ m) h = ground (arith, remove_absent k m)
