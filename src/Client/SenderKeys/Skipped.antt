-- ===== src/Client/SenderKeys/Skipped.antt =====
-- The skipped keys as a JSON object: what the writing loop makes of them, the reading loop reads.
use xlchat_project.Common.{
  ℕ, ◌<◌, ◌≡◌, ◌⊎◌, inl, inr, refl, sym, ap, subst, ◌∙◌, pos, false, Option, none, some, Bool-cases,
  [], ◌∷◌, Text, text_eq, text_eq_iff, is_empty, arith,
}
use xlchat_project.Common.Dict.{
  Dict, nat_eq, text_eq_inst, lookup, insert, lookup-insert, Distinct, insert-Distinct,
}
use xlchat_project.Ratchet.{Bytes}
use xlchat_project.Ratchet.Skipped.{
  put, lookup-put, Between, put-Between, lookup-Between, lookup-Between_low,
}
use xlchat_project.Client.SenderKeys.{Formats, object_of, take_entry, read_entries}

-- What the program relies on of Base64, of printed numbers, which are those of an `int`, and of JSON
-- objects: each is read back as it was written.
pub record Reads (f : Formats) : Type 0 where
  pub bytes : (b : Bytes) → f.decode64 (f.encode64 b) ≡ b
  pub filled : (b : Bytes) → is_empty b ≡ false → is_empty (f.encode64 b) ≡ false
  pub ints : (n : ℕ) → n < 2147483648 → f.to_int (f.number n) ≡ some (pos n)
  pub apart : (m n : ℕ) → f.number m ≡ f.number n → m ≡ n
  pub entries :
      (o : Dict Text Text) (t : Text)
      → Distinct o
      → lookup t (f.read_object (f.write_object o)) ≡ lookup t o
  pub distinct : (t : Text) → Distinct (f.read_object t)
  pub object : (o : Dict Text Text) → is_empty (f.write_object o) ≡ false

-- The keys that the ratchet skips: of positive iterations, and none empty.
pub record IsStorable (d : Dict ℕ Bytes) : Type 0 where
  pub between : Between 0 2147483648 d
  pub filled : (j : ℕ) (k : Bytes) → lookup j d ≡ some k → is_empty k ≡ false

not_none : (v : Bytes) → none ≡ some v → ⊥
not_none v e = cc

heads :
    (low high k j : ℕ) (v w : Bytes) (a b : Dict ℕ Bytes)
    → Between low high ((k, v) ∷ a)
    → Between low high ((j, w) ∷ b)
    → lookup k ((j, w) ∷ b) ≡ some v
    → lookup j ((k, v) ∷ a) ≡ some w
    → (k ≡ j) × (v ≡ w)
unfolding lookup
heads low high k j v w a b p q e h =
    ground (arith, e, h, lookup-Between_low j high k b q.2, lookup-Between_low k high j a p.2)

-- Maps whose keys ascend are equal where they agree on every key.
pub same_lookups :
    (low high : ℕ) (a b : Dict ℕ Bytes)
    → Between low high a
    → Between low high b
    → ((j : ℕ) → lookup j a ≡ lookup j b)
    → a ≡ b
unfolding lookup
same_lookups low high [] [] p q h = refl
same_lookups low high [] ((j, w) ∷ b) p q h = absurd (not_none w (h j ∙ ground arith))
same_lookups low high ((k, v) ∷ a) [] p q h = absurd (not_none v (sym (h k) ∙ ground arith))
same_lookups low high ((k, v) ∷ a) ((j, w) ∷ b) p q h =
    let e = heads low high k j v w a b p q (sym (h k) ∙ ground arith) (h j ∙ ground arith) in
    let q' : Between k high b = subst (λ (n : ℕ). Between n high b) (sym e.0) q.2 in
    let rest = same_lookups k high a b p.2 q' (λ i.
      ground
        (arith, h i, e.0, lookup-Between_low k high i a p.2, lookup-Between_low k high i b q')) in
    ground (arith, e, rest)

module _ (f : Formats) (r : Reads f) where
  -- An entry of the object is one of the keys, or was there before.
  pub entry_of :
      (low high : ℕ) (d : Dict ℕ Bytes) (o : Dict Text Text) (t u : Text)
      → Between low high d
      → lookup t (object_of f d o) ≡ some u
      → ((j : ℕ) × (v : Bytes) × (lookup j d ≡ some v) × (t ≡ f.number j) × (u ≡ f.encode64 v))
        ⊎ (lookup t o ≡ some u)
  unfolding object_of lookup
  entry_of low high [] o t u b e = inr e
  entry_of low high ((k, v) ∷ d) o t u b e =
      elim (entry_of k high d (insert (f.number k) (f.encode64 v) o) t u b.2 e) [
        | inl (j, w, x, y, z) ↦ inl (j, w, ground (arith, x, lookup-Between k high j w d b.2), y, z)
        | inr x ↦ elim (Bool-cases (text_eq (f.number k) t)) [
          | inl same ↦ inl (
            k,
            v,
            ground arith,
            sym ((text_eq_iff (f.number k) t).0 same),
            ground (arith, x, same, lookup-insert (f.number k) t (f.encode64 v) o),
          )
          | inr other ↦
              inr (ground (arith, x, other, lookup-insert (f.number k) t (f.encode64 v) o))
        ]
      ]

  key_found :
      (low high j : ℕ) (d : Dict ℕ Bytes) (o : Dict Text Text)
      → Between low high d
      → lookup (f.number j) (object_of f d o)
        ≡ elim (lookup j d) [ none ↦ lookup (f.number j) o | some v ↦ some (f.encode64 v) ]
  unfolding object_of lookup
  key_found low high j [] o b = refl
  key_found low high j ((k, v) ∷ d) o b = ground (
    arith,
    key_found k high j d (insert (f.number k) (f.encode64 v) o) b.2,
    lookup-insert (f.number k) (f.number j) (f.encode64 v) o,
    text_eq_iff (f.number k) (f.number j),
    r.apart k j,
    lookup-Between_low k high j d b.2,
  )

  object_of-Distinct :
      (d : Dict ℕ Bytes) (o : Dict Text Text) → Distinct o → Distinct (object_of f d o)
  unfolding object_of
  object_of-Distinct [] o h = h
  object_of-Distinct ((k, v) ∷ d) o h =
      object_of-Distinct d (insert (f.number k) (f.encode64 v) o)
        (insert-Distinct (f.number k) (f.encode64 v) o h)

  -- A turn of the reading loop takes the entry of a key.
  taken :
      (j : ℕ) (v : Bytes) (m : Dict ℕ Bytes)
      → 0 < j
      → j < 2147483648
      → is_empty v ≡ false
      → take_entry f (f.number j) (f.encode64 v) m ≡ put j v m
  unfolding take_entry
  taken j v m l h n = ground (arith, r.ints j, r.bytes v)

  module _ (d : Dict ℕ Bytes) (s : IsStorable d) where
    -- Every entry is that of a key.
    abbrev Entries : Dict Text Text → Type 0
    Entries es =
        (t u : Text)
        → lookup t es ≡ some u
        → (j : ℕ) × (v : Bytes) × (lookup j d ≡ some v) × (t ≡ f.number j) × (u ≡ f.encode64 v)

    Entries-tail :
        (t u : Text) (es : Dict Text Text)
        → Distinct ((t, u) ∷ es)
        → Entries ((t, u) ∷ es)
        → Entries es
    unfolding lookup
    Entries-tail t u es n h t' u' e = h t' u' (ground (arith, e, n.0, text_eq_iff t t'))

    Entries-head :
        (t u : Text) (es : Dict Text Text)
        → Entries ((t, u) ∷ es)
        → (m : Dict ℕ Bytes)
        → (j : ℕ) × (v : Bytes) × (lookup j d ≡ some v)
          × (t ≡ f.number j)
          × (take_entry f t u m ≡ put j v m)
          × (0 < j)
          × (j < 2147483648)
    unfolding lookup
    Entries-head t u es h m =
        let (j, v, e, x, y) = h t u (ground (arith, (text_eq_iff t t).1 refl)) in
        let b = lookup-Between 0 2147483648 j v d s.between e in
        (
          j,
          v,
          e,
          x,
          ap (λ z. take_entry f z u m) x
              ∙ ap (λ z. take_entry f (f.number j) z m) y
              ∙ taken j v m b.0 b.1 (s.filled j v e),
          b.0,
          b.1,
        )

    read_found :
        (j : ℕ) (es : Dict Text Text) (m : Dict ℕ Bytes)
        → Distinct es
        → Entries es
        → lookup j (read_entries f es m)
          ≡ elim (lookup (f.number j) es) [ none ↦ lookup j m | some u ↦ lookup j d ]
    unfolding lookup read_entries
    read_found j [] m n h = refl
    read_found j ((t, u) ∷ es) m n h =
        let (i, v, e, x, y, l, b) = Entries-head t u es h m in
        ground (
          arith,
          e,
          x,
          y,
          n.0,
          read_found j es (take_entry f t u m) n.1 (Entries-tail t u es n h),
          lookup-put i j v m,
          text_eq_iff t (f.number j),
          r.apart i j,
        )

    read-Between :
        (es : Dict Text Text) (m : Dict ℕ Bytes)
        → Distinct es
        → Entries es
        → Between 0 2147483648 m
        → Between 0 2147483648 (read_entries f es m)
    unfolding read_entries
    read-Between [] m n h b = b
    read-Between ((t, u) ∷ es) m n h b =
        let (i, v, e, x, y, l, k) = Entries-head t u es h m in
        read-Between es (take_entry f t u m) n.1 (Entries-tail t u es n h)
          (subst (Between 0 2147483648) (sym y) (put-Between 0 2147483648 i v m l k b))

    agrees :
        (j : ℕ) (es o : Dict Text Text)
        → lookup (f.number j) es ≡ lookup (f.number j) o
        → lookup (f.number j) o
          ≡ elim (lookup j d) [ none ↦ lookup (f.number j) [] | some v ↦ some (f.encode64 v) ]
        → elim (lookup (f.number j) es) as (λ x. Option Bytes) [
          | none ↦ lookup j []
          | some u ↦ lookup j d
        ]
          ≡ lookup j d
    unfolding lookup
    agrees j es o p q = ground (arith, p, q)

    written-Entries : Entries (f.read_object (f.write_object (object_of f d [])))
    unfolding lookup
    written-Entries t u e =
        let o = object_of f d [] in
        let found = sym (r.entries o t (object_of-Distinct d [] tt)) ∙ e in
        elim (entry_of 0 2147483648 d [] t u s.between found) [
          | inl x ↦ x
          | inr x ↦ absurd (not_none u x)
        ]

    -- What the writing loop wrote, printed and read, gives the reading loop the same keys.
    pub read-write : read_entries f (f.read_object (f.write_object (object_of f d []))) [] ≡ d
    read-write =
        let o = object_of f d [] in
        let es = f.read_object (f.write_object o) in
        let n = r.distinct (f.write_object o) in
        same_lookups 0 2147483648 _ d (read-Between es [] n written-Entries tt) s.between (λ j.
          read_found j es [] n written-Entries
          ∙ agrees j es o (r.entries o (f.number j) (object_of-Distinct d [] tt))
              (key_found 0 2147483648 j d [] s.between))
