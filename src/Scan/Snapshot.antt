-- ===== src/Scan/Snapshot.antt =====
-- The snapshot that the scan walks over holds every stored key.
use greyd_v.Base.{
  Bytes, bytes_eq, bytes_eq_iff, Bool-cases, List, [], ◌∷◌, ◌++◌, map, some, ◌≡◌, ◌⊎◌, inl, inr,
}
use greyd_v.Memory.{Tx, Assoc, lookup, iter, sort_strings, insert_sorted, bytes_leb}

-- Membership, kept as data.
abbrev pub In : Bytes → List Bytes → Type 0
In x [] = ⊥
In x (y ∷ ys) = (x ≡ y) ⊎ In x ys

pub In-append_left : (x : Bytes) (xs ys : List Bytes) → In x xs → In x (xs ++ ys)
In-append_left x [] ys h = absurd h
In-append_left x (y ∷ xs) ys (inl e) = inl e
In-append_left x (y ∷ xs) ys (inr h) = inr (In-append_left x xs ys h)

pub In-append_right : (x : Bytes) (xs ys : List Bytes) → In x ys → In x (xs ++ ys)
In-append_right x [] ys h = h
In-append_right x (y ∷ xs) ys h = inr (In-append_right x xs ys h)

In-insert_sorted : (x y : Bytes) (ys : List Bytes) → In x (y ∷ ys) → In x (insert_sorted y ys)
unfolding insert_sorted
In-insert_sorted x y [] h = h
In-insert_sorted x y (z ∷ zs) (inl e) = elim (Bool-cases (bytes_leb y z)) [
  | inl le ↦ rw le (inl e)
  | inr gt ↦ rw gt (inr (In-insert_sorted x y zs (inl e)))
]
In-insert_sorted x y (z ∷ zs) (inr (inl e)) = elim (Bool-cases (bytes_leb y z)) [
  | inl le ↦ rw le (inr (inl e))
  | inr gt ↦ rw gt (inl e)
]
In-insert_sorted x y (z ∷ zs) (inr (inr h)) = elim (Bool-cases (bytes_leb y z)) [
  | inl le ↦ rw le (inr (inr h))
  | inr gt ↦ rw gt (inr (In-insert_sorted x y zs (inr h)))
]

In-sort_strings : (x : Bytes) (ys : List Bytes) → In x ys → In x (sort_strings ys)
unfolding sort_strings
In-sort_strings x [] h = h
In-sort_strings x (y ∷ ys) (inl e) = In-insert_sorted x y (sort_strings ys) (inl e)
In-sort_strings x (y ∷ ys) (inr h) =
    In-insert_sorted x y (sort_strings ys) (inr (In-sort_strings x ys h))

In-keys : (x v : Bytes) (m : Assoc) → lookup x m ≡ some v → In x (map (λ p. p.0) m)
unfolding lookup
In-keys x v [] h = cc
In-keys x v ((j, w) ∷ m) h = elim (Bool-cases (bytes_eq j x)) [
  | inl same ↦ inl (cc ((bytes_eq_iff j x).0 same))
  | inr other ↦ inr (In-keys x v m (rw other at h))
]

-- A stored key of the entries stands in the snapshot of the entries.
pub In-iter : (x v : Bytes) (t : Tx) → lookup x t.stored.of_entries ≡ some v → In x (iter 1 t)
unfolding iter
In-iter x v t h =
    In-append_left x (sort_strings (map (λ p. p.0) t.stored.of_entries)) []
      (In-sort_strings x (map (λ p. p.0) t.stored.of_entries) (In-keys x v t.stored.of_entries h))
