-- ===== src/Config/Order.antt =====
-- A Go map together with the slice of its keys in the order of their insertion, as
-- internal/config/section.go and config.go keep them.
use greyd_v.Base.{
  Bytes, bytes_eq, bytes_eq_iff, if◌then◌else◌, Bool, true, false, ◌&&◌, ◌||◌, not, List, [], ◌∷◌,
  ◌++◌, Option, none, some, ◌≡◌, refl, arith, Table, lookup, insert, remove, lookup-insert,
  lookup-remove, Bool-cases, inl, inr, ◌∙◌,
}

unfoldable pub listed : Bytes → List Bytes → Bool
listed k [] = false
listed k (j ∷ js) = bytes_eq j k || listed k js

abbrev pub is_some : {V : Type 0} → Option V → Bool
is_some none = false
is_some (some v) = true

-- The slice after a key was set: appended unless it was there.
abbrev pub order_set : {V : Type 0} → Bytes → Table V → List Bytes → List Bytes
order_set k m ks = if is_some (lookup k m) then ks else ks ++ (k ∷ [])

-- The loop that takes the first occurrence of a key out of the slice.
unfoldable pub drop_first : Bytes → List Bytes → List Bytes
drop_first k [] = []
drop_first k (j ∷ js) = let rest = drop_first k js in if bytes_eq j k then js else j ∷ rest

unfoldable pub Distinct : List Bytes → Type 0
Distinct [] = Unit
Distinct (k ∷ ks) = (listed k ks ≡ false) × Distinct ks

-- The slice has the keys of the map, each once.
pub record Tidy {V : Type 0} (m : Table V) (ks : List Bytes) : Type 0 where
  pub distinct : Distinct ks
  pub same : (k : Bytes) → listed k ks ≡ is_some (lookup k m)

listed-append_one :
    (j k : Bytes) (ks : List Bytes) → listed j (ks ++ (k ∷ [])) ≡ (listed j ks || bytes_eq k j)
unfolding listed
listed-append_one j k [] = ground arith
listed-append_one j k (i ∷ ks) = ground (arith, listed-append_one j k ks)

Distinct-append_one :
    (k : Bytes) (ks : List Bytes) → Distinct ks → listed k ks ≡ false → Distinct (ks ++ (k ∷ []))
unfolding Distinct listed
Distinct-append_one k [] d h = (refl, d)
Distinct-append_one k (j ∷ ks) d h = (
  ground (arith, listed-append_one j k ks, bytes_eq_iff j k, bytes_eq_iff k j, d.0, h),
  Distinct-append_one k ks d.1 (ground (arith, h)),
)

listed-drop_first :
    (j k : Bytes) (ks : List Bytes)
    → Distinct ks
    → listed j (drop_first k ks) ≡ (listed j ks && not (bytes_eq k j))
unfolding listed drop_first Distinct
listed-drop_first j k [] d = refl
listed-drop_first j k (i ∷ ks) d =
    ground (
      arith,
      listed-drop_first j k ks d.1,
      bytes_eq_iff i k,
      bytes_eq_iff k j,
      bytes_eq_iff i j,
      d.0,
    )

Distinct-drop_first : (k : Bytes) (ks : List Bytes) → Distinct ks → Distinct (drop_first k ks)
unfolding Distinct drop_first
Distinct-drop_first k [] d = d
Distinct-drop_first k (j ∷ ks) d = elim (Bool-cases (bytes_eq j k)) [
  | inl h ↦ rw h d.1
  | inr h ↦ rw h (ground (arith, listed-drop_first j k ks d.1, d.0), Distinct-drop_first k ks d.1)
]

module _ {V : Type 0} where
  pub Tidy-nil : Tidy {V = V} [] []
  unfolding Distinct listed lookup
  Tidy-nil = record { distinct = tt; same = λ k. refl }

  pub Tidy-insert :
      (k : Bytes) (v : V) (m : Table V) (ks : List Bytes)
      → Tidy m ks
      → Tidy (insert k v m) (order_set k m ks)
  Tidy-insert k v m ks t = elim (Bool-cases (is_some (lookup k m))) [
    | inl h ↦ rw h record {
      distinct = t.distinct;
      same = λ j. ground (arith, t.same j, lookup-insert k j v m, bytes_eq_iff k j, h);
    }
    | inr h ↦ rw h record {
      distinct = Distinct-append_one k ks t.distinct (t.same k ∙ h);
      same = λ j.
          ground
            (arith, t.same j, lookup-insert k j v m, bytes_eq_iff k j, h, listed-append_one j k ks);
    }
  ]

  pub Tidy-remove :
      (k : Bytes) (m : Table V) (ks : List Bytes) → Tidy m ks → Tidy (remove k m) (drop_first k ks)
  Tidy-remove k m ks t = record {
    distinct = Distinct-drop_first k ks t.distinct;
    same = λ j. ground (arith, t.same j, lookup-remove k j m, listed-drop_first j k ks t.distinct);
  }
