-- ===== src/Config/Variables.antt =====
-- internal/config/value.go: a configuration value. A nil *Value is `none`.
use greyd_v.Base.{Bytes, List, [], ◌∷◌, Option, none, some, ◌≡◌, refl, ap, ◌++◌}
use greyd_v.Base.Int.{ℤ}

mutual
  pub data Value : Type 0 where
    int_value : ℤ → Value
    str_value : Bytes → Value
    list_value : Values → Value

  pub data Values : Type 0 where
    no_values : Values
    also : Value → Values → Values

-- `Clone`: a deep copy.
unfoldable mutual
  pub clone : Value → Value
  clone (int_value i) = int_value i
  clone (str_value s) = str_value s
  clone (list_value vs) = list_value (clone_all vs)

  pub clone_all : Values → Values
  clone_all no_values = no_values
  clone_all (also v vs) = also (clone v) (clone_all vs)

mutual
  unfolding clone

  clone_self : (v : Value) → clone v ≡ v
  clone_self (int_value i) = refl
  clone_self (str_value s) = refl
  clone_self (list_value vs) = ap list_value (clone_all_self vs)

  clone_all_self : (vs : Values) → clone_all vs ≡ vs
  clone_all_self no_values = refl
  clone_all_self (also v vs) = cc (clone_self v, clone_all_self vs)

pub clone-eq : (v : Value) → clone v ≡ v
clone-eq v = clone_self v

-- The strings among the elements of a list.
unfoldable pub strings_of : Values → List Bytes
strings_of no_values = []
strings_of (also (str_value s) vs) = s ∷ strings_of vs
strings_of (also (int_value i) vs) = strings_of vs
strings_of (also (list_value l) vs) = strings_of vs

-- `Strings`
unfoldable pub strings : Option Value → List Bytes
unfolding strings_of
strings none = []
strings (some (int_value i)) = []
strings (some (str_value s)) = s ∷ []
strings (some (list_value vs)) = strings_of vs

-- `append` of one element.
unfoldable pub append_value : Values → Value → Values
append_value no_values v = also v no_values
append_value (also w ws) v = also w (append_value ws v)

pub strings_of-append_value :
    (vs : Values) (s : Bytes)
    → strings_of (append_value vs (str_value s)) ≡ strings_of vs ++ (s ∷ [])
unfolding strings_of append_value
strings_of-append_value no_values s = refl
strings_of-append_value (also (str_value r) vs) s = ap (◌∷◌ r) (strings_of-append_value vs s)
strings_of-append_value (also (int_value i) vs) s = strings_of-append_value vs s
strings_of-append_value (also (list_value l) vs) s = strings_of-append_value vs s
