-- ===== src/Prelude/HashMap/Keyed.antt =====
-- Maps whose every value carries its own key, each key once: what the writers of a map keep.
use mathlib.Core.Path.{◌≡◌, refl}
use mathlib.Core.Bool.{false}
use mathlib.Core.List.{[], ◌∷◌, ◌++◌}
use mathlib.Core.Option.{none, some}
use native.Mathlib.Omega.{arith}
use wisp_shell.Prelude.Strings.{Str, str_eq, str_eq_iff}
use wisp_shell.Prelude.HashMap.{
  HashMap, get, insert, modify, map_values, get-insert, get-modify, get-map_values,
}

module _ {V : Type 0} (key : V → Str) where
  abbrev pub IsKeyed : HashMap V → Type 0
  IsKeyed [] = Unit {0}
  IsKeyed ((j, v) ∷ m) = (key v ≡ j) × (get m j ≡ none) × IsKeyed m

module _ {V : Type 0} where
  get_append_none :
      (a b : HashMap V) (k j : Str) (v : V) → get (a ++ (j, v) ∷ b) k ≡ none → str_eq j k ≡ false
  unfolding get
  get_append_none [] b k j v e = ground arith
  get_append_none ((i, w) ∷ a) b k j v e = ground (arith, get_append_none a b k j v)

module _ {V : Type 0} (key : V → Str) where
  pub insert-IsKeyed :
      (m : HashMap V) (k : Str) (v : V) → key v ≡ k → IsKeyed key m → IsKeyed key (insert m k v)
  unfolding get insert
  insert-IsKeyed [] k v e h = (e, refl, tt)
  insert-IsKeyed ((j, w) ∷ m) k v e h =
      ground (arith, str_eq_iff j k, str_eq_iff k j, get-insert m k j v, insert-IsKeyed m k v e h.2)

  pub modify-IsKeyed :
      (m : HashMap V) (k : Str) (f : V → V)
      → ((v : V) → key (f v) ≡ key v)
      → IsKeyed key m
      → IsKeyed key (modify m k f)
  unfolding get modify
  modify-IsKeyed [] k f e h = tt
  modify-IsKeyed ((j, w) ∷ m) k f e h =
      ground
        (arith, e w, str_eq_iff j k, str_eq_iff k j, get-modify m k j f, modify-IsKeyed m k f e h.2)

  pub map_values-IsKeyed :
      (m : HashMap V) (f : V → V)
      → ((v : V) → key (f v) ≡ key v)
      → IsKeyed key m
      → IsKeyed key (map_values f m)
  unfolding get map_values
  map_values-IsKeyed [] f e h = tt
  map_values-IsKeyed ((j, w) ∷ m) f e h =
      ground (arith, e w, get-map_values m f j, map_values-IsKeyed m f e h.2)

  -- A value is found under its own key.
  pub get-IsKeyed : (m : HashMap V) (k : Str) {v : V} → IsKeyed key m → get m k ≡ some v → key v ≡ k
  unfolding get
  get-IsKeyed [] k h e = cc
  get-IsKeyed ((j, w) ∷ m) k {v} h e = ground (arith, str_eq_iff j k, get-IsKeyed m k {v = v} h.2)

  -- What stands further back is not found further in front.
  pub get_front :
      (a b : HashMap V) (j : Str) (v : V) → IsKeyed key (a ++ (j, v) ∷ b) → get a j ≡ none
  unfolding get
  get_front [] b j v h = refl
  get_front ((i, w) ∷ a) b j v h =
      ground (
        arith,
        str_eq_iff i j,
        str_eq_iff j i,
        get_append_none a b i j v h.1,
        get_front a b j v h.2,
      )

  pub own_key : (a b : HashMap V) (j : Str) (v : V) → IsKeyed key (a ++ (j, v) ∷ b) → key v ≡ j
  own_key [] b j v h = h.0
  own_key ((i, w) ∷ a) b j v h = own_key a b j v h.2

module _ {V : Type 0} where
  pub insert_new :
      (m : HashMap V) (k : Str) (v : V) → get m k ≡ none → insert m k v ≡ m ++ (k, v) ∷ []
  unfolding get insert
  insert_new [] k v e = refl
  insert_new ((j, w) ∷ m) k v e = ground (arith, insert_new m k v)
