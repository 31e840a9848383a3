-- ===== src/Prelude/HashMap.antt =====
-- `HashMap<String, V>` as an association list with one entry a key. The order of `values` is the
-- list's; no statement below depends on it.
pub mod Keyed
use mathlib.Core.Option
use mathlib.Core.Path.{◌≡◌, refl}
use mathlib.Core.List.{List, [], ◌∷◌}
use mathlib.Core.Option.{Option, none, some}
use native.Mathlib.Omega.{arith}
use wisp_shell.Prelude.Tests.{if◌then◌else◌}
use wisp_shell.Prelude.Strings.{Str, str_eq, str_eq_iff}

abbrev pub HashMap {ℓ} : Type ℓ → Type ℓ
HashMap V = List (Str × V)

module _ {ℓ} {V : Type ℓ} where
  unfoldable pub get : HashMap V → Str → Option V
  get [] k = none
  get ((j, v) ∷ m) k = if str_eq j k then some v else get m k

  unfoldable pub insert : HashMap V → Str → V → HashMap V
  insert [] k v = (k, v) ∷ []
  insert ((j, w) ∷ m) k v = if str_eq j k then (j, v) ∷ m else (j, w) ∷ insert m k v

  -- `if let Some(v) = m.get_mut(k) { *v = f(*v) }`
  unfoldable pub modify : HashMap V → Str → (V → V) → HashMap V
  modify [] k f = []
  modify ((j, w) ∷ m) k f = if str_eq j k then (j, f w) ∷ m else (j, w) ∷ modify m k f

  unfoldable pub values : HashMap V → List V
  values [] = []
  values ((j, v) ∷ m) = v ∷ values m

  -- `for v in m.values_mut() { *v = f(*v) }`
  unfoldable pub map_values {κ} : {W : Type κ} → (V → W) → HashMap V → HashMap W
  map_values f [] = []
  map_values f ((j, v) ∷ m) = (j, f v) ∷ map_values f m

  pub get-insert :
      (m : HashMap V) (k j : Str) (v : V)
      → get (insert m k v) j ≡ (if str_eq k j then some v else get m j)
  unfolding get insert
  get-insert [] k j v = refl
  get-insert ((i, w) ∷ m) k j v =
      ground (arith, str_eq_iff i k, str_eq_iff i j, str_eq_iff k j, get-insert m k j v)

  pub get-modify :
      (m : HashMap V) (k j : Str) (f : V → V)
      → get (modify m k f) j ≡ (if str_eq k j then Option.map f (get m j) else get m j)
  unfolding get modify
  get-modify [] k j f = ground arith
  get-modify ((i, w) ∷ m) k j f =
      ground (arith, str_eq_iff i k, str_eq_iff i j, str_eq_iff k j, get-modify m k j f)

module _ {ℓ} {V : Type ℓ} where
  pub get-map_values {κ} :
      {W : Type κ} (m : HashMap V) (f : V → W) (j : Str)
      → get (map_values f m) j ≡ Option.map f (get m j)
  unfolding get map_values
  get-map_values [] f j = refl
  get-map_values ((i, w) ∷ m) f j = ground (arith, get-map_values m f j)

pub ruleset map_laws = (get-insert, get-modify, get-map_values)
