-- ===== src/Prelude/Maps.antt =====
-- A Go map with texts as keys, as a list of entries.
use mathlib.Core.Path.{◌≡◌, refl, ◌∙◌}
use mathlib.Core.Logic.{inl, inr}
use mathlib.Core.Option.{Option, none, some}
use mathlib.Core.List.{List, [], ◌∷◌}
use native.Mathlib.Omega.{arith}
use Prim.Native.String.{String}
use text.Mathlib.TextEquality.{eq_iff}
use pregao.Prelude.Tests.{if◌then◌else◌, Bool-cases}
use pregao.Prelude.Text.{◌=ₛ◌}

module _ {ℓ} {V : Type ℓ} where
  -- `v, ok := m[k]`
  abbrev pub get_entry : String → List (String × V) → Option V
  get_entry k [] = none
  get_entry k ((l, v) ∷ es) = if l =ₛ k then some v else get_entry k es

  -- `m[k] = v`
  abbrev pub set_entry : String → V → List (String × V) → List (String × V)
  set_entry k v [] = (k, v) ∷ []
  set_entry k v ((l, u) ∷ es) = if l =ₛ k then (l, v) ∷ es else (l, u) ∷ set_entry k v es

  pub get_entry-set_entry :
      (k l : String) (v : V) (m : List (String × V))
      → get_entry l (set_entry k v m) ≡ (if k =ₛ l then some v else get_entry l m)
  get_entry-set_entry k l v [] = refl
  get_entry-set_entry k l v ((n, u) ∷ es) =
      ground (arith, get_entry-set_entry k l v es, eq_iff n k, eq_iff n l, eq_iff k l)

-- `for k, v := range es { m[k] = f(v) }`, for a map `es`, whose keys differ.
abbrev pub set_all {ℓ κ} :
    {V : Type ℓ} {W : Type κ} → (V → W) → List (String × V) → List (String × W) → List (String × W)
set_all f [] m = m
set_all f ((k, v) ∷ es) m = set_entry k (f v) (set_all f es m)

-- An option through a function, or another option.
abbrev pub map_or {ℓ κ} : {V : Type ℓ} {W : Type κ} → (V → W) → Option V → Option W → Option W
map_or f (some v) other = some (f v)
map_or f none other = other

pub get_entry-set_all {ℓ κ} :
    {V : Type ℓ} {W : Type κ} (f : V → W) (k : String) (es : List (String × V))
    (m : List (String × W))
    → get_entry k (set_all f es m) ≡ map_or f (get_entry k es) (get_entry k m)
get_entry-set_all f k [] m = refl
get_entry-set_all f k ((l, v) ∷ es) m =
    get_entry-set_entry l k (f v) (set_all f es m) ∙ elim (Bool-cases (l =ₛ k)) [
      | inl same ↦ rw same refl
      | inr differs ↦ rw differs (get_entry-set_all f k es m)
    ]
