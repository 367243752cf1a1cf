-- ===== src/Prelude/Dicts.antt =====
-- A JavaScript object or `Map` as an association list, in the order of first insertion.
use Prim.Native.String.{String}
use Prim.Native.Nat.{suc, ◌≤◌}
use mathlib.Core.Path.{◌≡◌, refl}
use mathlib.Core.Option.{Option, none, some}
use mathlib.Core.List.{List, [], ◌∷◌}
use native.Mathlib.Omega.{arith}
use text.Mathlib.Text.{◌==◌ as str_eq}
use text.Mathlib.TextEquality.{eq_iff}
use j41_sovagent_dispatcher.Prelude.Tests.{if◌then◌else◌}
use j41_sovagent_dispatcher.Prelude.Lists.{length}

abbrev pub Dict {ℓ} : Type ℓ → Type ℓ
Dict V = List (String × V)

module _ {ℓ} {V : Type ℓ} where
  -- `dict[key]`.
  unfoldable pub get : Dict V → String → Option V
  get [] key = none
  get ((name, held) ∷ more) key = if str_eq name key then some held else get more key

  -- `dict[key] = item`: a key that is there keeps its place.
  unfoldable pub put : Dict V → String → V → Dict V
  put [] key item = (key, item) ∷ []
  put ((name, held) ∷ more) key item =
      if str_eq name key then (name, item) ∷ more else (name, held) ∷ put more key item

  -- `delete dict[key]`.
  unfoldable pub delete : Dict V → String → Dict V
  delete [] key = []
  delete ((name, held) ∷ more) key =
      let others = delete more key in if str_eq name key then others else (name, held) ∷ others

  pub get-put :
      (dict : Dict V) (key other : String) (item : V)
      → get (put dict key item) other ≡ (if str_eq key other then some item else get dict other)
  unfolding get put
  get-put [] key other item = refl
  get-put ((name, held) ∷ more) key other item =
      ground
        (arith, get-put more key other item, eq_iff name key, eq_iff key other, eq_iff name other)

  pub get-delete :
      (dict : Dict V) (key other : String)
      → get (delete dict key) other ≡ (if str_eq key other then none else get dict other)
  unfolding get delete
  get-delete [] key other = ground arith
  get-delete ((name, held) ∷ more) key other =
      ground
        (arith, eq_iff key other, eq_iff name other, eq_iff name key, get-delete more key other)

  pub length-put-le :
      (dict : Dict V) (key : String) (item : V) → length (put dict key item) ≤ suc (length dict)
  unfolding put
  length-put-le [] key item = omega arith
  length-put-le ((name, held) ∷ more) key item = ground (arith, length-put-le more key item)
