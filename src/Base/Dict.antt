-- ===== src/Base/Dict.antt =====
-- A Python dict keyed by bytes or texts, in insertion order.
use mathlib.Core.Path.{◌≡◌, refl}
use mathlib.Core.Option.{Option, none, some}
use mathlib.Core.List.{List, [], ◌∷◌}
use native.Mathlib.Omega.{arith}
use crk_io_board.Base.Tests.{if◌then◌else◌}
use crk_io_board.Base.Texts.{Bytes, same_text, same_text_iff}

abbrev pub Dict {ℓ} : Type ℓ → Type ℓ
Dict V = List (Bytes × V)

module _ {ℓ} {V : Type ℓ} where
  -- `d.get(k)`
  unfoldable pub get : Bytes → Dict V → Option V
  get k [] = none
  get k ((j, v) ∷ d) = if same_text j k then some v else get k d

  -- `d[k] = v`
  unfoldable pub put : Bytes → V → Dict V → Dict V
  put k v [] = (k, v) ∷ []
  put k v ((j, w) ∷ d) = if same_text j k then (k, v) ∷ d else (j, w) ∷ put k v d

  pub get-put :
      (k j : Bytes) (v : V) (d : Dict V)
      → get j (put k v d) ≡ (if same_text k j then some v else get j d)
  unfolding get put
  get-put k j v [] = refl
  get-put k j v ((i, w) ∷ d) =
      ground (arith, same_text_iff k j, same_text_iff i k, same_text_iff i j, get-put k j v d)
