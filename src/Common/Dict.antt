-- ===== src/Common/Dict.antt =====
-- A Go map with text keys, as an association list. The laws are in `if` form, so that they need no
-- side condition; `keys` is the order in which a `range` loop visits the entries.
use mathlib.Core.Path.{◌≡◌, refl}
use mathlib.Core.Bool.{false}
use mathlib.Core.Option.{Option, none, some}
use mathlib.Core.List.{List, [], ◌∷◌}
use native.Mathlib.Omega.{arith}
use Prim.Native.String.{String}
use text.Mathlib.Text.{◌==◌ as str_eq}
use text.Mathlib.TextEquality.{eq_iff}
use text.Mathlib.TextPositions.{eq_refl}
use nexus_ai_gateway.Common.Tests.{if◌then◌else◌}

abbrev pub Dict {ℓ} : Type ℓ → Type ℓ
Dict V = List (String × V)

module _ {ℓ} {V : Type ℓ} where
  -- `m[k]`, with the test of presence.
  unfoldable pub find : String → Dict V → Option V
  find k [] = none
  find k ((i, v) ∷ m) = if str_eq i k then some v else find k m

  -- `m[k] = v`.
  unfoldable pub put : String → V → Dict V → Dict V
  put k v [] = (k, v) ∷ []
  put k v ((i, w) ∷ m) = let rest = put k v m in if str_eq i k then (k, v) ∷ m else (i, w) ∷ rest

  -- `delete(m, k)`.
  unfoldable pub delete : String → Dict V → Dict V
  delete k [] = []
  delete k ((i, w) ∷ m) = let rest = delete k m in if str_eq i k then rest else (i, w) ∷ rest

  pub find-put :
      (k j : String) (v : V) (m : Dict V)
      → find j (put k v m) ≡ (if str_eq k j then some v else find j m)
  unfolding find put
  find-put k j v [] = refl
  find-put k j v ((i, w) ∷ m) = ground (arith, eq_iff k j, eq_iff i k, eq_iff i j, find-put k j v m)

  pub find-delete :
      (k j : String) (m : Dict V) → find j (delete k m) ≡ (if str_eq k j then none else find j m)
  unfolding find delete
  find-delete k j [] = ground arith
  find-delete k j ((i, w) ∷ m) =
      ground (arith, eq_iff k j, eq_iff i k, eq_iff i j, find-delete k j m)

  pub find-put_self : (k : String) (v : V) (m : Dict V) → find k (put k v m) ≡ some v
  find-put_self k v m = simp (find-put, eq_refl)

  pub find-delete_self : (k : String) (m : Dict V) → find k (delete k m) ≡ none
  find-delete_self k m = simp (find-delete, eq_refl)

  -- A write or a removal at one key is not seen at another.
  pub find-put_other :
      (k j : String) (v : V) (m : Dict V) → str_eq k j ≡ false → find j (put k v m) ≡ find j m
  find-put_other k j v m h = rw (find-put k j v m, h)

  pub find-delete_other :
      (k j : String) (m : Dict V) → str_eq k j ≡ false → find j (delete k m) ≡ find j m
  find-delete_other k j m h = rw (find-delete k j m, h)
