-- ===== src/Base/TextMaps.antt =====
-- `BTreeMap<String, V>`: the entries in ascending order of their keys. Strings are ordered by their
-- bytes, and so by their code points.
use package.kyora.Base.Tests.{◌==◌, ltb, if◌then◌else◌}
use package.kyora.Base.Texts.{Text, text_eq}
use mathlib.Core.Bool.{Bool, true, false, ◌&&◌, ◌||◌}
use mathlib.Core.List.{List, [], ◌∷◌}
use mathlib.Core.Option.{Option, none, some}

-- `s < t`
unfoldable pub text_lt : Text → Text → Bool
text_lt [] [] = false
text_lt [] (_ ∷ _) = true
text_lt (_ ∷ _) [] = false
text_lt (a ∷ s) (b ∷ t) = ltb a b || (a == b && text_lt s t)

module _ {V : Type 0} where
  abbrev pub lookup_text : Text → List (Text × V) → Option V
  lookup_text k [] = none
  lookup_text k ((j, v) ∷ m) = if text_eq k j then some v else lookup_text k m

  -- `insert`
  unfoldable pub insert_text : Text → V → List (Text × V) → List (Text × V)
  unfolding text_eq text_lt
  insert_text k v [] = (k, v) ∷ []
  insert_text k v ((j, w) ∷ m) =
      if text_eq k j
      then (k, v) ∷ m
      else if text_lt k j
      then (k, v) ∷ (j, w) ∷ m
      else (j, w) ∷ insert_text k v m

  -- `entry(k).or_insert(v)`
  unfoldable pub insert_absent : Text → V → List (Text × V) → List (Text × V)
  unfolding insert_text
  insert_absent k v m = elim (lookup_text k m) [ none ↦ insert_text k v m | some _ ↦ m ]
