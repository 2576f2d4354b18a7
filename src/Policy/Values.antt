-- ===== src/Policy/Values.antt =====
-- The readers of apps/api/src/engines/policy/decision-engine.ts: values under a key of a request's
-- context, and the test of an optional list.
use aops_pmoa.Prelude.{
  String, Bool, true, false, Option, none, some, List, [], ◌∷◌, Comparable, if◌then◌else◌, includes,
  is_blank,
}
use aops_pmoa.JsonValue.{Json, num, str, obj, props, property, Floats}

-- `allowed` absent or empty restricts nothing; a restriction refuses an absent value.
unfoldable pub includes_if_present :
    {A : Type 0} ⦃e : Comparable A⦄ → Option (List A) → Option A → Bool
includes_if_present none actual = true
includes_if_present (some []) actual = true
includes_if_present (some (x ∷ xs)) none = false
includes_if_present (some (x ∷ xs)) (some a) = includes (x ∷ xs) a

module _ {Float : Type 0} where
  abbrev pub as_object : Option (Json Float) → List (String × Json Float)
  as_object (some (obj ps)) = props ps
  as_object _ = []

  abbrev pub as_text : Option (Json Float) → Option String
  as_text (some (str s)) = if is_blank s then none else some s
  as_text _ = none

  -- An object under the key, `{}` where it is absent or no object.
  unfoldable pub object_at : List (String × Json Float) → String → List (String × Json Float)
  object_at value key = as_object (property key value)

  -- A text under the key that is not blank.
  unfoldable pub string_at : List (String × Json Float) → String → Option String
  string_at value key = as_text (property key value)

module _ (floats : Floats) where
  open floats use {Float, of_text, is_finite}

  abbrev pub if_finite : Float → Option Float
  if_finite n = if is_finite n then some n else none

  abbrev pub as_number : Option (Json Float) → Option Float
  as_number (some (num n)) = if_finite n
  as_number (some (str s)) = if_finite (of_text s)
  as_number _ = none

  -- A finite number under the key, given as a number or as a text.
  unfoldable pub number_at : List (String × Json Float) → String → Option Float
  number_at value key = as_number (property key value)
