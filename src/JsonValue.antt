-- ===== src/JsonValue.antt =====
-- JSON values as the engines see them (`unknown`), over a type of numbers.
use aops_pmoa.Prelude.{
  String, Bool, Option, none, some, List, [], ◌∷◌, ◌==◌, text_comparable, if◌then◌else◌,
}

mutual
  pub data Json (Float : Type 0) : Type 0 where
    null : Json Float
    bool : Bool → Json Float
    num : Float → Json Float
    str : String → Json Float
    arr : Elems Float → Json Float
    obj : Props Float → Json Float

  pub data Elems (Float : Type 0) : Type 0 where
    nil : Elems Float
    cons : Json Float → Elems Float → Elems Float

  pub data Props (Float : Type 0) : Type 0 where
    end : Props Float
    prop : String → Json Float → Props Float → Props Float

-- IEEE doubles, which the language gives and the engine only converts, tests and compares.
pub record Floats : Type 1 where
  pub Float : Type 0
  pub of_text : String → Float
  pub is_finite : Float → Bool
  pub lt : Float → Float → Bool

module _ {Float : Type 0} where
  abbrev pub props : Props Float → List (String × Json Float)
  props end = []
  props (prop k v ps) = (k, v) ∷ props ps

  -- `object[key]`, `none` being `undefined`
  abbrev pub property : String → List (String × Json Float) → Option (Json Float)
  property key [] = none
  property key ((k, v) ∷ ps) = if k == key then some v else property key ps
