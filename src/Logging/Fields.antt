-- ===== src/Logging/Fields.antt =====
-- server/webbou/logging.go, `pairsToMap`: which value a field has.
use web_bou.Prelude.{
  string_eq, ◌≡◌, refl, ap, ◌∙◌, Bool, true, false, Option, none, some, List, [], ◌∷◌, String,
  if◌then◌else◌, ◌==◌,
}
use web_bou.Prelude.Maps.{Map, get, get-put}
use web_bou.Logging.{Any, text, other, put_pair, add_pairs, pairs_to_map}

module _ {V : Type 0} where
  abbrev or_else : Option (Any V) → Option (Any V) → Option (Any V)
  or_else none o = o
  or_else (some v) o = some v

  abbrev own : String → Any V → Any V → Option (Any V)
  own key (text k) value = if k == key then some value else none
  own key (other k) value = none

  -- The value of the last pair whose first part is the key.
  abbrev last_value : String → List (Any V) → Option (Any V)
  last_value key [] = none
  last_value key (k ∷ []) = none
  last_value key (k ∷ (value ∷ pairs)) = or_else (last_value key pairs) (own key k value)

  or_else-if :
      (b : Bool) (v : Any V) (o : Option (Any V))
      → (if b then some v else o) ≡ or_else (if b then some v else none) o
  or_else-if true v o = refl
  or_else-if false v o = refl

  or_else_assoc : (a b c : Option (Any V)) → or_else a (or_else b c) ≡ or_else (or_else a b) c
  or_else_assoc none b c = refl
  or_else_assoc (some v) b c = refl

  get-put_pair :
      (key : String) (k value : Any V) (m : Map String (Any V))
      → get key (put_pair k value m) ≡ or_else (own key k value) (get key m)
  get-put_pair key (text k) value m =
      get-put k key value m ∙ or_else-if (k == key) value (get key m)
  get-put_pair key (other k) value m = refl

  get-add_pairs :
      (key : String) (pairs : List (Any V)) (m : Map String (Any V))
      → get key (add_pairs pairs m) ≡ or_else (last_value key pairs) (get key m)
  get-add_pairs key [] m = refl
  get-add_pairs key (k ∷ []) m = refl
  get-add_pairs key (k ∷ (value ∷ pairs)) m =
      get-add_pairs key pairs (put_pair k value m)
      ∙ ap (or_else (last_value key pairs)) (get-put_pair key k value m)
      ∙ or_else_assoc (last_value key pairs) (own key k value) (get key m)

  or_else-none : (o : Option (Any V)) → or_else o none ≡ o
  or_else-none none = refl
  or_else-none (some v) = refl

  -- A field has the value of the last pair that names it; what is paired with something that is not a
  -- text, and a value without a partner, are in no field.
  get-pairs_to_map :
      (key : String) (pairs : List (Any V)) → get key (pairs_to_map pairs) ≡ last_value key pairs
  unfolding pairs_to_map get
  get-pairs_to_map key pairs = get-add_pairs key pairs [] ∙ or_else-none (last_value key pairs)
