-- ===== src/Janitor/Dict.antt =====
-- JSON objects whose members are texts, as the labels of a resource are.
use deployment.Base.{
  String, Bool, true, false, ◌&&◌, List, [], ◌∷◌, Option, none, some, Arg, exact, other, all,
  if◌then◌else◌, ◌==◌, string_eq,
}

-- A JSON object; its keys are unique. `other` stands for a value that is no text.
abbrev pub Dict : Type 0
Dict = List (String × Arg String)

-- `raw.get(key)` where it is a text
unfoldable pub text_at : String → Dict → Option String
text_at key [] = none
text_at key ((k, exact v) ∷ rest) =
    let later = text_at key rest in if k == key then some v else later
text_at key ((k, other) ∷ rest) = let later = text_at key rest in if k == key then none else later

unfoldable pub member : String → List String → Bool
member key [] = false
member key (k ∷ rest) = let later = member key rest in if k == key then true else later

abbrev is_text : Arg String → Bool
is_text (exact _) = true
is_text other = false

-- All values are texts, and the keys are those demanded.
unfoldable pub has_shape : List String → Dict → Bool
unfolding member
has_shape keys raw =
    all (λ item. is_text item.1) raw
    && all (λ item. member item.0 keys) raw
    && all (λ key. member key (keys_in raw)) keys
  where
    keys_in : Dict → List String
    keys_in [] = []
    keys_in ((k, _) ∷ rest) = k ∷ keys_in rest
