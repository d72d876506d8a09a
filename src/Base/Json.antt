-- ===== src/Base/Json.antt =====
-- The documents that the contracts bind by a digest, as `json.dumps` takes them.
use deployment.Base.{ℕ, String, List, [], ◌∷◌, Option, none, some, ◌≡◌, refl}

mutual
  pub data Json : Type 0 where
    null : Json
    text : String → Json
    num : ℕ → Json
    arr : Items → Json
    obj : Fields → Json

  pub data Items : Type 0 where
    nil : Items
    cons : Json → Items → Items

  pub data Fields : Type 0 where
    end : Fields
    field : String → Json → Fields → Fields

-- `None` or a text.
abbrev pub optional_text : Option String → Json
optional_text none = null
optional_text (some t) = text t

-- A list of texts.
abbrev pub texts : List String → Items
texts [] = nil
texts (t ∷ ts) = cons (text t) (texts ts)

pub optional_text-injective : (s t : Option String) → optional_text s ≡ optional_text t → s ≡ t
optional_text-injective none none e = refl
optional_text-injective none (some t) e = cc
optional_text-injective (some s) none e = cc
optional_text-injective (some s) (some t) e = cc

pub texts-injective : (ss ts : List String) → texts ss ≡ texts ts → ss ≡ ts
texts-injective [] [] e = refl
texts-injective [] (t ∷ ts) e = cc
texts-injective (s ∷ ss) [] e = cc
texts-injective (s ∷ ss) (t ∷ ts) e =
    let rest : texts ss ≡ texts ts = cc in cc (texts-injective ss ts rest)
