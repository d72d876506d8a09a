-- ===== src/Base/Networks.antt =====
-- Lists of networks as the contracts sort them: `sorted(set(values), key=…)`.
use deployment.Base.{
  String, Bool, ◌&&◌, ◌||◌, List, [], ◌∷◌, ltb, if◌then◌else◌, ◌==◌, nat_eq, string_eq,
}
use deployment.Base.Runtime.{Network}

-- The sort key `(network_address.packed, prefixlen)`.
abbrev pub before : Network → Network → Bool
before a b = ltb a.packed b.packed || (a.packed == b.packed && ltb a.prefixlen b.prefixlen)

-- Insertion into a sorted list of the networks seen so far, of which a set keeps one of each text.
unfoldable pub insert : Network → List Network → List Network
insert n [] = n ∷ []
insert n (m ∷ ms) =
    if n.text == m.text then m ∷ ms else if before n m then n ∷ (m ∷ ms) else m ∷ insert n ms

-- `sorted(set(networks), key=…)`
unfoldable pub sorted_set : List Network → List Network
unfolding insert
sorted_set [] = []
sorted_set (n ∷ ns) = insert n (sorted_set ns)

abbrev pub texts_of : List Network → List String
texts_of [] = []
texts_of (n ∷ ns) = n.text ∷ texts_of ns
