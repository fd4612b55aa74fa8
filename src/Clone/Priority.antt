-- ===== src/Clone/Priority.antt =====
-- The order of listPrioritizedNamespaces of pcsm/clone.go: larger collections first.
use mathlib.Core.List.Permᴰ
use mathlib.Core.List.{Permᴰ}
use percona_link_mongodb.Prelude.Maps.{Assoc}
use percona_link_mongodb.Prelude.{if-cases, List, [], ◌∷◌, map, ◌≤◌, refl, arith, All, leb}
use percona_link_mongodb.Events.{Namespace}
use percona_link_mongodb.Clone.{Clone, SizeMapElem, size_of}
use percona_link_mongodb.Clone.Collect.{
  NamespaceInfo, info_of, place, sorted_by, list_prioritized_namespaces,
}

module _ (sizes : Assoc Namespace SizeMapElem) where
  -- The size of the first is at least that of the second.
  abbrev IsLarger : NamespaceInfo → NamespaceInfo → Type 0
  IsLarger a b = size_of b.namespace sizes ≤ size_of a.namespace sizes

  -- No collection stands behind a smaller one.
  abbrev pub IsDescending : List NamespaceInfo → Type 0
  IsDescending [] = Unit
  IsDescending (a ∷ rest) = All (IsLarger a) rest × IsDescending rest

  All-weaken :
      (a b : NamespaceInfo) (l : List NamespaceInfo)
      → IsLarger a b
      → All (IsLarger b) l
      → All (IsLarger a) l
  All-weaken a b [] h all = all
  All-weaken a b (c ∷ l) h (first, all) = (omega (arith, h, first), All-weaken a b l h all)

  All-place :
      (a b : NamespaceInfo) (l : List NamespaceInfo)
      → IsLarger a b
      → All (IsLarger a) l
      → All (IsLarger a) (place sizes b l)
  unfolding place
  All-place a b [] h all = (h, all)
  All-place a b (c ∷ l) h (first, all) =
      if-cases (All (IsLarger a)) (leb (size_of c.namespace sizes) (size_of b.namespace sizes))
        (λ _. (h, (first, all))) λ _. (first, All-place a b l h all)

  place-IsDescending :
      (b : NamespaceInfo) (l : List NamespaceInfo) → IsDescending l → IsDescending (place sizes b l)
  unfolding place
  place-IsDescending b [] d = (tt, tt)
  place-IsDescending b (c ∷ l) (first, d) =
      if-cases IsDescending (leb (size_of c.namespace sizes) (size_of b.namespace sizes))
        (λ h. ((ground arith, All-weaken b c l (ground arith) first), (first, d)))
        λ h. (All-place c b l (ground arith) first, place-IsDescending b l d)

  place-Permᴰ : (b : NamespaceInfo) (l : List NamespaceInfo) → Permᴰ (place sizes b l) (b ∷ l)
  unfolding place
  place-Permᴰ b [] = Permᴰ.refl (b ∷ [])
  place-Permᴰ b (c ∷ l) =
      if-cases (λ x. Permᴰ x (b ∷ c ∷ l))
        (leb (size_of c.namespace sizes) (size_of b.namespace sizes)) (λ _. Permᴰ.refl (b ∷ c ∷ l))
        λ _. Permᴰ.trans (Permᴰ.cons refl (place-Permᴰ b l)) (Permᴰ.swap refl refl)

  sorted_by-IsDescending : (l : List NamespaceInfo) → IsDescending (sorted_by sizes l)
  unfolding sorted_by
  sorted_by-IsDescending [] = tt
  sorted_by-IsDescending (b ∷ l) =
      place-IsDescending b (sorted_by sizes l) (sorted_by-IsDescending l)

  sorted_by-Permᴰ : (l : List NamespaceInfo) → Permᴰ (sorted_by sizes l) l
  unfolding sorted_by
  sorted_by-Permᴰ [] = Permᴰ.nil
  sorted_by-Permᴰ (b ∷ l) =
      Permᴰ.trans (place-Permᴰ b (sorted_by sizes l)) (Permᴰ.cons refl (sorted_by-Permᴰ l))

-- The namespaces to clone are those of the size map, each as often as it is there, and no
-- collection stands behind a smaller one.
pub list_prioritized_namespaces-IsDescending :
    (c : Clone)
    → IsDescending c.size_map (list_prioritized_namespaces c)
      × Permᴰ (list_prioritized_namespaces c) (map info_of c.size_map)
unfolding list_prioritized_namespaces
list_prioritized_namespaces-IsDescending c = (
  sorted_by-IsDescending c.size_map (map info_of c.size_map),
  sorted_by-Permᴰ c.size_map (map info_of c.size_map),
)
