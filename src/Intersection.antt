-- ===== src/Intersection.antt =====
-- `TwoPointerIntersection` of indexer-lib/src/database/util.rs. The iterator is modelled by the list
-- that collecting it gives.
pub mod Members
use local_rusty_indexer_poc.Prelude.{
  ◌≡◌, refl, ap, Bool, true, false, List, [], ◌∷◌, map, retain, All, Result, ok, err, if◌then◌else◌,
}

-- `std::cmp::Ordering`
pub data Ordering : Type 0 where
  less equal greater : Ordering

module _ {K V : Type 0} (cmp : K → K → Ordering) where
  unfoldable pub intersect : List (Result (K × V)) → List K → List (Result (K × V))
  intersect [] right = []
  intersect (l ∷ left) [] = []
  intersect (err e ∷ left) (k ∷ right) = err e ∷ intersect left (k ∷ right)
  intersect (ok (j, v) ∷ left) (k ∷ right) = elim (cmp j k) [
    | equal ↦ ok (j, v) ∷ intersect left right
    | less ↦ intersect left (k ∷ right)
    | greater ↦ intersect (ok (j, v) ∷ left) right
  ]
