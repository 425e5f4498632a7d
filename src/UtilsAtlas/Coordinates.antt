-- ===== src/UtilsAtlas/Coordinates.antt =====
-- createLfricAtlasMap gives the maps that populateField and populateDataVec need.
use monio.Base.{
  ℕ, suc, ◌≡◌, refl, subst, ◌∙◌, ap, sym, List, [], ◌∷◌, some, length, get_elem?, lt_of_get_elem?,
  ==_iff, nat_eq,
}
use monio.Result.{ok}
use monio.UtilsAtlas.{PointLonLat, closest_indices, create_lfric_atlas_map}
use monio.AtlasReader.Populate.{AllBelow}
use monio.AtlasWriter.Columns.{NotIn, Distinct}

module _ (closest : List PointLonLat → PointLonLat → ℕ) (near : PointLonLat → PointLonLat → Type 0)
    (atlas_coords : List PointLonLat) where
  -- The tree returns for each point a point of the grid that is near to it.
  abbrev pub FindsNear : List PointLonLat → Type 0
  FindsNear [] = Unit {0}
  FindsNear (c ∷ coords) =
      ((a : PointLonLat) × (get_elem? atlas_coords (closest atlas_coords c) ≡ some a) × near a c)
      × FindsNear coords

  -- No point is near to `c` and to one of the points.
  abbrev pub ApartFrom : PointLonLat → List PointLonLat → Type 0
  ApartFrom c [] = Unit {0}
  ApartFrom c (d ∷ coords) = ((a : PointLonLat) → near a c → near a d → ⊥) × ApartFrom c coords

  abbrev pub Apart : List PointLonLat → Type 0
  Apart [] = Unit {0}
  Apart (c ∷ coords) = ApartFrom c coords × Apart coords

  length-closest_indices :
      (coords : List PointLonLat)
      → length (closest_indices closest atlas_coords coords) ≡ length coords
  unfolding closest_indices
  length-closest_indices [] = refl
  length-closest_indices (c ∷ coords) = ap suc (length-closest_indices coords)

  closest_indices-AllBelow :
      (coords : List PointLonLat)
      → FindsNear coords
      → AllBelow (length atlas_coords) (closest_indices closest atlas_coords coords)
  unfolding closest_indices
  closest_indices-AllBelow [] n = tt
  closest_indices-AllBelow (c ∷ coords) n =
      let ((a, there, close), rest) = n in
      (
        lt_of_get_elem? atlas_coords (closest atlas_coords c) a there,
        closest_indices-AllBelow coords rest,
      )

  closest_indices-NotIn :
      (c a : PointLonLat) (coords : List PointLonLat)
      → get_elem? atlas_coords (closest atlas_coords c) ≡ some a
      → near a c
      → ApartFrom c coords
      → FindsNear coords
      → NotIn (closest atlas_coords c) (closest_indices closest atlas_coords coords)
  unfolding closest_indices
  closest_indices-NotIn c a [] there close apart n = tt
  closest_indices-NotIn c a (d ∷ coords) there close apart n =
      let ((b, there', close'), rest) = n in
      (
        (λ p. let same : b ≡ a = cc in apart.0 a close (subst (λ x. near x d) same close')),
        closest_indices-NotIn c a coords there close apart.1 rest,
      )

  closest_indices-Distinct :
      (coords : List PointLonLat)
      → FindsNear coords
      → Apart coords
      → Distinct (closest_indices closest atlas_coords coords)
  unfolding closest_indices
  closest_indices-Distinct [] n a = tt
  closest_indices-Distinct (c ∷ coords) n apart =
      let ((a, there, close), rest) = n in
      (
        closest_indices-NotIn c a coords there close apart.0 rest,
        closest_indices-Distinct coords rest apart.1,
      )

  abbrev pub MapsColumns : List PointLonLat → Type 0
  MapsColumns lfric_coords =
      (map : List ℕ) × (create_lfric_atlas_map closest atlas_coords lfric_coords ≡ ok map)
      × (length map ≡ length lfric_coords)
      × AllBelow (length map) map
      × Distinct map

  -- For a grid with as many points as the file, where the tree finds a grid point near to each point
  -- of the file and no grid point is near to two of them, createLfricAtlasMap succeeds, and its map
  -- sends the columns to distinct columns.
  pub create_lfric_atlas_map-Distinct :
      (lfric_coords : List PointLonLat)
      → length atlas_coords ≡ length lfric_coords
      → FindsNear lfric_coords
      → Apart lfric_coords
      → MapsColumns lfric_coords
  unfolding create_lfric_atlas_map
  create_lfric_atlas_map-Distinct lfric_coords same n apart =
      let map = closest_indices closest atlas_coords lfric_coords in
      let size = length-closest_indices lfric_coords in
      let all : length map ≡ length atlas_coords = size ∙ sym same in
      (
        map,
        rw ((==_iff (length atlas_coords) (length lfric_coords)).1 same),
        size,
        rw all (closest_indices-AllBelow lfric_coords n),
        closest_indices-Distinct lfric_coords n apart,
      )
