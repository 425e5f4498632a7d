-- ===== src/UtilsAtlas.antt =====
-- src/monio/UtilsAtlas.cc: sizes and types of fields, coordinates, the map from LFRic to Atlas order.
-- atlas::idx_t is a 32-bit int; a size beyond it is undefined, as the overflow of a signed int is.
-- getAtlasCoords and getGlobalField are calls of Atlas only, and are not modelled.
pub mod Sizes
pub mod Coordinates
pub mod Comparison
use monio.Base.{
  ℕ, zero, suc, ◌*◌, ◌^◌, String, Bool, true, false, List, [], ◌∷◌, Option, none, some, ℤ, pos,
  length, get_elem?, if◌then◌else◌, ◌==◌, nat_eq, int_eq, ltb, not,
}
use monio.Result.{
  Result, ok, err, ◌>>=◌, ◌>>◌, throw_if, data_type_not_coded, incompatible_grid, coordinate_axes,
  undefined_access,
}
use monio.Constants.{DataType}
use monio.Values.{Double, Float, double_eq, widen}
use monio.Atlas.{ArrayView, view_get}
use monio.Atlas.Fields.{FieldLibrary, Kind, kind_int32, kind_real32, kind_real64, kind_other}
use monio.Container.{Container, DataContainer, doubles, floats, ints, make_container, set_datum}

-- An atlas::idx_t that does not overflow.
unfoldable pub idx : ℕ → Result ℕ
idx n = if ltb n (2 ^ 31) then ok n else err undefined_access

-- The loop of getHorizontalSize, downwards from the index before `i`.
unfoldable pub size_below : List ℤ → ℕ → ℕ
size_below ghost zero = 0
size_below ghost (suc i) =
    let lower = size_below ghost i in
    elim (get_elem? ghost i) [ none ↦ lower | some flag ↦ if flag == pos 0 then suc i else lower ]

unfoldable pub atlas_type_to_monio_enum : Kind → Result DataType
atlas_type_to_monio_enum kind_int32 = ok DataType.int
atlas_type_to_monio_enum kind_real32 = ok DataType.float
atlas_type_to_monio_enum kind_real64 = ok DataType.double
atlas_type_to_monio_enum kind_other = err data_type_not_coded

module _ {F : Type 0} (atlas : FieldLibrary F) where
  unfoldable pub get_horizontal_size : F → ℕ
  unfolding size_below
  get_horizontal_size f = size_below (atlas.ghost f) (length (atlas.ghost f))

  -- getGlobalDataSize, for the two dimensions of a field.
  unfoldable pub get_global_data_size : F → Result ℕ
  unfolding idx
  get_global_data_size f = idx (atlas.columns f * atlas.levels f)

  -- One level of compareFields: `count` columns from column `i`.
  pub same_columns : F → F → ℕ → ℕ → ℕ → Result Bool
  same_columns a b j i zero = ok true
  same_columns a b j i (suc count) = do
    v ← view_get atlas.doubles a i j
    w ← view_get atlas.doubles b i j
    if not (double_eq v w) then ok false else same_columns a b j (suc i) count

  pub same_levels : F → F → ℕ → ℕ → Result Bool
  same_levels a b j zero = ok true
  same_levels a b j (suc count) = do
    same ← same_columns a b j 0 (atlas.columns a)
    if same then same_levels a b (suc j) count else ok false

  unfoldable pub compare_fields : F → F → Result Bool
  unfolding same_levels same_columns
  compare_fields a b =
      atlas.make_view kind_real64 a
      >> atlas.make_view kind_real64 b
      >> same_levels a b 0 (atlas.levels a)

module _ {F : Type 0} (atlas : FieldLibrary F) (field_of : String → Result F) where
  -- compareFieldSets. `field_of` is the operator[] of the second set: its field of a name.
  unfoldable pub compare_field_sets : List F → Result Bool
  unfolding compare_fields
  compare_field_sets [] = ok true
  compare_field_sets (a ∷ fields) = do
    b ← field_of (atlas.name a)
    same ← compare_fields atlas a b
    if same then compare_field_sets fields else ok false

-- atlas::PointLonLat, with the coordinates as doubles.
pub record PointLonLat : Type 0 where
  pub lon : Double
  pub lat : Double

-- The loop of convertLatLonToContainers.
unfoldable pub add_coords :
    List PointLonLat → Container Double → Container Double → Container Double × Container Double
add_coords [] lon lat = (lon, lat)
add_coords (p ∷ points) lon lat = add_coords points (set_datum lon p.lon) (set_datum lat p.lat)

-- convertLatLonToContainers, for the names of the two axes.
unfoldable pub convert_lat_lon_to_containers :
    List PointLonLat → String → String → List DataContainer
unfolding add_coords
convert_lat_lon_to_containers points lon_name lat_name =
    let (lon, lat) = add_coords points (make_container lon_name) (make_container lat_name) in
    doubles lon ∷ doubles lat ∷ []

-- The iteration over both axes, as long as there are longitudes.
unfoldable pub pair_coords : List Float → List Float → Result (List PointLonLat)
pair_coords [] lats = ok []
pair_coords (lon ∷ lons) [] = err undefined_access
pair_coords (lon ∷ lons) (lat ∷ lats) = do
  points ← pair_coords lons lats
  ok (record { lon = widen lon; lat = widen lat } ∷ points)

float_data : DataContainer → Result (List Float)
float_data (floats c) = ok c.data_vector
float_data (doubles c) = err data_type_not_coded
float_data (ints c) = err data_type_not_coded

unfoldable pub get_lfric_coords : List DataContainer → Result (List PointLonLat)
unfolding pair_coords float_data
get_lfric_coords (lon ∷ lat ∷ []) = do
  lons ← float_data lon
  lats ← float_data lat
  pair_coords lons lats
get_lfric_coords _ = err coordinate_axes

module _ (closest : List PointLonLat → PointLonLat → ℕ) where
  unfoldable pub closest_indices : List PointLonLat → List PointLonLat → List ℕ
  closest_indices atlas_coords [] = []
  closest_indices atlas_coords (c ∷ coords) =
      closest atlas_coords c ∷ closest_indices atlas_coords coords

  -- createLfricAtlasMap. `closest` is the k-d tree of Atlas over the unit sphere: the index of the
  -- point closest to another.
  unfoldable pub create_lfric_atlas_map : List PointLonLat → List PointLonLat → Result (List ℕ)
  unfolding closest_indices
  create_lfric_atlas_map atlas_coords lfric_coords = do
    throw_if (not (length atlas_coords == length lfric_coords)) incompatible_grid
    ok (closest_indices atlas_coords lfric_coords)
