-- ===== src/Container.antt =====
-- The classes DataContainerDouble, DataContainerFloat and DataContainerInt over DataContainerBase:
-- a name and a vector of values. The three are one text over three types of values.
pub mod Datum
use monio.Base.{
  ℕ, zero, suc, String, List, [], ◌∷◌, ◌++◌, Option, none, some, ℤ, pos, length, get_elem?, set,
  ltb, if◌then◌else◌,
}
use monio.Result.{Result, ok, err, datum_index, undefined_access}
use monio.Constants.{DataType}
use monio.Values.{Double, Float}

pub record Container (T : Type 0) : Type 0 where
  pub name : String
  pub data_vector : List T

module _ {T : Type 0} where
  -- The constructor.
  unfoldable pub make_container : String → Container T
  make_container name = record { name = name; data_vector = [] }

  -- std::vector::operator[] reads without a check of its own.
  pub element : List T → ℕ → Result T
  element values index = elim (get_elem? values index) [
    | none ↦ err undefined_access
    | some v ↦ ok v
  ]

  unfoldable pub get_datum : Container T → ℕ → Result T
  unfolding element
  get_datum c index =
      if ltb (length c.data_vector) index then err datum_index else element c.data_vector index

  unfoldable pub set_data : Container T → List T → Container T
  set_data c values = record c { data_vector = values }

  unfoldable pub set_datum_at : Container T → ℕ → T → Result (Container T)
  set_datum_at c index datum =
      if ltb index (length c.data_vector)
      then ok (record c { data_vector = set c.data_vector index datum })
      else err undefined_access

  unfoldable pub set_datum : Container T → T → Container T
  set_datum c datum = record c { data_vector = c.data_vector ++ datum ∷ [] }

  -- std::vector::resize, with the value that new elements get.
  unfoldable pub resize : T → ℕ → List T → List T
  resize filler zero values = []
  resize filler (suc n) [] = filler ∷ resize filler n []
  resize filler (suc n) (v ∷ values) = v ∷ resize filler n values

  unfoldable pub set_size : T → Container T → ℕ → Container T
  unfolding resize
  set_size filler c size = record c { data_vector = resize filler size c.data_vector }

  unfoldable pub clear : Container T → Container T
  clear c = record c { data_vector = [] }

-- A pointer to DataContainerBase: one of the three classes. `type_` is given by the class.
pub data DataContainer : Type 0 where
  doubles : Container Double → DataContainer
  floats : Container Float → DataContainer
  ints : Container ℤ → DataContainer

unfoldable pub get_name : DataContainer → String
get_name (doubles c) = c.name
get_name (floats c) = c.name
get_name (ints c) = c.name

unfoldable pub get_type : DataContainer → DataType
get_type (doubles c) = DataType.double
get_type (floats c) = DataType.float
get_type (ints c) = DataType.int
