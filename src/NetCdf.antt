-- ===== src/NetCdf.antt =====
-- What the code uses of the NetCDF library (netCDF::NcFile and the classes of its parts), a parameter
-- of the model, and what the code relies on: names are unique in a file and come in their order, and
-- a definition or an attribute that is new is there afterwards, with everything else as it was.
pub mod Model
use monio.Base.{
  ℕ, ◌<◌, ◌≢◌, String, ◌≡◌, List, [], ◌∷◌, none, some, ℤ, if◌then◌else◌, ◌==◌, string_eq,
}
use monio.Result.{Result, ok}
use monio.Values.{Double, Float}
use monio.Container.{DataContainer, doubles, floats, ints}
use monio.Map.{Map, lookup}
use monio.Map.Sorted.{IsSorted}

-- NcFile::FileMode
pub data FileMode : Type 0 where
  read write replace new_file : FileMode

-- NcType::getId() of a variable; the other types are those that the code does not handle, by name.
pub data NcType : Type 0 where
  nc_double nc_float nc_int : NcType
  nc_other : String → NcType

-- NcAtt::getType().getId() of an attribute, with the values that getValues gives in the type that
-- the code asks for.
pub data NcAtt : Type 0 where
  att_char att_string : String → NcAtt
  att_short att_int : List ℤ → NcAtt
  att_float att_double : List Double → NcAtt
  att_other : String → NcAtt

pub record NcVar : Type 0 where
  pub name : String
  pub type : NcType
  pub dims : List (String × ℕ)
  pub atts : Map NcAtt

-- getVar(name).getVar of a variable or of a part of it, given where it starts and how many values it
-- takes along each dimension, and getVar(name).putVar, for one type of values in the memory.
pub record NcValues (N T : Type 0) : Type 0 where
  pub get : N → String → Result (List T)
  pub get_at : N → String → List ℕ → List ℕ → Result (List T)
  pub put : N → String → List T → Result N

-- `N` is an open NcFile with its contents.
pub record NcLibrary (N : Type 0) : Type 0 where
  pub open_nc : String → FileMode → Result N
  -- getDims(), getVars() and getAtts(), as they are iterated
  pub dims : N → Map ℕ
  pub vars : N → Map NcVar
  pub atts : N → Map NcAtt
  -- addDim, addVar with the names of its type and dimensions, putAtt of a variable and of the file
  pub add_dim : N → String → ℕ → Result N
  pub add_var : N → String → String → List String → Result N
  pub put_var_att : N → String → String → NcAtt → Result N
  pub put_att : N → String → NcAtt → Result N
  pub doubles : NcValues N Double
  pub floats : NcValues N Float
  pub ints : NcValues N ℤ

-- The dimensions of a file that a list of names stands for.
abbrev pub resolved : Map ℕ → List String → List (String × ℕ)
resolved dims [] = []
resolved dims (d ∷ names) = elim (lookup d dims) [
  | none ↦ resolved dims names
  | some size ↦ (d, size) ∷ resolved dims names
]

abbrev pub AllDefined : Map ℕ → List String → Type 0
AllDefined dims [] = Unit {0}
AllDefined dims (d ∷ names) = ((size : ℕ) × (lookup d dims ≡ some size)) × AllDefined dims names

-- The names of the types that addVar knows, for those that the code handles.
pub data TypeName : NcType → String → Type 0 where
  double_name : TypeName nc_double "double"
  float_name : TypeName nc_float "float"
  int_name : TypeName nc_int "int"

pub record DefinesNames {N : Type 0} (nc : NcLibrary N) : Type 1 where
  -- The names that the format allows.
  pub IsName : String → Type 0
  pub dims-IsSorted : (n : N) → IsSorted (nc.dims n)
  pub vars-IsSorted : (n : N) → IsSorted (nc.vars n)
  pub atts-IsSorted : (n : N) → IsSorted (nc.atts n)
  pub add_dim-defines :
      (n : N) (name : String) (size : ℕ)
      → IsName name
      → 0 < size
      → lookup name (nc.dims n) ≡ none
      → (n' : N) × (nc.add_dim n name size ≡ ok n')
        × ((k : String)
            → lookup k (nc.dims n') ≡ (if name == k then some size else lookup k (nc.dims n)))
        × (nc.vars n' ≡ nc.vars n)
        × (nc.atts n' ≡ nc.atts n)
  pub add_var-defines :
      (n : N) (name : String) (type : NcType) (type_name : String) (names : List String)
      → IsName name
      → TypeName type type_name
      → AllDefined (nc.dims n) names
      → lookup name (nc.vars n) ≡ none
      → (n' : N) × (nc.add_var n name type_name names ≡ ok n')
        × (nc.dims n' ≡ nc.dims n)
        × ((k : String)
            → lookup k (nc.vars n') ≡ (
                if name == k
                then some (record {
                  name = name;
                  type = type;
                  dims = resolved (nc.dims n) names;
                  atts = [];
                })
                else lookup k (nc.vars n)))
        × (nc.atts n' ≡ nc.atts n)
  pub put_var_att-defines :
      (n : N) (var name : String) (v : NcVar) (a : NcAtt)
      → IsName name
      → lookup var (nc.vars n) ≡ some v
      → lookup name v.atts ≡ none
      → IsSorted v.atts
      → (n' : N) × (v' : NcVar) × (nc.put_var_att n var name a ≡ ok n')
        × (nc.dims n' ≡ nc.dims n)
        × ((k : String)
            → lookup k (nc.vars n') ≡ (if var == k then some v' else lookup k (nc.vars n)))
        × (nc.atts n' ≡ nc.atts n)
        × (v'.name ≡ v.name)
        × (v'.type ≡ v.type)
        × (v'.dims ≡ v.dims)
        × IsSorted v'.atts
        × ((k : String) → lookup k v'.atts ≡ (if name == k then some a else lookup k v.atts))
  pub put_att-defines :
      (n : N) (name : String) (a : NcAtt)
      → IsName name
      → lookup name (nc.atts n) ≡ none
      → (n' : N) × (nc.put_att n name a ≡ ok n')
        × (nc.dims n' ≡ nc.dims n)
        × (nc.vars n' ≡ nc.vars n)
        × ((k : String)
            → lookup k (nc.atts n') ≡ (if name == k then some a else lookup k (nc.atts n)))

-- The call of putVar for a container, and what getVar gives for one.
unfoldable pub put_values : {N : Type 0} → NcLibrary N → N → String → DataContainer → Result N
put_values nc n name (doubles c) = nc.doubles.put n name c.data_vector
put_values nc n name (floats c) = nc.floats.put n name c.data_vector
put_values nc n name (ints c) = nc.ints.put n name c.data_vector

abbrev pub Gives : {N : Type 0} → NcLibrary N → N → String → DataContainer → Type 0
Gives nc n name (doubles c) = nc.doubles.get n name ≡ ok c.data_vector
Gives nc n name (floats c) = nc.floats.get n name ≡ ok c.data_vector
Gives nc n name (ints c) = nc.ints.get n name ≡ ok c.data_vector

-- A variable of the size of a container takes its values, and all others keep theirs.
pub record KeepsValues {N : Type 0} (nc : NcLibrary N) : Type 1 where
  pub Takes : N → String → DataContainer → Type 0
  pub put_values-gives :
      (n : N) (name : String) (c : DataContainer)
      → Takes n name c
      → (n' : N) × (put_values nc n name c ≡ ok n')
        × Gives nc n' name c
        × ((k : String) (d : DataContainer) → Takes n k d → Takes n' k d)
        × ((k : String) (d : DataContainer) → k ≢ name → Gives nc n k d → Gives nc n' k d)
