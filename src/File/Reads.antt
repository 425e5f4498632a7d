-- ===== src/File/Reads.antt =====
-- src/monio/File.cc: the metadata that are read from a file.
pub mod Entries
pub mod Variables
use monio.Base.{string_eq, ℕ, String, not, List, [], ◌∷◌, if◌then◌else◌, to_int32}
use monio.Result.{
  Result, ok, err, ◌>>=◌, undefined_access, variable_type_not_coded, variable_dimension_missing,
  attribute_type_not_coded,
}
use monio.Exec.{Exec, pure, lift, cleaning}
use monio.Exec
use monio.Constants.{DataType}
use monio.Map.{Map}
use monio.Utils.{find_in_vector}
use monio.Variable.{
  Variable, Attribute, attribute_string, attribute_int, attribute_double, attribute_name,
  make_variable, add_attribute,
}
use monio.Variable
use monio.Heap.{Heap, make_shared}
use monio.Metadata.{Metadata, is_dim_defined, add_dimension, add_variable, add_global_attr}
use monio.NetCdf.{
  NcLibrary, NcVar, NcAtt, att_char, att_string, att_short, att_int, att_float, att_double,
  att_other, NcType, nc_double, nc_float, nc_int, nc_other,
}
use monio.File.{File, close, get_file, reading}

-- The loop of readDimensions; a size becomes an int.
unfoldable pub read_dims : Map ℕ → Metadata → Metadata
read_dims [] m = m
read_dims ((name, size) ∷ dims) m = read_dims dims (add_dimension m name (to_int32 size))

-- The switch over the type of a variable.
unfoldable pub variable_type : NcType → Result DataType
variable_type nc_double = ok DataType.double
variable_type nc_float = ok DataType.float
variable_type nc_int = ok DataType.int
variable_type (nc_other name) = err (variable_type_not_coded name)

-- The one value that getValues has room for; any other number of values is read or written past it.
unfoldable pub single : {T : Type 0} → List T → Result T
single (v ∷ []) = ok v
single _ = err undefined_access

-- The switch over the type of an attribute.
unfoldable pub read_attribute : String → NcAtt → Result Attribute
unfolding single
read_attribute name (att_char text) = ok (attribute_string name text)
read_attribute name (att_string text) = ok (attribute_string name text)
read_attribute name (att_int values) = single values >>= λ v. ok (attribute_int name v)
read_attribute name (att_short values) = single values >>= λ v. ok (attribute_int name v)
read_attribute name (att_float values) = single values >>= λ v. ok (attribute_double name v)
read_attribute name (att_double values) = single values >>= λ v. ok (attribute_double name v)
read_attribute name (att_other type) = err (attribute_type_not_coded type)

unfoldable pub read_variable_dims : Metadata → List (String × ℕ) → Variable → Result Variable
read_variable_dims m [] v = ok v
read_variable_dims m ((name, size) ∷ dims) v =
    (if not (is_dim_defined m name)
      then err (variable_dimension_missing name)
      else Variable.add_dimension v name size)
    >>= λ sized. read_variable_dims m dims sized

unfoldable pub read_variable_atts : Map NcAtt → Variable → Result Variable
read_variable_atts [] v = ok v
read_variable_atts ((name, a) ∷ atts) v =
    (read_attribute name a >>= λ attr. add_attribute v attr) >>= λ u. read_variable_atts atts u

-- readVariable
unfoldable pub read_variable : Heap → Metadata → NcVar → Result (Heap × Metadata)
unfolding variable_type read_variable_dims read_variable_atts
read_variable h m nc_var = do
  type ← variable_type nc_var.type
  sized ← read_variable_dims m nc_var.dims (make_variable nc_var.name type)
  v ← read_variable_atts nc_var.atts sized
  let (p, h') = make_shared h v
  ok (h', add_variable m v.name p)

unfoldable pub read_vars : Map NcVar → Heap → Metadata → Result (Heap × Metadata)
unfolding read_variable
read_vars [] h m = ok (h, m)
read_vars ((key, nc_var) ∷ vars) h m =
    read_variable h m nc_var >>= λ read. read_vars vars read.0 read.1

-- The loop of the readVariables that takes the names of the variables to read.
unfoldable pub read_vars_of : List String → Map NcVar → Heap → Metadata → Result (Heap × Metadata)
unfolding read_variable
read_vars_of names [] h m = ok (h, m)
read_vars_of names ((key, nc_var) ∷ vars) h m =
    (if find_in_vector names nc_var.name then read_variable h m nc_var else ok (h, m)) >>= λ read.
    read_vars_of names vars read.0 read.1

-- The loop of readAttributes.
unfoldable pub read_atts : Map NcAtt → Metadata → Result Metadata
unfolding read_attribute
read_atts [] m = ok m
read_atts ((name, a) ∷ atts) m =
    read_attribute name a >>= λ attr. read_atts atts (add_global_attr m (attribute_name attr) attr)

module _ {N : Type 0} (nc : NcLibrary N) where
  unfoldable pub read_dimensions : Metadata → Exec (File N) Metadata
  unfolding reading get_file read_dims
  read_dimensions m = reading (Exec.◌>>=◌ get_file (λ n. pure (read_dims (nc.dims n) m)))

  -- readVariable closes the file before it throws, or the call that throws in it does.
  unfoldable pub read_variables : Heap → Metadata → Exec (File N) (Heap × Metadata)
  unfolding reading get_file read_vars
  read_variables h m =
      reading (Exec.◌>>=◌ get_file (λ n. cleaning close (read_vars (nc.vars n) h m)))

  unfoldable pub read_variables_of : Heap → Metadata → List String → Exec (File N) (Heap × Metadata)
  unfolding reading get_file read_vars_of
  read_variables_of h m names =
      reading (Exec.◌>>=◌ get_file (λ n. cleaning close (read_vars_of names (nc.vars n) h m)))

  unfoldable pub read_attributes : Metadata → Exec (File N) Metadata
  unfolding reading get_file read_atts
  read_attributes m = reading (Exec.◌>>=◌ get_file (λ n. cleaning close (read_atts (nc.atts n) m)))

  -- readMetadata, of all variables and of some.
  unfoldable pub read_metadata : Heap → Metadata → Exec (File N) (Heap × Metadata)
  unfolding read_dimensions read_variables read_attributes
  read_metadata h m = reading (
      Exec.◌>>=◌ (read_dimensions m) (λ sized.
        Exec.◌>>=◌ (read_variables h sized)
          (λ read. Exec.◌>>=◌ (read_attributes read.1) (λ attributed. pure (read.0, attributed)))))

  unfoldable pub read_metadata_of : Heap → Metadata → List String → Exec (File N) (Heap × Metadata)
  unfolding read_dimensions read_variables_of read_attributes
  read_metadata_of h m names = reading (
      Exec.◌>>=◌ (read_dimensions m) (λ sized.
        Exec.◌>>=◌ (read_variables_of h sized names)
          (λ read. Exec.◌>>=◌ (read_attributes read.1) (λ attributed. pure (read.0, attributed)))))
