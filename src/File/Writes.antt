-- ===== src/File/Writes.antt =====
-- src/monio/File.cc: the metadata that are written to a file.
pub mod Entries
pub mod Variables
use monio.Base.{ℕ, String, [], ◌∷◌, ℤ, if◌then◌else◌, to_size}
use monio.Exec.{Exec, pure, ◌>>=◌, lift}
use monio.Constants.{data_type_name}
use monio.Map.{Map, contains}
use monio.Variable.{
  Variable, Attribute, attribute_string, attribute_int, attribute_double, attribute_name,
  get_dimension_names,
}
use monio.Heap.{Heap, Pointer, deref}
use monio.Metadata.{Metadata}
use monio.NetCdf.{NcLibrary, NcVar, NcAtt, att_char, att_int, att_double}
use monio.File.{File, get_file, writing, on_nc}

-- What putAtt is given for an attribute of each class.
unfoldable pub written_att : Attribute → NcAtt
written_att (attribute_double name value) = att_double (value ∷ [])
written_att (attribute_int name value) = att_int (value ∷ [])
written_att (attribute_string name value) = att_char value

module _ {N : Type 0} (nc : NcLibrary N) where
  -- The loop of writeDimensions: those that the file had before are left as they are.
  unfoldable pub write_dims : Map ℕ → Map ℤ → Exec (File N) (Unit {0})
  unfolding on_nc
  write_dims defined [] = pure tt
  write_dims defined ((name, value) ∷ dims) =
      (if contains name defined then pure tt else on_nc (λ n. nc.add_dim n name (to_size value)))
      >>= λ _. write_dims defined dims

  unfoldable pub write_dimensions : Metadata → Exec (File N) (Unit {0})
  unfolding writing get_file write_dims
  write_dimensions m = writing (get_file >>= λ n. write_dims (nc.dims n) m.dimensions)

  -- The attributes of a variable, in the order of their names.
  unfoldable pub write_variable_atts : String → Map Attribute → Exec (File N) (Unit {0})
  unfolding on_nc written_att
  write_variable_atts var [] = pure tt
  write_variable_atts var ((key, a) ∷ atts) =
      on_nc (λ n. nc.put_var_att n var (attribute_name a) (written_att a)) >>= λ _.
      write_variable_atts var atts

  unfoldable pub write_variable : Variable → Exec (File N) (Unit {0})
  unfolding on_nc write_variable_atts
  write_variable v =
      on_nc (λ n. nc.add_var n v.name (data_type_name v.type) (get_dimension_names v)) >>= λ _.
      write_variable_atts v.name v.attributes

  -- The loop of writeVariables.
  unfoldable pub write_vars : Heap → Map NcVar → Map Pointer → Exec (File N) (Unit {0})
  unfolding write_variable
  write_vars h defined [] = pure tt
  write_vars h defined ((name, p) ∷ vars) =
      (if contains name defined then pure tt else (lift (deref h p) >>= write_variable)) >>= λ _.
      write_vars h defined vars

  unfoldable pub write_variables : Heap → Metadata → Exec (File N) (Unit {0})
  unfolding writing get_file write_vars
  write_variables h m = writing (get_file >>= λ n. write_vars h (nc.vars n) m.variables)

  -- The loop of writeAttributes.
  unfoldable pub write_atts : Map NcAtt → Map Attribute → Exec (File N) (Unit {0})
  unfolding on_nc written_att
  write_atts defined [] = pure tt
  write_atts defined ((name, a) ∷ atts) =
      (if contains name defined
        then pure tt
        else on_nc (λ n. nc.put_att n (attribute_name a) (written_att a)))
      >>= λ _. write_atts defined atts

  unfoldable pub write_attributes : Metadata → Exec (File N) (Unit {0})
  unfolding writing get_file write_atts
  write_attributes m = writing (get_file >>= λ n. write_atts (nc.atts n) m.global_attrs)

  unfoldable pub write_metadata : Heap → Metadata → Exec (File N) (Unit {0})
  unfolding writing write_dimensions write_variables write_attributes
  write_metadata h m =
      writing (write_dimensions m >>= λ _. write_variables h m >>= λ _. write_attributes m)
