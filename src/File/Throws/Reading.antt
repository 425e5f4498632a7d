-- ===== src/File/Throws/Reading.antt =====
-- src/monio/File.cc: the errors of the calls that read metadata.
use monio.Base.{string_eq, ℕ, String, not, List, [], ◌∷◌, ◌≡◌, refl, false, pos}
use monio.Result.{
  Error, closes_files, undefined_access, variable_type_not_coded, variable_dimension_missing,
  attribute_type_not_coded, dimension_defined, attribute_defined, file_not_initialised,
  vector_length,
}
use monio.Exec.Fails.{
  Fails, Fails-ok, Fails-err, Fails-if, Fails-bind, ExecFails, ExecFails-pure, ◌>>>◌,
  ExecFails-cleaning,
}
use monio.Values.{zero_double, zero_float}
use monio.Map.{Map, contains}
use monio.Variable.{
  Variable, Attribute, attribute_string, attribute_int, attribute_double, attribute_name,
  make_variable, add_attribute, has_dimension,
}
use monio.Variable
use monio.Heap.{Heap}
use monio.Metadata.{Metadata, is_dim_defined, add_global_attr}
use monio.NetCdf.{
  NcLibrary, NcVar, NcAtt, att_char, att_string, att_short, att_int, att_float, att_double,
  att_other, NcType, nc_double, nc_float, nc_int, nc_other, FileMode,
}
use monio.Reader.Closing as ReaderClosing
use monio.File.{close}
use monio.File.Reads.{
  read_dims, variable_type, single, read_attribute, read_variable_dims, read_variable_atts,
  read_variable, read_vars, read_atts, read_dimensions, read_variables, read_attributes,
  read_metadata,
}
use monio.File.Calls.{file_reads}
use monio.File.Throws.{
  IsOfFile, ThrowsNc, get_file-Fails, reading-Fails, read_single_datum-Fails,
  read_field_datum-Fails, open_file-Fails,
}

-- The error is one of File.cc, or Monio closes its files where it is thrown.
abbrev IsLeft : Error → Type 0
IsLeft e = closes_files e ≡ false → IsOfFile e

left : (e : Error) → IsOfFile e → IsLeft e
left e h stays = h

single-Fails : {T : Type 0} (values : List T) → Fails IsLeft (single values)
unfolding single
single-Fails [] = Fails-err undefined_access (λ p. refl)
single-Fails (v ∷ []) = Fails-ok v
single-Fails (v ∷ w ∷ values) = Fails-err undefined_access (λ p. refl)

variable_type-Fails : (type : NcType) → Fails IsLeft (variable_type type)
unfolding variable_type
variable_type-Fails nc_double = Fails-ok _
variable_type-Fails nc_float = Fails-ok _
variable_type-Fails nc_int = Fails-ok _
variable_type-Fails (nc_other name) = Fails-err (variable_type_not_coded name) (λ p. refl)

read_attribute-Fails : (name : String) (a : NcAtt) → Fails IsLeft (read_attribute name a)
unfolding read_attribute
read_attribute-Fails name (att_char text) = Fails-ok _
read_attribute-Fails name (att_string text) = Fails-ok _
read_attribute-Fails name (att_int values) = Fails-bind _ _ (single-Fails values) (λ v. Fails-ok _)
read_attribute-Fails name (att_short values) =
    Fails-bind _ _ (single-Fails values) (λ v. Fails-ok _)
read_attribute-Fails name (att_float values) =
    Fails-bind _ _ (single-Fails values) (λ v. Fails-ok _)
read_attribute-Fails name (att_double values) =
    Fails-bind _ _ (single-Fails values) (λ v. Fails-ok _)
read_attribute-Fails name (att_other type) = Fails-err (attribute_type_not_coded type) (λ p. refl)

add_dimension-Fails :
    (v : Variable) (name : String) (size : ℕ) → Fails IsLeft (Variable.add_dimension v name size)
unfolding Variable.add_dimension closes_files
add_dimension-Fails v name size =
    Fails-if (has_dimension name v.dimensions) _ _
      (Fails-err (dimension_defined name) (λ p. absurd cc)) (Fails-ok _)

add_attribute-Fails : (v : Variable) (a : Attribute) → Fails IsLeft (add_attribute v a)
unfolding add_attribute closes_files
add_attribute-Fails v a =
    Fails-if (contains (attribute_name a) v.attributes) _ _
      (Fails-err (attribute_defined (attribute_name a)) (λ p. absurd cc)) (Fails-ok _)

read_variable_dims-Fails :
    (m : Metadata) (dims : List (String × ℕ)) (v : Variable)
    → Fails IsLeft (read_variable_dims m dims v)
unfolding read_variable_dims
read_variable_dims-Fails m [] v = Fails-ok v
read_variable_dims-Fails m ((name, size) ∷ dims) v =
    Fails-bind _ _
      (Fails-if (not (is_dim_defined m name)) _ _
        (Fails-err (variable_dimension_missing name) (λ p. refl)) (add_dimension-Fails v name size))
      (λ sized. read_variable_dims-Fails m dims sized)

read_variable_atts-Fails :
    (atts : Map NcAtt) (v : Variable) → Fails IsLeft (read_variable_atts atts v)
unfolding read_variable_atts
read_variable_atts-Fails [] v = Fails-ok v
read_variable_atts-Fails ((name, a) ∷ atts) v =
    Fails-bind _ _
      (Fails-bind _ _ (read_attribute-Fails name a) (λ attr. add_attribute-Fails v attr))
      (λ u. read_variable_atts-Fails atts u)

read_variable-Fails :
    (h : Heap) (m : Metadata) (nc_var : NcVar) → Fails IsLeft (read_variable h m nc_var)
unfolding read_variable
read_variable-Fails h m nc_var = Fails-bind _ _ (variable_type-Fails nc_var.type) (λ type.
    Fails-bind _ _ (read_variable_dims-Fails m nc_var.dims (make_variable nc_var.name type))
      (λ sized. Fails-bind _ _ (read_variable_atts-Fails nc_var.atts sized) (λ v. Fails-ok _)))

read_vars-Fails : (vars : Map NcVar) (h : Heap) (m : Metadata) → Fails IsLeft (read_vars vars h m)
unfolding read_vars
read_vars-Fails [] h m = Fails-ok _
read_vars-Fails ((key, nc_var) ∷ vars) h m =
    Fails-bind _ _ (read_variable-Fails h m nc_var) (λ read. read_vars-Fails vars read.0 read.1)

read_atts-Fails : (atts : Map NcAtt) (m : Metadata) → Fails IsLeft (read_atts atts m)
unfolding read_atts
read_atts-Fails [] m = Fails-ok m
read_atts-Fails ((name, a) ∷ atts) m =
    Fails-bind _ _ (read_attribute-Fails name a)
      (λ attr. read_atts-Fails atts (add_global_attr m (attribute_name attr) attr))

module _ {N : Type 0} (nc : NcLibrary N) where
  read_metadata-Fails : (h : Heap) (m : Metadata) → ExecFails IsLeft (read_metadata nc h m)
  unfolding read_metadata read_dimensions read_variables read_attributes
  read_metadata-Fails h m = reading-Fails IsLeft left _ (
      reading-Fails IsLeft left _
        (get_file-Fails IsLeft left >>> λ n. ExecFails-pure (read_dims (nc.dims n) m))
      >>> λ sized.
          reading-Fails IsLeft left _ (
            get_file-Fails IsLeft left >>> λ n.
            ExecFails-cleaning close (read_vars (nc.vars n) h sized)
              (read_vars-Fails (nc.vars n) h sized))
          >>> λ read.
              reading-Fails IsLeft left _ (
                get_file-Fails IsLeft left >>> λ n.
                ExecFails-cleaning close (read_atts (nc.atts n) read.1)
                  (read_atts-Fails (nc.atts n) read.1))
              >>> λ attributed. ExecFails-pure (read.0, attributed))

  -- What the reader asks of File, where the std::length_error of setSize is allowed: every error of its calls is one of File.cc, or of those of
  -- readMetadata one that closes the files of Monio.
  pub file_reads-FailsOutside :
      (Outside : Error → Type 0)
      → ((e : Error) → IsOfFile e → Outside e)
      → Outside vector_length
      → ThrowsNc nc
      → ReaderClosing.FailsOutside (file_reads nc) Outside
  file_reads-FailsOutside Outside outside length throws = record {
    not_open = outside file_not_initialised refl;
    undefined = outside undefined_access refl;
    length = length;
    on_open = λ path e p. outside e ((open_file-Fails nc path FileMode.read).on e p);
    on_metadata = λ f h m e p q. outside e (((read_metadata-Fails h m).at f).on e p q);
    on_doubles = λ f n z e p. outside e (
        ((read_single_datum-Fails IsOfFile (λ e h. h) nc.doubles throws.on_doubles zero_double n
              z).at
            f).on
          e p);
    on_floats = λ f n z e p. outside e (
        ((read_single_datum-Fails IsOfFile (λ e h. h) nc.floats throws.on_floats zero_float n z).at
            f).on
          e p);
    on_ints = λ f n z e p. outside e (
        ((read_single_datum-Fails IsOfFile (λ e h. h) nc.ints throws.on_ints (pos 0) n z).at f).on e
          p);
    on_doubles_at = λ f n a b z e p. outside e (
        ((read_field_datum-Fails IsOfFile (λ e h. h) nc.doubles throws.on_doubles zero_double n a b
              z).at
            f).on
          e p);
    on_floats_at = λ f n a b z e p. outside e (
        ((read_field_datum-Fails IsOfFile (λ e h. h) nc.floats throws.on_floats zero_float n a b
              z).at
            f).on
          e p);
    on_ints_at = λ f n a b z e p. outside e (
        ((read_field_datum-Fails IsOfFile (λ e h. h) nc.ints throws.on_ints (pos 0) n a b z).at
            f).on
          e p);
  }
