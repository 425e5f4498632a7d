-- ===== src/File/Throws/Writing.antt =====
-- src/monio/File.cc: the errors of the calls that write.
use monio.Base.{ℕ, String, [], ◌∷◌, ℤ, to_size, refl, subst}
use monio.Result.{Result, ok, err, Error, file_not_initialised}
use monio.Exec.Fails.{
  Fails, Fails-err, Fails-ok, ExecFails, ExecFails-lift, ExecFails-pure, ExecFails-if, ◌>>>◌,
}
use monio.Constants.{data_type_name}
use monio.Map.{Map, contains}
use monio.Variable.{Variable, Attribute, attribute_name, get_dimension_names}
use monio.Heap.{Heap, Pointer, deref, deref-eq-err}
use monio.Metadata.{Metadata}
use monio.NetCdf.{NcLibrary, NcVar, NcAtt, FileMode}
use monio.Writer.Closing as WriterClosing
use monio.File.Writes.{
  written_att, write_dims, write_dimensions, write_variable_atts, write_variable, write_vars,
  write_variables, write_atts, write_attributes, write_metadata,
}
use monio.File.Calls.{file_writes, left}
use monio.File.Throws.{
  IsOfFile, ThrowsNc, get_file-Fails, writing-Fails, on_nc-Fails, write_single_datum-Fails,
  open_file-Fails,
}

same : (e : Error) → IsOfFile e → IsOfFile e
same e h = h

left-Fails : {S A : Type 0} (r : Result A) (s : S) → Fails IsOfFile r → Fails IsOfFile (left (r, s))
left-Fails (ok a) s h = Fails-ok s
left-Fails (err x) s h = Fails-err x (h.on x (cc))

module _ {N : Type 0} (nc : NcLibrary N) (throws : ThrowsNc nc) where
  write_dims-Fails :
      (defined : Map ℕ) (dims : Map ℤ) → ExecFails IsOfFile (write_dims nc defined dims)
  unfolding write_dims
  write_dims-Fails defined [] = ExecFails-pure tt
  write_dims-Fails defined ((name, value) ∷ dims) =
      ExecFails-if (contains name defined) _ _ (ExecFails-pure tt) (
        on_nc-Fails IsOfFile same (λ n. nc.add_dim n name (to_size value))
          (λ n. throws.on_add_dim n name (to_size value)))
      >>> λ done. write_dims-Fails defined dims

  write_variable_atts-Fails :
      (var : String) (atts : Map Attribute) → ExecFails IsOfFile (write_variable_atts nc var atts)
  unfolding write_variable_atts
  write_variable_atts-Fails var [] = ExecFails-pure tt
  write_variable_atts-Fails var ((key, a) ∷ atts) =
      on_nc-Fails IsOfFile same (λ n. nc.put_var_att n var (attribute_name a) (written_att a))
        (λ n. throws.on_put_var_att n var (attribute_name a) (written_att a))
      >>> λ done. write_variable_atts-Fails var atts

  write_variable-Fails : (v : Variable) → ExecFails IsOfFile (write_variable nc v)
  unfolding write_variable
  write_variable-Fails v =
      on_nc-Fails IsOfFile same
        (λ n. nc.add_var n v.name (data_type_name v.type) (get_dimension_names v))
        (λ n. throws.on_add_var n v.name (data_type_name v.type) (get_dimension_names v))
      >>> λ done. write_variable_atts-Fails v.name v.attributes

  deref-Fails : (h : Heap) (p : Pointer) → Fails IsOfFile (deref h p)
  deref-Fails h p = record { on = λ e q. subst IsOfFile (deref-eq-err h p e q) refl }

  write_vars-Fails :
      (h : Heap) (defined : Map NcVar) (vars : Map Pointer)
      → ExecFails IsOfFile (write_vars nc h defined vars)
  unfolding write_vars
  write_vars-Fails h defined [] = ExecFails-pure tt
  write_vars-Fails h defined ((name, p) ∷ vars) =
      ExecFails-if (contains name defined) _ _ (ExecFails-pure tt)
        (ExecFails-lift (deref h p) (deref-Fails h p) >>> λ v. write_variable-Fails v)
      >>> λ done. write_vars-Fails h defined vars

  write_atts-Fails :
      (defined : Map NcAtt) (atts : Map Attribute) → ExecFails IsOfFile (write_atts nc defined atts)
  unfolding write_atts
  write_atts-Fails defined [] = ExecFails-pure tt
  write_atts-Fails defined ((name, a) ∷ atts) =
      ExecFails-if (contains name defined) _ _ (ExecFails-pure tt) (
        on_nc-Fails IsOfFile same (λ n. nc.put_att n (attribute_name a) (written_att a))
          (λ n. throws.on_put_att n (attribute_name a) (written_att a)))
      >>> λ done. write_atts-Fails defined atts

  write_metadata-Fails : (h : Heap) (m : Metadata) → ExecFails IsOfFile (write_metadata nc h m)
  unfolding write_metadata write_dimensions write_variables write_attributes
  write_metadata-Fails h m = writing-Fails IsOfFile same _ (
      writing-Fails IsOfFile same _
        (get_file-Fails IsOfFile same >>> λ n. write_dims-Fails (nc.dims n) m.dimensions)
      >>> λ sized.
          writing-Fails IsOfFile same _
            (get_file-Fails IsOfFile same >>> λ n. write_vars-Fails h (nc.vars n) m.variables)
          >>> λ written.
              writing-Fails IsOfFile same _
                (get_file-Fails IsOfFile same >>> λ n. write_atts-Fails (nc.atts n) m.global_attrs))

  -- What the writer asks of File: every error of its calls is one of File.cc.
  pub file_writes-FailsOutside :
      (Outside : Error → Type 0)
      → ((e : Error) → IsOfFile e → Outside e)
      → WriterClosing.FailsOutside (file_writes nc) Outside
  file_writes-FailsOutside Outside outside = record {
    not_open = outside file_not_initialised refl;
    on_create = λ path e p. outside e ((open_file-Fails nc path FileMode.replace).on e p);
    on_metadata =
        λ f h m e p. outside e ((left-Fails _ _ ((write_metadata-Fails h m).at f)).on e p);
    on_doubles = λ f n v e p. outside e (
        (left-Fails _ _
            ((write_single_datum-Fails IsOfFile same nc.doubles throws.on_doubles n v).at f)).on
          e p);
    on_floats = λ f n v e p. outside e (
        (left-Fails _ _
            ((write_single_datum-Fails IsOfFile same nc.floats throws.on_floats n v).at f)).on
          e p);
    on_ints = λ f n v e p. outside e (
        (left-Fails _ _
            ((write_single_datum-Fails IsOfFile same nc.ints throws.on_ints n v).at f)).on
          e p);
  }
