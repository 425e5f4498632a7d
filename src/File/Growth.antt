-- ===== src/File/Growth.antt =====
-- src/monio/File.cc: readMetadata puts new variables into the heap and changes none.
use monio.Base.{true, false, if◌then◌else◌, [], ◌∷◌}
use monio.Result.{Result, ok, err, write_file_read}
use monio.Result
use monio.Exec.{Exec, pure, ◌>>=◌, cleaning, continue}
use monio.Map.{Map}
use monio.Variable.{make_variable}
use monio.Heap.{Heap}
use monio.Heap.Trims.{Extends, Extends-make_shared}
use monio.Metadata.{Metadata}
use monio.NetCdf.{NcLibrary, NcVar}
use monio.File.{File, is_read, reading, get_file, close, throwing}
use monio.File.Reads.{
  variable_type, read_variable_dims, read_variable_atts, read_variable, read_vars, read_dimensions,
  read_variables, read_attributes, read_metadata,
}

-- Where there is a result, its heap extends the first one.
abbrev pub Grows : Heap → Result (Heap × Metadata) → Type 0
Grows h (ok read) = Extends h read.0
Grows h (err e) = Unit {0}

Grows-bind :
    {A : Type 0} (h : Heap) (r : Result A) (k : A → Result (Heap × Metadata))
    → ((a : A) → Grows h (k a))
    → Grows h (Result.◌>>=◌ r k)
Grows-bind h (ok a) k g = g a
Grows-bind h (err e) k g = tt

read_variable-Grows :
    (h : Heap) (m : Metadata) (nc_var : NcVar) → Grows h (read_variable h m nc_var)
unfolding read_variable
read_variable-Grows h m nc_var = Grows-bind h (variable_type nc_var.type) _ (λ type.
    Grows-bind h (read_variable_dims m nc_var.dims (make_variable nc_var.name type)) _ (λ sized.
      Grows-bind h (read_variable_atts nc_var.atts sized) _ (λ v. Extends-make_shared h v)))

then-Grows :
    (h : Heap) (r : Result (Heap × Metadata)) (k : Heap × Metadata → Result (Heap × Metadata))
    → Grows h r
    → ((read : Heap × Metadata) → Grows read.0 (k read))
    → Grows h (Result.◌>>=◌ r k)
then-Grows h (err e) k g next = tt
then-Grows h (ok read) k g next = joined h read g (k read) (next read)
  where
    joined :
        (h : Heap) (read : Heap × Metadata)
        → Extends h read.0
        → (r : Result (Heap × Metadata)) → Grows read.0 r
        → Grows h r
    joined h read g (ok last) next = λ p v q. next p v (g p v q)
    joined h read g (err e) next = tt

read_vars-Grows : (vars : Map NcVar) (h : Heap) (m : Metadata) → Grows h (read_vars vars h m)
unfolding read_vars
read_vars-Grows [] h m = λ p v q. q
read_vars-Grows ((key, nc_var) ∷ vars) h m =
    then-Grows h (read_variable h m nc_var) _ (read_variable-Grows h m nc_var)
      (λ read. read_vars-Grows vars read.0 read.1)

module _ {N : Type 0} where
  -- A call on a file whose result grows the heap.
  record GrowsExec (h : Heap) (call : Exec (File N) (Heap × Metadata)) : Type 0 where
    at : (f : File N) → Grows h (call f).0

  reading-Grows :
      (h : Heap) (call : Exec (File N) (Heap × Metadata))
      → GrowsExec h call
      → GrowsExec h (reading call)
  unfolding reading
  reading-Grows h call g = record {
    at = λ f.
        elim (is_read f.file_mode)
          as (λ b. Grows h (if b then call f else throwing write_file_read f).0) [
            | true ↦ g.at f
            | false ↦ tt
          ];
  }

  after-Grows :
      {A : Type 0} (h : Heap) (r : Result A × File N) (k : A → Exec (File N) (Heap × Metadata))
      → ((a : A) → GrowsExec h (k a))
      → Grows h (continue k r).0
  after-Grows h (ok a, f) k g = (g a).at f
  after-Grows h (err e, f) k g = tt

  bind-Grows :
      {A : Type 0} (h : Heap) (call : Exec (File N) A) (k : A → Exec (File N) (Heap × Metadata))
      → ((a : A) → GrowsExec h (k a))
      → GrowsExec h (call >>= k)
  bind-Grows h call k g = record { at = λ f. after-Grows h (call f) k g }

  cleaning-Grows :
      (h : Heap) (r : Result (Heap × Metadata)) → Grows h r → GrowsExec h (cleaning close r)
  cleaning-Grows h (ok read) g = record { at = λ f. g }
  cleaning-Grows h (err e) g = record { at = λ f. tt }

  followed-Grows :
      (h : Heap) (r : Result (Heap × Metadata) × File N)
      (k : Heap × Metadata → Exec (File N) Metadata)
      → Grows h r.0
      → Grows h (continue (λ read. k read >>= λ attributed. pure (read.0, attributed)) r).0
  followed-Grows h (err e, f) k g = tt
  followed-Grows h (ok read, f) k g = kept (k read f)
    where
      kept :
          (r : Result Metadata × File N)
          → Grows h (continue (λ attributed. pure (read.0, attributed)) r).0
      kept (ok m, f) = g
      kept (err e, f) = tt

module _ {N : Type 0} (nc : NcLibrary N) where
  read_variables-Grows : (h : Heap) (m : Metadata) → GrowsExec h (read_variables nc h m)
  unfolding read_variables
  read_variables-Grows h m = reading-Grows h _ (
      bind-Grows h get_file _
        (λ n. cleaning-Grows h (read_vars (nc.vars n) h m) (read_vars-Grows (nc.vars n) h m)))

  pub read_metadata-Grows :
      (h : Heap) (m : Metadata) (f : File N) → Grows h (read_metadata nc h m f).0
  unfolding read_metadata
  read_metadata-Grows h m f =
      (reading-Grows h _ (
          bind-Grows h (read_dimensions nc m) _ (λ sized. record {
            at = λ f.
                followed-Grows h (read_variables nc h sized f) (λ read. read_attributes nc read.1)
                  ((read_variables-Grows h sized).at f);
          }))).at
        f
