-- ===== src/Writer/Closing.antt =====
-- The writer where its calls throw.
use monio.Base.{
  String, ◌≡◌, List, [], ◌∷◌, none, ◌==◌, string_eq, ℤ, inl, inr, subst, Option-cases, arith,
}
use monio.Result.{Result, ok, err, Error, file_not_initialised, netcdf_exception}
use monio.Values.{Double, Float}
use monio.Exec.{pure, ◌>>=◌, lift}
use monio.Exec.Closes.{
  Closes, Closes-pure, Closes-lift, Closes-cleaning, Closes-if, Closes-bind, ◌>>>◌,
}
use monio.Map.{Map}
use monio.Heap.{Heap}
use monio.Container.{DataContainer, doubles, floats, ints}
use monio.Metadata.{Metadata, get_variable}
use monio.FileData.{FileData}
use monio.Writer.{
  FileWrites, Writer, closed, is_open, get_file, keep, opened, open_file, write_metadata,
  write_values, write_containers, write_data,
}

abbrev pub IsClosed : {File : Type 0} → Writer File → Type 0
IsClosed w = w.file ≡ none

pub closed-IsClosed : {File : Type 0} (w : Writer File) → IsClosed (closed w)
unfolding closed is_open
closed-IsClosed w = ground arith

module _ {File : Type 0} (api : FileWrites File) (Outside : Error → Type 0) where
  -- The errors that the calls of the file give are those from outside, with one of the model's own:
  -- a writer that has no file.
  pub record FailsOutside : Type 0 where
    pub not_open : Outside file_not_initialised
    pub on_create : (path : String) (e : Error) → api.create_file path ≡ err e → Outside e
    pub on_metadata :
        (f : File) (h : Heap) (m : Metadata) (e : Error)
        → api.write_metadata f h m ≡ err e
        → Outside e
    pub on_doubles :
        (f : File) (n : String) (v : List Double) (e : Error)
        → api.write_doubles f n v ≡ err e
        → Outside e
    pub on_floats :
        (f : File) (n : String) (v : List Float) (e : Error)
        → api.write_floats f n v ≡ err e
        → Outside e
    pub on_ints :
        (f : File) (n : String) (v : List ℤ) (e : Error) → api.write_ints f n v ≡ err e → Outside e

  module _ (fails : FailsOutside) where
    get_file-Closes : Closes {A = File} Outside IsClosed get_file
    unfolding get_file
    get_file-Closes = record {
      at = λ w e p. elim (Option-cases w.file) [
        | inl gone ↦
            let same : file_not_initialised ≡ e = cc (rw gone at p) in
            inl (subst Outside same fails.not_open)
        | inr (f, there) ↦ let bad : ok f ≡ err e = rw there at p in absurd cc
      ];
    }

    keep-Closes : (f : File) → Closes Outside IsClosed (keep f)
    unfolding keep
    keep-Closes f = record { at = λ w e p. absurd cc }

    -- A write into the file that is open.
    into_file-Closes :
        (write : File → Result File)
        → ((f : File) (e : Error) → write f ≡ err e → Outside e)
        → Closes Outside IsClosed (get_file >>= λ f. lift (write f) >>= λ g. keep g)
    into_file-Closes write h =
        Closes-bind get_file _ get_file-Closes
          (λ f. Closes-bind (lift (write f)) keep (Closes-lift (write f) (h f)) keep-Closes)

    opened-Closes :
        (r : Result File)
        → ((e : Error) → r ≡ err e → Outside e)
        → Closes Outside IsClosed (opened api r)
    unfolding opened
    opened-Closes (ok f) h = keep-Closes f
    opened-Closes (err netcdf_exception) h = record { at = λ s e p. inr (closed-IsClosed s) }
    opened-Closes (err x) h = record { at = λ s e p. inl (h e (cc)) }

    pub open_file-Closes : (path : String) → Closes Outside IsClosed (open_file api path)
    unfolding open_file
    open_file-Closes path =
        Closes-if (path == "") (pure tt) (opened api (api.create_file path)) (Closes-pure tt)
          (opened-Closes (api.create_file path) (fails.on_create path))

    pub write_metadata-Closes :
        (h : Heap) (m : Metadata) → Closes Outside IsClosed (write_metadata api h m)
    unfolding write_metadata
    write_metadata-Closes h m =
        into_file-Closes (λ f. api.write_metadata f h m) (λ f. fails.on_metadata f h m)

    write_values-fails :
        (f : File) (name : String) (c : DataContainer) (e : Error)
        → write_values api f name c ≡ err e
        → Outside e
    unfolding write_values
    write_values-fails f name (doubles c) e p = fails.on_doubles f name c.data_vector e p
    write_values-fails f name (floats c) e p = fails.on_floats f name c.data_vector e p
    write_values-fails f name (ints c) e p = fails.on_ints f name c.data_vector e p

    write_containers-Closes :
        (m : Metadata) (containers : Map DataContainer)
        → Closes Outside IsClosed (write_containers api m containers)
    unfolding write_containers
    write_containers-Closes m [] = Closes-pure tt
    write_containers-Closes m ((name, c) ∷ containers) =
        Closes-cleaning closed (get_variable m name) closed-IsClosed >>> λ checked.
        get_file-Closes >>> λ f.
        Closes-lift (write_values api f name c) (write_values-fails f name c) >>> λ g.
        keep-Closes g >>> λ kept. write_containers-Closes m containers

    pub write_data-Closes :
        {DateTime : Type 0} (file : FileData DateTime)
        → Closes Outside IsClosed (write_data api file)
    unfolding write_data
    write_data-Closes file = write_containers-Closes file.metadata file.data_held.data_containers
