-- ===== src/Reader/Closing.antt =====
-- The reader where its calls throw.
use monio.Base.{
  String, ◌≡◌, List, [], ◌∷◌, Option, none, some, Eq, ◌==◌, nat_eq, string_eq, inl, inr, false,
  Bool-cases, ℕ, subst, Option-cases, length, arith, ℤ, pos, negsuc, to_int32,
}
use monio.Result.{
  Result, ok, err, Error, closes_files, file_not_initialised, netcdf_exception, undefined_access,
  vector_length, date_time_not_found, date_times_missing, coordinate_axes, data_type_not_coded,
}
use monio.Exec.{Exec, pure, ◌>>=◌, lift, cleaning, cleaning_where}
use monio.Exec.Closes.{
  Closes, Closes-pure, Closes-lift, Closes-cleaning, Closes-if, Closes-bind, ◌>>>◌,
}
use monio.Constants.{DataType}
use monio.Heap.{Heap}
use monio.Container.{Container, DataContainer, doubles, floats, ints}
use monio.Data.{is_container_present}
use monio.Variable.{get_total_size}
use monio.Metadata.{Metadata}
use monio.FileData.{FileData}
use monio.Reader.{
  FileReads, Reader, Window, closed, is_open, get_file, filled, read_container, read_container_at,
  opened, open_file, read_metadata, variable_of, read_full_datum, read_full_data,
  read_datum_at_step, find_time_step, read_datum_at_time, get_coord_data, step_from, sized, resized,
  window,
}

abbrev pub IsClosed : {File : Type 0} → Reader File → Type 0
IsClosed r = r.file ≡ none

pub closed-IsClosed : {File : Type 0} (r : Reader File) → IsClosed (closed r)
unfolding closed is_open
closed-IsClosed r = ground arith

module _ {File : Type 0} (api : FileReads File) (Outside : Error → Type 0) where
  -- The errors that the calls of the file give are those from outside, with three more: a
  -- reader that has no file, an access outside a vector, and the std::length_error of setSize.
  pub record FailsOutside : Type 0 where
    pub not_open : Outside file_not_initialised
    pub undefined : Outside undefined_access
    pub length : Outside vector_length
    pub on_open : (path : String) (e : Error) → api.open_file path ≡ err e → Outside e
    -- The other errors of this call close the files of Monio where they are thrown.
    pub on_metadata :
        (f : File) (h : Heap) (m : Metadata) (e : Error)
        → api.read_metadata f h m ≡ err e
        → closes_files e ≡ false
        → Outside e
    pub on_doubles :
        (f : File) (n : String) (z : ℕ) (e : Error) → api.read_doubles f n z ≡ err e → Outside e
    pub on_floats :
        (f : File) (n : String) (z : ℕ) (e : Error) → api.read_floats f n z ≡ err e → Outside e
    pub on_ints :
        (f : File) (n : String) (z : ℕ) (e : Error) → api.read_ints f n z ≡ err e → Outside e
    pub on_doubles_at :
        (f : File) (n : String) (a b : List ℕ) (z : ℕ) (e : Error)
        → api.read_doubles_at f n a b z ≡ err e
        → Outside e
    pub on_floats_at :
        (f : File) (n : String) (a b : List ℕ) (z : ℕ) (e : Error)
        → api.read_floats_at f n a b z ≡ err e
        → Outside e
    pub on_ints_at :
        (f : File) (n : String) (a b : List ℕ) (z : ℕ) (e : Error)
        → api.read_ints_at f n a b z ≡ err e
        → Outside e

  Closes-where :
      {A : Type 0} (r : Result A)
      → ((e : Error) → r ≡ err e → closes_files e ≡ false → Outside e)
      → Closes {S = Reader File} Outside IsClosed (cleaning_where closes_files closed (lift r))
  Closes-where (ok a) h = record { at = λ s e p. absurd cc }
  Closes-where (err x) h = elim (Bool-cases (closes_files x)) [
    | inl closing ↦ record { at = λ s e p. inr (rw closing (closed-IsClosed s)) }
    | inr staying ↦ record { at = λ s e p. inl (h e (cc) (cc)) }
  ]

  module _ (fails : FailsOutside) where
    get_file-Closes : Closes {A = File} Outside IsClosed get_file
    unfolding get_file
    get_file-Closes = record {
      at = λ r e p. elim (Option-cases r.file) [
        | inl gone ↦
            let same : file_not_initialised ≡ e = cc (rw gone at p) in
            inl (subst Outside same fails.not_open)
        | inr (f, there) ↦ let bad : ok f ≡ err e = rw there at p in absurd cc
      ];
    }

    filled-fails :
        {V : Type 0} (make : Container V → DataContainer) (name : String) (r : Result (List V))
        → ((e : Error) → r ≡ err e → Outside e)
        → (e : Error) → filled make name r ≡ err e
        → Outside e
    unfolding filled
    filled-fails make name (ok values) h e p = absurd cc
    filled-fails make name (err x) h e p = h e (cc)

    resized-fails : (i : ℤ) (e : Error) → resized i ≡ err e → Outside e
    unfolding resized
    resized-fails (pos n) e p = absurd cc
    resized-fails (negsuc n) e p = subst Outside (cc) fails.length

    -- A read of the file that is open, into a vector of the size.
    from_file-Closes :
        {V : Type 0} (make : Container V → DataContainer) (name : String) (size : ℕ)
        (read : File → ℕ → Result (List V))
        → ((f : File) (n : ℕ) (e : Error) → read f n ≡ err e → Outside e)
        → Closes Outside IsClosed
            (lift (sized size) >>= λ n. get_file >>= λ f. lift (filled make name (read f n)))
    unfolding sized
    from_file-Closes make name size read h =
        Closes-lift (sized size) (resized-fails (to_int32 size)) >>> λ n. get_file-Closes >>> λ f.
        Closes-lift (filled make name (read f n)) (filled-fails make name (read f n) (h f n))

    read_container-Closes :
        (type : DataType) (name : String) (size : ℕ)
        → Closes Outside IsClosed (read_container api type name size)
    unfolding read_container
    read_container-Closes DataType.double name size =
        from_file-Closes doubles name size (λ f n. api.read_doubles f name n)
          (λ f n e p. fails.on_doubles f name n e p)
    read_container-Closes DataType.float name size =
        from_file-Closes floats name size (λ f n. api.read_floats f name n)
          (λ f n e p. fails.on_floats f name n e p)
    read_container-Closes DataType.int name size =
        from_file-Closes ints name size (λ f n. api.read_ints f name n)
          (λ f n e p. fails.on_ints f name n e p)
    read_container-Closes _ name size =
        Closes-cleaning closed (err data_type_not_coded) closed-IsClosed

    read_container_at-Closes :
        (type : DataType) (name : String) (w : Window)
        → Closes Outside IsClosed (read_container_at api type name w)
    unfolding read_container_at
    read_container_at-Closes DataType.double name w =
        from_file-Closes doubles name w.size (λ f n. api.read_doubles_at f name w.start w.counts n)
          (λ f n e p. fails.on_doubles_at f name w.start w.counts n e p)
    read_container_at-Closes DataType.float name w =
        from_file-Closes floats name w.size (λ f n. api.read_floats_at f name w.start w.counts n)
          (λ f n e p. fails.on_floats_at f name w.start w.counts n e p)
    read_container_at-Closes DataType.int name w =
        from_file-Closes ints name w.size (λ f n. api.read_ints_at f name w.start w.counts n)
          (λ f n e p. fails.on_ints_at f name w.start w.counts n e p)
    read_container_at-Closes _ name w =
        Closes-cleaning closed (err data_type_not_coded) closed-IsClosed

    opened-Closes :
        (r : Result File)
        → ((e : Error) → r ≡ err e → Outside e)
        → Closes Outside IsClosed (opened api r)
    unfolding opened
    opened-Closes (ok f) h = record { at = λ s e p. absurd cc }
    opened-Closes (err netcdf_exception) h = record { at = λ s e p. inr (closed-IsClosed s) }
    opened-Closes (err x) h = record { at = λ s e p. inl (h e (cc)) }

    pub open_file-Closes : (path : String) → Closes Outside IsClosed (open_file api path)
    unfolding open_file
    open_file-Closes path =
        Closes-if (path == "") (pure tt) (opened api (api.open_file path)) (Closes-pure tt)
          (opened-Closes (api.open_file path) (fails.on_open path))

    step-Closes :
        (o : Option ℕ)
        → Closes {S = Reader File} {A = ℕ} Outside IsClosed (elim o as (λ k. Exec (Reader File) ℕ) [
          | none ↦ cleaning closed (err date_time_not_found)
          | some i ↦ pure i
        ])
    step-Closes none = Closes-cleaning closed (err date_time_not_found) closed-IsClosed
    step-Closes (some i) = Closes-pure i

    module _ {DateTime : Type 0} where
      pub read_metadata-Closes :
          (h : Heap) (file : FileData DateTime) → Closes Outside IsClosed (read_metadata api h file)
      unfolding read_metadata
      read_metadata-Closes h file = Closes-bind get_file _ get_file-Closes (λ f.
          Closes-where (api.read_metadata f h file.metadata) (fails.on_metadata f h file.metadata)
          >>> λ read. Closes-pure _)

      pub read_full_datum-Closes :
          (h : Heap) (file : FileData DateTime) (name : String)
          → Closes Outside IsClosed (read_full_datum api h file name)
      unfolding read_full_datum
      read_full_datum-Closes h file name =
          Closes-cleaning closed (variable_of api h file name) closed-IsClosed >>> λ v.
          read_container-Closes v.type name (get_total_size v) >>> λ c. Closes-pure _

      pub read_full_data-Closes :
          (h : Heap) (file : FileData DateTime) (names : List String)
          → Closes Outside IsClosed (read_full_data api h file names)
      unfolding read_full_data
      read_full_data-Closes h file [] = Closes-pure file
      read_full_data-Closes h file (name ∷ names) =
          read_full_datum-Closes h file name >>> λ read. read_full_data-Closes h read names

      read_datum_at_step-Closes :
          (h : Heap) (file : FileData DateTime) (name : String) (step : ℕ) (time_dim_name : String)
          → Closes Outside IsClosed (read_datum_at_step api h file name step time_dim_name)
      unfolding read_datum_at_step
      read_datum_at_step-Closes h file name step time_dim_name =
          Closes-if (is_container_present file.data_held name) (pure file) _ (Closes-pure file) (
            Closes-cleaning closed (variable_of api h file name) closed-IsClosed >>> λ v.
            read_container_at-Closes v.type name (window time_dim_name step v) >>> λ c.
            Closes-pure _)

      find_time_step-Closes :
          ⦃e : Eq DateTime⦄ (file : FileData DateTime) (time : DateTime)
          → Closes Outside IsClosed (find_time_step api file time)
      unfolding find_time_step
      find_time_step-Closes file time =
          Closes-if (length file.date_times == 0) _ _
            (Closes-cleaning closed (err date_times_missing) closed-IsClosed)
            (step-Closes (step_from api 0 time file.date_times))

      pub read_datum_at_time-Closes :
          ⦃e : Eq DateTime⦄ (h : Heap) (file : FileData DateTime) (name : String) (time : DateTime)
          (time_dim_name : String)
          → Closes Outside IsClosed (read_datum_at_time api h file name time time_dim_name)
      unfolding read_datum_at_time
      read_datum_at_time-Closes h file name time time_dim_name =
          find_time_step-Closes file time >>> λ step.
          read_datum_at_step-Closes h file name step time_dim_name

      pub get_coord_data-Closes :
          (file : FileData DateTime) (names : List String)
          → Closes Outside IsClosed (get_coord_data api file names)
      unfolding get_coord_data
      get_coord_data-Closes file names =
          Closes-if (length names == 2) _ _ (Closes-pure _)
            (Closes-cleaning closed (err coordinate_axes) closed-IsClosed)
