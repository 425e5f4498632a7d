-- ===== src/File/Values.antt =====
-- The values that Writer.cc writes through src/monio/File.cc and Reader.cc reads through it.
use monio.Base.{
  ℕ, ◌<◌, ◌^◌, String, ◌≡◌, refl, sym, ◌∙◌, ap, subst, false, List, [], ◌∷◌, some, pos, arith,
  length, to_int32-eq, ltb,
}
use monio.Result.{ok}
use monio.Constants.{DataType}
use monio.Values.{zero_double, zero_float}
use monio.Map.{lookup}
use monio.Map.Sorted.{IsSorted}
use monio.Variable.{Variable, get_total_size}
use monio.Heap.{Heap}
use monio.Container.{DataContainer, doubles, floats, ints, get_name, get_type, resize}
use monio.Data.{add_container}
use monio.FileData.{FileData}
use monio.Reader.{Reader, variable_of, read_full_datum, read_container, filled, sized, resized}
use monio.Reader
use monio.Writer.{write_values, write_data}
use monio.Writer.Stored.{StoresValues, Writable, write_data-Stores}
use monio.NetCdf.{NcLibrary, NcValues, FileMode, put_values, Gives, KeepsValues}
use monio.File.{
  File, is_read, on_nc, writing, reading, get_file, fill_vector, read_single_datum,
  write_single_datum,
}
use monio.File.Writes.Entries.{opened}
use monio.File.Calls.{file_reads, file_writes}

resize_self :
    {T : Type 0} (filler : T) (values : List T) → resize filler (length values) values ≡ values
unfolding resize
resize_self filler [] = refl
resize_self filler (v ∷ values) = ap (λ (l : List _). v ∷ l) (resize_self filler values)

-- A vector of the size of what is read is filled by it.
fill_vector-eq :
    {T : Type 0} (filler : T) (values : List T)
    → fill_vector filler (length values) values ≡ ok values
unfolding fill_vector
fill_vector-eq filler values =
    let fits : ltb (length values) (length values) ≡ false = ground arith in
    rw fits (ap ok (resize_self filler values))

module _ {N T : Type 0} (library : NcValues N T) where
  read_single_datum-eq :
      (filler : T) (name : String) (values : List T) (n : N)
      → library.get n name ≡ ok values
      → (read_single_datum library filler name (length values) (opened FileMode.read n)).0
        ≡ ok values
  unfolding read_single_datum reading get_file is_read
  read_single_datum-eq filler name values n h = rw (h, fill_vector-eq filler values)

-- A size below 2³¹ survives the way through an int.
sized-eq : (n : ℕ) → n < 2 ^ 31 → sized n ≡ ok n
unfolding sized resized
sized-eq n h = rw (to_int32-eq n h)

-- How many values a container has.
abbrev pub size_of : DataContainer → ℕ
size_of (doubles c) = length c.data_vector
size_of (floats c) = length c.data_vector
size_of (ints c) = length c.data_vector

module _ {N : Type 0} (nc : NcLibrary N) (keeps : KeepsValues nc) where
  write_values-put_values :
      (n n' : N) (name : String) (c : DataContainer)
      → put_values nc n name c ≡ ok n'
      → write_values (file_writes nc) (opened FileMode.replace n) name c
        ≡ ok (opened FileMode.replace n')
  unfolding write_values put_values write_single_datum writing on_nc get_file is_read
  write_values-put_values n n' name (doubles c) h = rw h
  write_values-put_values n n' name (floats c) h = rw h
  write_values-put_values n n' name (ints c) h = rw h

  pub file_write-eq :
      (f : File N) (n : N) (name : String) (c : DataContainer) (t : keeps.Takes n name c)
      → f ≡ opened FileMode.replace n
      → write_values (file_writes nc) f name c
        ≡ ok (opened FileMode.replace (keeps.put_values-gives n name c t).0)
  file_write-eq f n name c t e =
      let (n', put, gives, takes, others) = keeps.put_values-gives n name c t in
      ap (λ (x : File N). write_values (file_writes nc) x name c) e
      ∙ write_values-put_values n n' name c put

  pub one_handle :
      (P : N → Type 0) (f : File N) (n m : N)
      → f ≡ opened FileMode.replace n
      → f ≡ opened FileMode.replace m
      → P m
      → P n
  one_handle P f n m e e' p =
      let same : some n ≡ some m = ap (λ (x : File N). x.data_file) (sym e ∙ e') in
      let contents : m ≡ n = cc in subst P contents p

  -- The writes of File.cc store the values that a writer gives them.
  abbrev pub file_stores : StoresValues (file_writes nc)
  file_stores = record {
    Defines = λ f name c. (n : N) × (f ≡ opened FileMode.replace n) × keeps.Takes n name c;
    Holds = λ f name c. (n : N) × (f ≡ opened FileMode.replace n) × Gives nc n name c;
    write = λ f name c d. opened FileMode.replace (keeps.put_values-gives d.0 name c d.2).0;
    write-eq = λ f name c d. file_write-eq f d.0 name c d.2 d.1;
    Holds-write = λ f name c d. (
      (keeps.put_values-gives d.0 name c d.2).0,
      refl,
      (keeps.put_values-gives d.0 name c d.2).2,
    );
    Defines-write = λ f name k c e d h. (
      (keeps.put_values-gives d.0 name c d.2).0,
      refl,
      (keeps.put_values-gives d.0 name c d.2).3 k e
          (one_handle (λ x. keeps.Takes x k e) f d.0 h.0 d.1 h.1 h.2),
    );
    Holds-write_other = λ f name k c held d ne h. (
      (keeps.put_values-gives d.0 name c d.2).0,
      refl,
      (keeps.put_values-gives d.0 name c d.2).4 k held ne
          (one_handle (λ x. Gives nc x k held) f d.0 h.0 d.1 h.1 h.2),
    );
  }

  -- The variable that a container is read by: it has the type and the size of the container.
  abbrev pub Describes : Variable → DataContainer → Type 0
  Describes v c = (v.type ≡ get_type c) × (get_total_size v ≡ size_of c) × (size_of c < 2 ^ 31)

  pub read_container-Gives :
      (n : N) (name : String) (c : DataContainer) (type : DataType) (size : ℕ)
      → Gives nc n name c
      → get_name c ≡ name
      → type ≡ get_type c
      → size ≡ size_of c
      → size_of c < 2 ^ 31
      → read_container
          (file_reads nc)
          type
          name
          size
          (record { file = some (opened FileMode.read n) })
        ≡ (ok c, record { file = some (opened FileMode.read n) })
  unfolding read_container Reader.get_file filled get_name get_type
  read_container-Gives n name (doubles c) type size h own kind many small =
      let read = read_single_datum-eq nc.doubles zero_double name c.data_vector n h in
      rw (kind, many, sized-eq (length c.data_vector) small, read, own)
  read_container-Gives n name (floats c) type size h own kind many small =
      let read = read_single_datum-eq nc.floats zero_float name c.data_vector n h in
      rw (kind, many, sized-eq (length c.data_vector) small, read, own)
  read_container-Gives n name (ints c) type size h own kind many small =
      let read = read_single_datum-eq nc.ints (pos 0) name c.data_vector n h in
      rw (kind, many, sized-eq (length c.data_vector) small, read, own)

  -- What the reader gets from a file that it opens after the writer: the container, in the data.
  abbrev pub ComesBack :
      {DateTime : Type 0}
      → FileData DateTime
      → N
      → Heap
      → FileData DateTime
      → String
      → DataContainer
      → Type 0
  ComesBack written n h to name c =
      (n' : N) × (write_data (file_writes nc) written
          (record { file = some (opened FileMode.replace n) })
        ≡ (ok tt, record { file = some (opened FileMode.replace n') }))
      × (read_full_datum (file_reads nc) h to name
            (record { file = some (opened FileMode.read n') })
          ≡ (
            ok (record to { data_held = add_container to.data_held c }),
            record { file = some (opened FileMode.read n') },
          ))

  -- Where each container of a file's data has a variable in the metadata and in the open file that
  -- takes its values, writeData writes them all, and readFullDatum reads any of them back as it was,
  -- by a variable of its name, type and size, which is below 2 ^ 31.
  pub read_full_datum-write_data :
      {DateTime : Type 0} (written to : FileData DateTime) (n : N) (h : Heap) (name : String)
      (c : DataContainer) (v : Variable)
      → IsSorted written.data_held.data_containers
      → Writable
          (file_writes nc)
          file_stores
          written.metadata
          (opened FileMode.replace n)
          written.data_held.data_containers
      → lookup name written.data_held.data_containers ≡ some c
      → get_name c ≡ name
      → variable_of (file_reads nc) h to name ≡ ok v
      → v.type ≡ get_type c
      → get_total_size v ≡ size_of c
      → size_of c < 2 ^ 31
      → ComesBack written n h to name c
  unfolding read_full_datum
  read_full_datum-write_data written to n h name c v s w held own found kind many small =
      let (g, r, all, others) =
        write_data-Stores (file_writes nc) file_stores written (opened FileMode.replace n) s w in
      let (n', handle, gives) = all name c held in
      let read =
        read_container-Gives n' name c v.type (get_total_size v) gives own kind many small in
      (n', r ∙ ap (λ (x : File N). (ok tt, record { file = some x })) handle, rw (found, read))
