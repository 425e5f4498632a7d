-- ===== src/File/Whole.antt =====
-- A file that Writer.cc describes and fills through src/monio/File.cc and Reader.cc reads through it.
use monio.Base.{
  ℤ, ℕ, ◌<◌, ◌^◌, ◌%◌, String, ◌≡◌, refl, sym, ◌∙◌, ap, subst, [], ◌∷◌, some, arith, ◌==◌,
  string_eq, ==_iff, Bool-cases, inl, inr,
}
use monio.Result.{ok}
use monio.Constants.{DataType}
use monio.Map.{Map, lookup}
use monio.Map.Sorted.{IsSorted, map_values}
use monio.Variable.{Variable, get_total_size}
use monio.Variable.Laws.{product, get_total_size-product}
use monio.Heap.{Heap, Pointer, deref}
use monio.Metadata.{Metadata, get_variable}
use monio.Values.{Double, Float}
use monio.Container.{Container, DataContainer, doubles, floats, ints, get_name, get_type}
use monio.Data.{add_container}
use monio.FileData.{FileData, empty_file}
use monio.Reader.{FileReads, variable_of, read_full_datum}
use monio.Reader
use monio.Writer.{write_data}
use monio.Writer
use monio.Writer.Stored.{StoresValues, write_data-Stores}
use monio.Writer.Stored as Stored
use monio.NetCdf.{
  NcLibrary, NcVar, NcType, nc_double, nc_float, nc_int, FileMode, DefinesNames, KeepsValues,
  put_values, Gives,
}
use monio.File.{File}
use monio.File.Writes.Entries.{opened}
use monio.File.Writes.Variables.{written_var, nc_type, PointsTo}
use monio.File.Calls.{file_reads, file_writes}
use monio.File.RoundTrip.{
  Writable, Contains, IsNew, write_metadata-Contains, read_metadata-Contains,
}
use monio.File.Values.{size_of, file_write-eq, one_handle, read_container-Gives}

-- The values that a variable of a type in the file takes.
pub data TakesType : NcType → DataContainer → Type 0 where
  double_values : (c : Container Double) → TakesType nc_double (doubles c)
  float_values : (c : Container Float) → TakesType nc_float (floats c)
  int_values : (c : Container ℤ) → TakesType nc_int (ints c)

-- A variable takes the values of a container of its type and size, and no value that is written
-- changes a name.
pub record TakesByVariable {N : Type 0} (nc : NcLibrary N) (keeps : KeepsValues nc) : Type 0 where
  pub takes :
      (n : N) (name : String) (c : DataContainer) (v : NcVar)
      → lookup name (nc.vars n) ≡ some v
      → TakesType v.type c
      → product v.dims ≡ size_of c
      → keeps.Takes n name c
  pub put-dims :
      (n n' : N) (name : String) (c : DataContainer)
      → put_values nc n name c ≡ ok n'
      → nc.dims n' ≡ nc.dims n
  pub put-vars :
      (n n' : N) (name : String) (c : DataContainer)
      → put_values nc n name c ≡ ok n'
      → nc.vars n' ≡ nc.vars n
  pub put-atts :
      (n n' : N) (name : String) (c : DataContainer)
      → put_values nc n name c ≡ ok n'
      → nc.atts n' ≡ nc.atts n

takes_type : (type : DataType) (c : DataContainer) → type ≡ get_type c → TakesType (nc_type type) c
unfolding get_type
takes_type type (doubles c) e =
    subst (λ t. TakesType (nc_type t) (doubles c)) (sym e) (double_values c)
takes_type type (floats c) e =
    subst (λ t. TakesType (nc_type t) (floats c)) (sym e) (float_values c)
takes_type type (ints c) e = subst (λ t. TakesType (nc_type t) (ints c)) (sym e) (int_values c)

lookup-map_values :
    {A B : Type 0} (f : A → B) (k : String) (m : Map A) (a : A)
    → lookup k m ≡ some a
    → lookup k (map_values f m) ≡ some (f a)
unfolding lookup
lookup-map_values f k [] a h = absurd cc
lookup-map_values f k ((j, b) ∷ m) a h = elim (Bool-cases (j == k)) [
  | inl here ↦
      let same : some b ≡ some a = rw here at h in
      let inside : b ≡ a = cc in rw here (ap (λ x. some (f x)) inside)
  | inr past ↦ rw past (lookup-map_values f k m a (rw past at h))
]

-- The pointer of a variable that is in the metadata.
pointer_of :
    (h : Heap) (ps : Map Pointer) (vs : Map Variable) (k : String) (v : Variable)
    → PointsTo h ps vs
    → lookup k vs ≡ some v
    → (p : Pointer) × (lookup k ps ≡ some p) × (deref h p ≡ ok v)
unfolding lookup
pointer_of h [] [] k v points found = absurd cc
pointer_of h [] (u ∷ vs) k v points found = absurd points
pointer_of h (p ∷ ps) [] k v points found = absurd points
pointer_of h ((name, p) ∷ ps) ((key, u) ∷ vs) k v ((same, own, here), later) found =
    elim (Bool-cases (key == k)) [
      | inl hit ↦
          let is : some u ≡ some v = rw hit at found in
          let inside : u ≡ v = cc in (p, rw (← same, hit), here ∙ ap ok inside)
      | inr miss ↦
          let (q, r, s) = pointer_of h ps vs k v later (rw miss at found) in
          (q, rw (← same, miss) r, s)
    ]

-- The container has a variable of its type and size.
abbrev pub IsDescribed : Map Variable → String → DataContainer → Type 0
IsDescribed vs name c =
    (v : Variable) × (lookup name vs ≡ some v)
    × (v.type ≡ get_type c)
    × (product v.dimensions ≡ size_of c)

abbrev pub AllDescribed : Map Variable → Map DataContainer → Type 0
AllDescribed vs [] = Unit {0}
AllDescribed vs ((name, c) ∷ containers) = IsDescribed vs name c × AllDescribed vs containers

lookup-IsDescribed :
    (vs : Map Variable) (containers : Map DataContainer) (k : String) (c : DataContainer)
    → AllDescribed vs containers
    → lookup k containers ≡ some c
    → IsDescribed vs k c
unfolding lookup
lookup-IsDescribed vs [] k c all held = absurd cc
lookup-IsDescribed vs ((name, d) ∷ containers) k c (one, others) held =
    elim (Bool-cases (name == k)) [
      | inl hit ↦
          let is : some d ≡ some c = rw hit at held in
          let inside : d ≡ c = cc in
          let at_k : name ≡ k = (==_iff name k).0 hit in
          subst (λ (j : String). IsDescribed vs j c) at_k (subst (IsDescribed vs name) inside one)
      | inr miss ↦ lookup-IsDescribed vs containers k c others (rw miss at held)
    ]

get_variable-eq :
    (m : Metadata) (name : String) (p : Pointer)
    → lookup name m.variables ≡ some p
    → get_variable m name ≡ ok p
unfolding get_variable
get_variable-eq m name p found = rw (found, get_variable)

variable_of-eq :
    {File DateTime : Type 0} (api : FileReads File) (h : Heap) (file : FileData DateTime)
    (name : String) (p : Pointer) (v : Variable)
    → lookup name file.metadata.variables ≡ some p
    → deref h p ≡ ok v
    → variable_of api h file name ≡ ok v
unfolding variable_of
variable_of-eq api h file name p v found at_p =
    let known = get_variable-eq file.metadata name p found in rw (variable_of, known, at_p)

module _ {N : Type 0} (nc : NcLibrary N) (defines : DefinesNames nc) (keeps : KeepsValues nc)
    (by_variable : TakesByVariable nc keeps) where
  Contains-put :
      (n n' : N) (m : Metadata) (vs : Map Variable) (name : String) (c : DataContainer)
      → put_values nc n name c ≡ ok n'
      → Contains nc defines n m vs
      → Contains nc defines n' m vs
  Contains-put n n' m vs name c put (dims, vars, atts) = (
    by_variable.put-dims n n' name c put ∙ dims,
    by_variable.put-vars n n' name c put ∙ vars,
    by_variable.put-atts n n' name c put ∙ atts,
  )

  -- The writes of values into a file that has the names of some metadata, and keeps them.
  abbrev named_stores : Metadata → Map Variable → StoresValues (file_writes nc)
  named_stores m vs = record {
    Defines = λ f name c.
        (n : N) × (f ≡ opened FileMode.replace n)
        × keeps.Takes n name c
        × Contains nc defines n m vs;
    Holds = λ f name c.
        (n : N) × (f ≡ opened FileMode.replace n) × Gives nc n name c × Contains nc defines n m vs;
    write = λ f name c d. opened FileMode.replace (keeps.put_values-gives d.0 name c d.2).0;
    write-eq = λ f name c d. file_write-eq nc keeps f d.0 name c d.2 d.1;
    Holds-write = λ f name c d.
        let (n', put, gives, takes, others) = keeps.put_values-gives d.0 name c d.2 in
        (n', refl, gives, Contains-put d.0 n' m vs name c put d.3);
    Defines-write = λ f name k c e d h.
        let (n', put, gives, takes, others) = keeps.put_values-gives d.0 name c d.2 in
        (
          n',
          refl,
          takes k e (one_handle nc keeps (λ x. keeps.Takes x k e) f d.0 h.0 d.1 h.1 h.2),
          Contains-put d.0 n' m vs name c put d.3,
        );
    Holds-write_other = λ f name k c held d ne h.
        let (n', put, gives, takes, others) = keeps.put_values-gives d.0 name c d.2 in
        (
          n',
          refl,
          others k held ne (one_handle nc keeps (λ x. Gives nc x k held) f d.0 h.0 d.1 h.1 h.2),
          Contains-put d.0 n' m vs name c put d.3,
        );
  }

  described-Writable :
      (h : Heap) (m : Metadata) (vs : Map Variable) (n : N) (containers : Map DataContainer)
      → PointsTo h m.variables vs
      → Contains nc defines n m vs
      → AllDescribed vs containers
      → Stored.Writable
          (file_writes nc)
          (named_stores m vs)
          m
          (opened FileMode.replace n)
          containers
  described-Writable h m vs n [] points has all = tt
  described-Writable h m vs n ((name, c) ∷ containers) points has
        ((v, found, typed, sized), others) =
      let (p, known, at_p) = pointer_of h m.variables vs name v points found in
      let in_file : lookup name (nc.vars n) ≡ some (written_var v) =
        ap (λ (l : Map NcVar). lookup name l) has.1
        ∙ lookup-map_values written_var name vs v found in
      let takes =
        by_variable.takes n name c (written_var v) in_file (takes_type v.type c typed) sized in
      (
        ((p, known), (n, refl, takes, has)),
        described-Writable h m vs n containers points has others,
      )

  -- The file is described, filled and read.
  abbrev pub WholeComesBack :
      {DateTime : Type 0}
      → Heap
      → Heap
      → FileData DateTime
      → Map Variable
      → N
      → String
      → DataContainer
      → Type 0
  WholeComesBack {DateTime = DateTime} h₀ h file vs n name c =
      (n₁ : N) × (n₂ : N) × (h' : Heap) × (m' : Metadata) × (Writer.write_metadata (file_writes nc)
          h₀ file.metadata (record { file = some (opened FileMode.replace n) })
        ≡ (ok tt, record { file = some (opened FileMode.replace n₁) }))
      × (write_data (file_writes nc) file (record { file = some (opened FileMode.replace n₁) })
          ≡ (ok tt, record { file = some (opened FileMode.replace n₂) }))
      × (Reader.read_metadata (file_reads nc) h (empty_file {DateTime = DateTime})
            (record { file = some (opened FileMode.read n₂) })
          ≡ (
            ok (h', record empty_file { metadata = m' }),
            record { file = some (opened FileMode.read n₂) },
          ))
      × (m'.dimensions ≡ file.metadata.dimensions)
      × (m'.global_attrs ≡ file.metadata.global_attrs)
      × PointsTo h' m'.variables vs
      × (read_full_datum (file_reads nc) h'
            (record (empty_file {DateTime = DateTime}) { metadata = m' }) name
            (record { file = some (opened FileMode.read n₂) })
          ≡ (
            ok (record empty_file {
              metadata = m';
              data_held = add_container (empty_file {DateTime = DateTime}).data_held c;
            }),
            record { file = some (opened FileMode.read n₂) },
          ))

  -- Metadata that a file can hold, with data whose containers each have a variable of their type and
  -- size, are written into a new file by writeMetadata and writeData. From a file with the contents
  -- that this leaves, readMetadata into an empty FileData gets the dimensions, the global attributes
  -- and, by their names, variables of the same values, and readFullDatum gets any container of fewer
  -- than 2 ^ 31 values that stands under its own name.
  pub read_metadata-write_data :
      {DateTime : Type 0} (h₀ h : Heap) (file : FileData DateTime) (vs : Map Variable) (n : N)
      (name : String) (c : DataContainer)
      → Writable nc defines h₀ file.metadata vs
      → IsNew nc defines n
      → IsSorted file.data_held.data_containers
      → AllDescribed vs file.data_held.data_containers
      → lookup name file.data_held.data_containers ≡ some c
      → get_name c ≡ name
      → size_of c < 2 ^ 31
      → WholeComesBack h₀ h file vs n name c
  unfolding Writer.write_metadata Writer.get_file Writer.keep Reader.read_metadata Reader.get_file
      read_full_datum
  read_metadata-write_data {DateTime = DateTime} h₀ h file vs n name c w new sorted all held own
        small =
      let (v, found, typed, sized) =
        lookup-IsDescribed vs file.data_held.data_containers name c all held in
      let (n₁, r₁, has) = write_metadata-Contains nc defines h₀ file.metadata vs n w new in
      let (g, r₂, stored, others) =
        write_data-Stores (file_writes nc) (named_stores file.metadata vs) file
          (opened FileMode.replace n₁) sorted
          (described-Writable h₀ file.metadata vs n₁ file.data_held.data_containers w.points has
            all) in
      let (n₂, handle, gives, still) = stored name c held in
      let (h', m', r₃, dims, atts, points) =
        read_metadata-Contains nc defines h h₀ file.metadata vs n₂ w still in
      let (p, known, at_p) = pointer_of h' m'.variables vs name v points found in
      let there =
        variable_of-eq (file_reads nc) h'
          (record (empty_file {DateTime = DateTime}) { metadata = m' }) name p v known at_p in
      let many : get_total_size v ≡ size_of c =
        get_total_size-product v ∙ ap (λ (k : ℕ). k % 2 ^ 64) sized ∙ (omega arith) in
      let read =
        read_container-Gives nc keeps n₂ name c v.type (get_total_size v) gives own typed many
          small in
      (
        n₁,
        n₂,
        h',
        m',
        rw r₁,
        r₂ ∙ ap (λ (x : File N). (ok tt, record { file = some x })) handle,
        rw r₃,
        dims,
        atts,
        points,
        rw (there, read),
      )
