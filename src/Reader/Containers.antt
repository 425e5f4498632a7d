-- ===== src/Reader/Containers.antt =====
-- What a read leaves in the data of a file, and in the reader where it throws.
use monio.Base.{
  ℕ, String, ◌≡◌, ◌≢◌, refl, ◌∙◌, subst, true, Option, none, some, arith, string_eq, ==_iff,
  ==_self, ◌⊎◌, inl, inr, Bool-cases, List,
}
use monio.Result.{Result, ok, err}
use monio.Exec.{◌>>=◌, lift, continue, on_error, pure}
use monio.Constants.{DataType}
use monio.Map.{lookup, contains}
use monio.Map.Laws.{lookup-insert}
use monio.Heap.{Heap}
use monio.Container.{Container, DataContainer, doubles, floats, ints, get_name}
use monio.Data.{Data, add_container, is_container_present}
use monio.FileData.{FileData}
use monio.Variable.{Variable}
use monio.Reader.{
  FileReads, Reader, Window, window, get_file, closed, filled, sized, read_container_at,
  variable_of, read_datum_at_step,
}
use monio.Reader.TimeSteps.{closed-eq}

lookup-add_container_other :
    (d : Data) (c : DataContainer) (k : String)
    → k ≢ get_name c
    → lookup k (add_container d c).data_containers ≡ lookup k d.data_containers
unfolding add_container contains
lookup-add_container_other d c k h =
    ground (arith, lookup-insert (get_name c) k c d.data_containers, ==_iff (get_name c) k)

is_container_present-add_container :
    (d : Data) (c : DataContainer) → is_container_present (add_container d c) (get_name c) ≡ true
unfolding is_container_present add_container contains
is_container_present-add_container d c =
    ground
      (arith, lookup-insert (get_name c) (get_name c) c d.data_containers, ==_self (get_name c))

abbrev Names : String → Result DataContainer → Type 0
Names name (ok c) = get_name c ≡ name
Names name (err e) = Unit {0}

filled-Names :
    {V : Type 0} (make : Container V → DataContainer) (name : String) (x : Result (List V))
    → ((c : Container V) → get_name (make c) ≡ c.name)
    → Names name (filled make name x)
unfolding filled
filled-Names make name (ok values) h = h (record { name = name; data_vector = values })
filled-Names make name (err e) h = tt

module _ {File : Type 0} where
  -- A throw leaves the reader as it was, or closed.
  abbrev pub LeftOrClosed : Reader File → Reader File → Type 0
  LeftOrClosed before after = (after ≡ before) ⊎ (after ≡ record { file = none })

  abbrev Reads : String → Reader File → Result DataContainer × Reader File → Type 0
  Reads name r (ok c, r') = (r' ≡ r) × (get_name c ≡ name)
  Reads name r (err e, r') = LeftOrClosed r r'

  lift-Reads :
      (name : String) (r : Reader File) (x : Result DataContainer)
      → Names name x
      → Reads name r (x, r)
  lift-Reads name r (ok c) h = (refl, h)
  lift-Reads name r (err e) h = inl refl

  from_file-Reads :
      (name : String) (size : Result ℕ) (o : Option File) (k : ℕ → File → Result DataContainer)
      → ((n : ℕ) (f : File) → Names name (k n f))
      → Reads name
          (record { file = o })
          ((lift size >>= λ n. get_file >>= λ f. lift (k n f)) (record { file = o }))
  unfolding get_file
  from_file-Reads name (err e) o k h = inl refl
  from_file-Reads name (ok n) none k h = inl refl
  from_file-Reads name (ok n) (some f) k h =
      lift-Reads name (record { file = some f }) (k n f) (h n f)

module _ {File : Type 0} (api : FileReads File) where
  read_container_at-Reads :
      (type : DataType) (name : String) (w : Window) (r : Reader File)
      → Reads name r (read_container_at api type name w r)
  unfolding read_container_at get_name
  read_container_at-Reads DataType.double name w r =
      from_file-Reads name (sized w.size) r.file _ (λ n f. filled-Names doubles name _ (λ c. refl))
  read_container_at-Reads DataType.float name w r =
      from_file-Reads name (sized w.size) r.file _ (λ n f. filled-Names floats name _ (λ c. refl))
  read_container_at-Reads DataType.int name w r =
      from_file-Reads name (sized w.size) r.file _ (λ n f. filled-Names ints name _ (λ c. refl))
  read_container_at-Reads DataType.byte name w r = inr (closed-eq r)
  read_container_at-Reads DataType.char name w r = inr (closed-eq r)
  read_container_at-Reads DataType.short name w r = inr (closed-eq r)
  read_container_at-Reads DataType.ubyte name w r = inr (closed-eq r)
  read_container_at-Reads DataType.ushort name w r = inr (closed-eq r)
  read_container_at-Reads DataType.uint name w r = inr (closed-eq r)
  read_container_at-Reads DataType.uint64 name w r = inr (closed-eq r)
  read_container_at-Reads DataType.string name w r = inr (closed-eq r)

  module _ {DateTime : Type 0} where
    abbrev pub AfterRead :
        FileData DateTime → String → Reader File → Result (FileData DateTime) × Reader File → Type 0
    AfterRead file name r (ok file', r') =
        (r' ≡ r)
        × (is_container_present file'.data_held name ≡ true)
        × (file'.metadata ≡ file.metadata)
        × ((other : String)
            → other ≢ name
            → lookup other file'.data_held.data_containers
              ≡ lookup other file.data_held.data_containers)
    AfterRead file name r (err e, r') = LeftOrClosed r r'

    add-AfterRead :
        (file : FileData DateTime) (name : String) (r : Reader File)
        (x : Result DataContainer × Reader File)
        → Reads name r x
        → AfterRead file name r (
            continue
              (λ c s. (ok (record file { data_held = add_container file.data_held c }), s))
              x)
    add-AfterRead file name r (ok c, r') (same, named) = (
      same,
      subst (λ n. is_container_present (add_container file.data_held c) n ≡ true) named
          (is_container_present-add_container file.data_held c),
      refl,
      λ other ne. lookup-add_container_other file.data_held c other (λ p. ne (p ∙ named)),
    )
    add-AfterRead file name r (err e, r') h = h

    from_variable-AfterRead :
        (file : FileData DateTime) (name : String) (time_step : ℕ) (time_dim_name : String)
        (r : Reader File) (x : Result Variable)
        → AfterRead file name r (
            continue
              (λ v. read_container_at api v.type name (window time_dim_name time_step v) >>= λ c.
                pure (record file { data_held = add_container file.data_held c }))
              (on_error closed (x, r)))
    from_variable-AfterRead file name time_step time_dim_name r (ok v) =
        add-AfterRead file name r
          (read_container_at api v.type name (window time_dim_name time_step v) r)
          (read_container_at-Reads v.type name (window time_dim_name time_step v) r)
    from_variable-AfterRead file name time_step time_dim_name r (err e) = inr (closed-eq r)

    -- readDatumAtTime either throws, and leaves the reader as it was or closed, or leaves it as it
    -- was, with a container of the name in the data and all other containers and the metadata
    -- unchanged.
    pub read_datum_at_step-AfterRead :
        (h : Heap) (file : FileData DateTime) (name : String) (time_step : ℕ)
        (time_dim_name : String) (r : Reader File)
        → AfterRead file name r (read_datum_at_step api h file name time_step time_dim_name r)
    unfolding read_datum_at_step
    read_datum_at_step-AfterRead h file name time_step time_dim_name r =
        elim (Bool-cases (is_container_present file.data_held name)) [
          | inl there ↦ rw there (refl, there, refl, λ other ne. refl)
          | inr new ↦ rw new (
              from_variable-AfterRead file name time_step time_dim_name r
                (variable_of api h file name))
        ]
