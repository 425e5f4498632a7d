-- ===== src/Writer/Stored.antt =====
-- What writeData leaves in the file.
use monio.Base.{
  String, ◌≡◌, ◌≢◌, refl, ◌∙◌, [], ◌∷◌, none, some, arith, ◌==◌, string_eq, ==_iff, Bool-cases, inl,
  inr,
}
use monio.Result.{ok}
use monio.Exec.{Exec}
use monio.Map.{Map, lookup}
use monio.Map.Sorted.{IsSorted, lookup_below}
use monio.Heap.{Pointer}
use monio.Metadata.{Metadata, get_variable}
use monio.Container.{DataContainer}
use monio.FileData.{FileData}
use monio.Writer.{FileWrites, Writer, write_values, write_containers, write_data}

-- What a NetCDF file does with the writes: a variable that it defines takes the values of a
-- container, and keeps them while others are written.
pub record StoresValues {File : Type 0} (api : FileWrites File) : Type 1 where
  pub Defines : File → String → DataContainer → Type 0
  pub Holds : File → String → DataContainer → Type 0
  pub write : (f : File) (name : String) (c : DataContainer) → Defines f name c → File
  pub write-eq :
      (f : File) (name : String) (c : DataContainer) (d : Defines f name c)
      → write_values api f name c ≡ ok (write f name c d)
  pub Holds-write :
      (f : File) (name : String) (c : DataContainer) (d : Defines f name c)
      → Holds (write f name c d) name c
  pub Defines-write :
      (f : File) (name k : String) (c e : DataContainer) (d : Defines f name c)
      → Defines f k e
      → Defines (write f name c d) k e
  pub Holds-write_other :
      (f : File) (name k : String) (c held : DataContainer) (d : Defines f name c)
      → k ≢ name
      → Holds f k held
      → Holds (write f name c d) k held

module _ {File : Type 0} (api : FileWrites File) (nc : StoresValues api) (m : Metadata) where
  -- Each container has a variable in the metadata and in the file.
  abbrev pub Writable : File → Map DataContainer → Type 0
  Writable f [] = Unit {0}
  Writable f ((name, c) ∷ containers) =
      (((p : Pointer) × (lookup name m.variables ≡ some p)) × nc.Defines f name c)
      × Writable f containers

  Writable-write :
      (f : File) (name : String) (c : DataContainer) (d : nc.Defines f name c)
      (containers : Map DataContainer)
      → Writable f containers
      → Writable (nc.write f name c d) containers
  Writable-write f name c d [] h = tt
  Writable-write f name c d ((k, e) ∷ containers) h =
      ((h.0.0, nc.Defines-write f name k c e d h.0.1), Writable-write f name c d containers h.1)

  write_containers-cons :
      (f : File) (name : String) (c : DataContainer) (d : nc.Defines f name c) (p : Pointer)
      (containers : Map DataContainer)
      → lookup name m.variables ≡ some p
      → write_containers api m ((name, c) ∷ containers) (record { file = some f })
        ≡ write_containers api m containers (record { file = some (nc.write f name c d) })
  unfolding write_containers get_variable
  write_containers-cons f name c d p containers found =
      let checked : get_variable m name ≡ ok p = rw (found, get_variable) in
      rw (checked, nc.write-eq f name c d)

  -- The containers stand in the file that is open afterwards, and what it held under other names
  -- is still there.
  abbrev pub Stores : Exec (Writer File) (Unit {0}) → File → Map DataContainer → Type 0
  Stores call f containers =
      (g : File) × (call (record { file = some f }) ≡ (ok tt, record { file = some g }))
      × ((k : String) (c : DataContainer) → lookup k containers ≡ some c → nc.Holds g k c)
      × ((k : String) (c : DataContainer)
          → lookup k containers ≡ none
          → nc.Holds f k c
          → nc.Holds g k c)

  write_containers-Stores :
      (f : File) (containers : Map DataContainer)
      → IsSorted containers
      → Writable f containers
      → Stores (write_containers api m containers) f containers
  unfolding lookup
  write_containers-Stores f [] s h =
      (f, unfold write_containers in refl, (λ k c p. absurd cc), (λ k c p held. held))
  write_containers-Stores f ((name, c) ∷ containers) s h =
      let (((p, found), d), later) = h in
      let f' = nc.write f name c d in
      let (g, r, stored, kept) =
        write_containers-Stores f' containers s.1 (Writable-write f name c d containers later) in
      (
        g,
        write_containers-cons f name c d p containers found ∙ r,
        (λ k e q. elim (Bool-cases (name == k)) [
          | inl here ↦
              let at_k : name ≡ k = (==_iff name k).0 here in
              let taken : some c ≡ some e = rw here at q in
              let same : c ≡ e = cc in
              rw (← at_k, ← same)
                (kept name c (lookup_below name containers s.0) (nc.Holds-write f name c d))
          | inr past ↦ stored k e (rw past at q)
        ]),
        (λ k e q held. elim (Bool-cases (name == k)) [
          | inl here ↦ let bad : some c ≡ none = rw here at q in absurd cc
          | inr past ↦
              kept k e (rw past at q)
                (nc.Holds-write_other f name k c e d (λ x. ground (arith, ==_iff name k)) held)
        ]),
      )

module _ {File : Type 0} (api : FileWrites File) (nc : StoresValues api) {DateTime : Type 0}
    (file : FileData DateTime) where
  -- Where the map of containers is in order and each container has a variable in the metadata and in
  -- the open file, writeData succeeds and leaves the file open, which then holds every container's
  -- values, and still those of variables without a container.
  pub write_data-Stores :
      (f : File)
      → IsSorted file.data_held.data_containers
      → Writable api nc file.metadata f file.data_held.data_containers
      → Stores api nc file.metadata (write_data api file) f file.data_held.data_containers
  unfolding write_data
  write_data-Stores f =
      write_containers-Stores api nc file.metadata f file.data_held.data_containers
