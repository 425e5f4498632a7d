-- ===== src/Monio/Files.antt =====
-- The files' data by the name of their grid.
use monio.Base.{
  String, ◌≡◌, some, arith, ◌==◌, string_eq, ==_self, if◌then◌else◌, Bool-cases, inl, inr,
}
use monio.Map.{Map, lookup, contains, erase}
use monio.Map.Laws.{lookup-insert, lookup-erase}
use monio.FileData.{FileData, empty_file}
use monio.Monio.{create_file_data, get_file_data}

module _ {DateTime : Type 0} where
  pub lookup-create_file_data :
      (files : Map (FileData DateTime)) (grid_name other : String)
      → lookup other (create_file_data files grid_name)
        ≡ (if grid_name == other then some empty_file else lookup other files)
  unfolding create_file_data contains
  lookup-create_file_data files grid_name other = ground (
    arith,
    lookup-insert grid_name other empty_file files,
    lookup-insert grid_name other empty_file (erase grid_name files),
    lookup-erase grid_name grid_name files,
    lookup-erase grid_name other files,
    ==_self grid_name,
  )

  -- createFileData gives its grid an empty FileData, whatever was there, and leaves those of all
  -- other grids as they were.
  pub get_file_data-create_file_data :
      (files : Map (FileData DateTime)) (grid_name other : String)
      → get_file_data (create_file_data files grid_name) other
        ≡ (if grid_name == other then empty_file else get_file_data files other)
  unfolding get_file_data
  get_file_data-create_file_data files grid_name other = elim (Bool-cases (grid_name == other)) [
    | inl same ↦ rw (lookup-create_file_data files grid_name other, same, get_file_data)
    | inr apart ↦ rw (lookup-create_file_data files grid_name other, apart, get_file_data)
  ]
