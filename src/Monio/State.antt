-- ===== src/Monio/State.antt =====
-- The state of Monio (src/monio/Monio.h), the calls of its components, and what it is given from
-- outside: the sets of fields and the grids of Atlas, the date-times of oops and the file system.
use monio.Base.{ℕ, String, List, Bool, true, false}
use monio.Result.{Result, ok, err, Error, closes_files, netcdf_exception, view_type}
use monio.Exec.{Exec, lift, cleaning, cleaning_where, on_error_where}
use monio.Map.{Map}
use monio.Heap.{Heap}
use monio.FileData.{FileData}
use monio.Reader.{Reader}
use monio.Reader
use monio.Writer.{Writer}
use monio.Writer
use monio.Atlas.Fields.{FieldLibrary}
use monio.UtilsAtlas.{PointLonLat}

-- reader_, writer_, filesData_, and dimCount_ of atlasWriter_. The heap holds the variables of all
-- metadata.
pub record Monio (File DateTime : Type 0) : Type 0 where
  pub reader : Reader File
  pub writer : Writer File
  pub files_data : Map (FileData DateTime)
  pub dim_count : ℕ
  pub heap : Heap

-- Sets of fields `S`, fields `F` and grids `G` of Atlas; the messages between the ranks are in the
-- gathering of a local field and in the scattering of a global one with its halo exchange.
pub record AtlasHost (S F G : Type 0) : Type 0 where
  pub fields : FieldLibrary F
  pub set_size : S → ℕ
  -- set[name], set[0], and the fields of a set in order
  pub field_of : S → String → Result F
  pub first_field : S → Result F
  pub set_fields : S → List F
  -- the set after the field of a name, which is one of its fields, was written
  pub put_field : S → String → F → S
  -- getGlobalField; scatter with haloExchange, of a global field into a local one
  pub get_global_field : F → F
  pub scatter : F → F → F
  pub grid_of : F → G
  pub grid_name : G → String
  -- getAtlasCoords of a grid and of a field, and the k-d tree
  pub grid_coords : G → List PointLonLat
  pub field_coords : F → List PointLonLat
  pub closest : List PointLonLat → PointLonLat → ℕ

-- util::DateTime from a text, which throws on one that it cannot read, and its sum with a
-- util::Duration of seconds.
pub record Clock (DateTime : Type 0) : Type 0 where
  pub parse : List ℕ → Result DateTime
  pub add_seconds : DateTime → ℕ → DateTime

abbrev pub close_reader : {File : Type 0} → Reader File → Result (Unit {0}) × Reader File
close_reader r = (ok tt, Reader.closed r)

abbrev pub close_writer : {File : Type 0} → Writer File → Result (Unit {0}) × Writer File
close_writer w = (ok tt, Writer.closed w)

-- Every error but that of make_view.
unfoldable pub closes_but_view : Error → Bool
closes_but_view view_type = false
closes_but_view _ = true

module _ {File DateTime : Type 0} where
  unfoldable pub close_files : Monio File DateTime → Monio File DateTime
  close_files s = record s { reader = Reader.closed s.reader; writer = Writer.closed s.writer }

  -- closeFiles(), then throwException.
  abbrev pub throwing : {A : Type 0} → Error → Exec (Monio File DateTime) A
  throwing e = cleaning close_files (err e)

  -- A call of AtlasReader, AtlasWriter, UtilsAtlas, Data, Metadata or Variable, each of which calls
  -- closeFiles before it throws.
  abbrev pub component : {A : Type 0} → Result A → Exec (Monio File DateTime) A
  component r = cleaning close_files r

  -- A call of AtlasReader that makes a view: Atlas throws without closeFiles.
  unfoldable pub view_component : {A : Type 0} → Result A → Exec (Monio File DateTime) A
  unfolding close_files closes_but_view
  view_component r = cleaning_where closes_but_view close_files (lift r)

  abbrev pub with_reader :
      {A : Type 0} → Monio File DateTime → Result A × Reader File → Result A × Monio File DateTime
  with_reader s (r, reader) = (r, record s { reader = reader })

  abbrev pub with_writer :
      {A : Type 0} → Monio File DateTime → Result A × Writer File → Result A × Monio File DateTime
  with_writer s (r, writer) = (r, record s { writer = writer })

  -- A call of the reader or the writer. Some of the errors in it close both.
  unfoldable pub on_reader : {A : Type 0} → Exec (Reader File) A → Exec (Monio File DateTime) A
  unfolding close_files closes_files
  on_reader call s = on_error_where closes_files close_files (with_reader s (call s.reader))

  unfoldable pub on_writer : {A : Type 0} → Exec (Writer File) A → Exec (Monio File DateTime) A
  unfolding close_files closes_files
  on_writer call s = on_error_where closes_files close_files (with_writer s (call s.writer))

  abbrev pub state : Exec (Monio File DateTime) (Monio File DateTime)
  state s = (ok s, s)

  abbrev pub set_heap : Heap → Exec (Monio File DateTime) (Unit {0})
  set_heap h s = (ok tt, record s { heap = h })

  abbrev pub set_dim_count : ℕ → Exec (Monio File DateTime) (Unit {0})
  set_dim_count n s = (ok tt, record s { dim_count = n })

  abbrev pub set_files_data : Map (FileData DateTime) → Exec (Monio File DateTime) (Unit {0})
  set_files_data files s = (ok tt, record s { files_data = files })

  -- catch (netCDF::exceptions::NcException): closeFiles(), then another message.
  abbrev pub catching :
      {A : Type 0} → Error → Result A × Monio File DateTime → Result A × Monio File DateTime
  catching e (err netcdf_exception, s) = (err e, close_files s)
  catching e (r, s) = (r, s)

  unfoldable pub catch_netcdf :
      {A : Type 0} → Error → Exec (Monio File DateTime) A → Exec (Monio File DateTime) A
  unfolding close_files
  catch_netcdf e call s = catching e (call s)
