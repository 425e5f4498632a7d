-- ===== src/FileData.antt =====
-- src/monio/FileData.cc: the data and metadata of a file, its map from LFRic to Atlas order, and its
-- date-times. A date-time is a value of a type of the oops library, a parameter. The variables of
-- the metadata stay in the heap, so that a copy of a FileData shares them.
use monio.Base.{ℕ, List, []}
use monio.Metadata.{Metadata}
use monio.Metadata
use monio.Data.{Data}
use monio.Data

pub record FileData (DateTime : Type 0) : Type 0 where
  pub data_held : Data
  pub metadata : Metadata
  pub lfric_atlas_map : List ℕ
  pub date_times : List DateTime

module _ {DateTime : Type 0} where
  -- The constructor.
  abbrev pub empty_file : FileData DateTime
  empty_file = record {
    data_held = Data.empty;
    metadata = Metadata.empty;
    lfric_atlas_map = [];
    date_times = [];
  }

  unfoldable pub clear_data : FileData DateTime → FileData DateTime
  clear_data f = record f {
    metadata = Metadata.clear f.metadata;
    data_held = Data.clear f.data_held;
  }

  unfoldable pub set_lfric_atlas_map : FileData DateTime → List ℕ → FileData DateTime
  set_lfric_atlas_map f map = record f { lfric_atlas_map = map }

  unfoldable pub set_date_times : FileData DateTime → List DateTime → FileData DateTime
  set_date_times f times = record f { date_times = times }
