-- ===== src/Lib.antt =====
-- MONIO reads and writes the NetCDF files of the LFRic model and moves their data into and out of
-- Atlas fields for JEDI. These modules model its core over the native numbers and prove what makes
-- it correct. The code stands under src/monio.
--
-- The program: Monio.cc drives Reader.cc, which reads a file into a FileData, and AtlasReader.cc,
-- which puts its data into a field; and AtlasWriter.cc, which puts a field into a FileData, and
-- Writer.cc, which writes that. UtilsAtlas.cc makes the map that tells at which column of the file
-- each column of a field stands. The parts and their files:
--   Variable: Variable.cc and the attribute classes, a record with the dimensions in order and the
--     attributes by name. Variable/Invariant holds the invariant of a sequence of calls.
--   Heap: the variables that std::shared_ptr<Variable> points to, since copies of metadata share them;
--     Heap/Trims relates the heaps before and after a call.
--   Metadata: Metadata.cc over that heap; Metadata/Compare is its operator==.
--   Container: the three DataContainer classes; Data: Data.cc, the containers of a file by name.
--   FileData: FileData.cc. A date-time of oops is a type parameter.
--   NetCdf: the part of the NetCDF library that File.cc uses, a parameter with laws; NetCdf/Model is
--     a library in memory that meets them.
--   File: File.cc over that library; File/Reads and File/Writes are its metadata, and File/Calls is
--     what the reader and the writer use of it. File/Throws is about the errors that it gives,
--     File/Growth about the variables that it leaves alone, and File/Whole about a file that the writer makes and the reader reads.
--   Reader: Reader.cc, an open file or none as its state, over an interface that File/Calls fills.
--   Exec: the calls that change a state and may throw. Exec/Closes, Exec/Preserves and
--     Exec/Fails are rules on what such a call leaves and throws, one for each way to build it.
--   Monio: of Monio.cc the files' data by grid, cleanFileData and addJediData. Monio/State is the
--     state of the singleton, with closeFiles, and what it is given from outside (sets of fields and
--     grids of Atlas, the date-times of oops); Monio/Initialise is initialiseFile with
--     createLfricAtlasMap and createDateTimes, Monio/ReadState is readState and readIncrements, and
--     Monio/WriteState is writeIncrements, writeState and writeFieldSet. Monio/Closing is about the
--     files that they leave open, Monio/Keeping about the files' data, and the variables that these
--     point to, that they leave alone.
--   Atlas: the part of the Atlas library that the code uses, a parameter: a field is seen through
--     array views of columns and levels whose laws are those of an array (Atlas), and through its
--     name, shape, type of values and function space (Atlas/Fields). Atlas/Model and Atlas/Typed are
--     fields that meet the laws.
--   UtilsAtlas: UtilsAtlas.cc, with the k-d tree of Atlas as a parameter; UtilsAtlas/Comparison is
--     about its comparisons.
--   Writer: Writer.cc, as Reader is; Writer/Stored says what the file does with the values.
--   AtlasReader: the populateField with a map of AtlasReader.cc; AtlasReader/Files the rest of it.
--   AtlasWriter: the populateDataVec with a map and copySurfaceLevel of AtlasWriter.cc;
--     AtlasWriter/Metadata and AtlasWriter/Files the rest of it for a field with metadata,
--     AtlasWriter/Plain the populateFileDataWithField for a field alone.
--   RoundTrip relates AtlasWriter and AtlasReader, in RoundTrip/Disk through Writer, File and Reader.
--   Utils: Utils.cc. Constants: Constants.h. Values: the bit patterns of double and float.
--   Map: std::map as an association list in the order of its keys. Result: the errors that the code
--     throws, one constructor for each message, and undefined behaviour as an error of its own.
--   Base: what all modules share. Examples: the theorems at concrete inputs.
-- The definitions of a part stand in the file of its name, its proofs in the files below.
--
-- Loops over vectors are recursion on the rest of the vector, loops over levels recursion on the
-- number of rounds left, so that none needs fuel; strToWords has the length of its text as fuel,
-- since each round takes at least one character, and the decimal text of an int has 10 digits as
-- fuel, as many as an int has. Indices keep the conversions of the code: a size_t wraps at 2 ^ 64,
-- an int at 2 ^ 32, and where an atlas::idx_t would overflow the access is undefined; theorems
-- about indices ask for data of at most 2 ^ 31 values.
--
-- The code is modelled on the MPI rank that owns the files. The errors of Metadata.cc, Variable.cc
-- and the other components call closeFiles of the singleton before they throw: Reader and Writer
-- close the file that is their own state there, and Monio closes both. What make_view of Atlas throws
-- on a field of another type, and the std::length_error of setSize on a size that is negative as an
-- int, come without closeFiles. A step of initialiseFile that
-- throws leaves the entry of the grid as it was before that step, where the code may have changed a
-- part of it. Not modelled are the log lines and Metadata::print, the other ranks, the getter and
-- the constructor of the singleton, a close that throws, what a call that throws leaves in a file
-- itself, running out of memory and a vector of date-times with more elements than it can have, and
-- the calls that only pass on to Atlas, MPI or the operating system.
pub mod Base
pub mod Result
pub mod Map
pub mod Utils
pub mod Constants
pub mod Values
pub mod Variable
pub mod Heap
pub mod Metadata
pub mod Container
pub mod Data
pub mod FileData
pub mod Exec
pub mod NetCdf
pub mod File
pub mod Reader
pub mod Writer
pub mod Monio
pub mod Atlas
pub mod UtilsAtlas
pub mod AtlasReader
pub mod AtlasWriter
pub mod RoundTrip
pub mod Examples
