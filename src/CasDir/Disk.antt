-- ===== src/CasDir/Disk.antt =====
-- The calls of packages os, ioutil and unix that the directory store makes, and the digests and the
-- JSON encoding, as parameters.
use umoci.Base.{ℕ, Bool, String, List, Text}
use umoci.Base.Errors.{GoError}
use umoci.Base.Result.{Result}
use umoci.Base.Program.{Program}
use umoci.Image.{Index}

-- A path: its components from the working directory, the last one first.
abbrev pub Location : Type 0
Location = List String

-- An open file, and the path that it was opened at.
pub record File : Type 0 where
  pub fd : ℕ
  pub path : Location

-- Calls that only read leave the state as it is. C is what a file holds.
pub record Disk (S C : Type 0) : Type 0 where
  pub read_file : Location → S → Result GoError C
  pub stat_dir : Location → S → Result GoError Bool
  pub walk : Location → S → Result GoError (List Location)
  pub glob : Location → String → S → Result GoError (List Location)
  pub temp_dir : Location → String → Program S Location
  pub temp_file : Location → String → Program S File
  pub open_file : Location → Program S File
  pub create : Location → Program S File
  pub flock : File → Program S (Unit {0})
  pub funlock : File → Program S (Unit {0})
  pub write : File → C → Program S (Unit {0})
  pub close : File → Program S (Unit {0})
  pub rename : Location → Location → Program S (Unit {0})
  pub remove : Location → Program S (Unit {0})
  pub remove_all : Location → Program S (Unit {0})
  pub mkdir : Location → ℕ → Program S (Unit {0})
  pub mkdir_all : Location → ℕ → Program S (Unit {0})

-- Package go-digest.
pub record Digests : Type 0 where
  pub validate : String → Result GoError (Unit {0})
  pub algorithm : String → String
  pub hex : String → String
  pub new_from_hex : String → String → String
  pub sha256 : Text → String

-- What files hold: the bytes of a blob, and what encoding/json makes of an index and of the version of
-- an image layout.
pub record Json (C : Type 0) : Type 0 where
  pub of_text : Text → C
  pub to_text : C → Text
  pub encode_index : Index → C
  pub decode_index : C → Result GoError Index
  pub encode_layout : String → C
  pub decode_layout : C → Result GoError String
