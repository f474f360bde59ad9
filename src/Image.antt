-- ===== src/Image.antt =====
-- The image-spec structures that the program works on. Go's nil slices and maps are `none` where
-- the code tells them from empty ones; texts that no code walks are `String`.
use umoci.Base.{ℕ, Bool, Option, String, List, Text}
use umoci.Base.Int.{ℤ}
use umoci.Base.Dict.{Dict}

-- ispec.Platform
pub record Platform : Type 0 where
  pub architecture : String
  pub os : String
  pub os_version : String
  pub os_features : List String
  pub variant : String

-- ispec.Descriptor
pub record Descriptor : Type 0 where
  pub media_type : String
  pub digest : String
  pub size : ℤ
  pub urls : List String
  pub annotations : Option (Dict String)
  pub platform : Option Platform

-- ispec.Index
pub record Index : Type 0 where
  pub schema_version : ℕ
  pub media_type : String
  pub manifests : List Descriptor
  pub annotations : Option (Dict String)

-- ispec.Manifest
pub record Manifest : Type 0 where
  pub schema_version : ℕ
  pub media_type : String
  pub config : Descriptor
  pub layers : List Descriptor
  pub annotations : Option (Dict String)

-- ispec.ImageConfig. A Go set is a map to the empty struct.
pub record ImageConfig : Type 0 where
  pub user : String
  pub exposed_ports : Option (Dict (Unit {0}))
  pub env : Option (List Text)
  pub entrypoint : Option (List String)
  pub cmd : Option (List String)
  pub volumes : Option (Dict (Unit {0}))
  pub working_dir : String
  pub labels : Option (Dict String)
  pub stop_signal : String

-- ispec.RootFS
pub record RootFs : Type 0 where
  pub kind : String
  pub diff_ids : Option (List String)

-- ispec.History; a time is a number.
pub record History : Type 0 where
  pub created : Option ℕ
  pub created_by : String
  pub author : String
  pub comment : String
  pub empty_layer : Bool

-- ispec.Image
pub record Image : Type 0 where
  pub created : Option ℕ
  pub author : String
  pub architecture : String
  pub os : String
  pub config : ImageConfig
  pub rootfs : RootFs
  pub history : Option (List History)
