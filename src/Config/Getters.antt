-- ===== src/Config/Getters.antt =====
-- oci/config/generate/spec.go: the methods that read a Generator. A copy of a nil slice or map is an
-- empty one. ConfigExposedPortsArray sorts its result, and is not modelled.
use umoci.Base.{ℕ, Option, none, some, String, List, [], Text}
use umoci.Base.Dict.{Dict}
use umoci.Image.{History}
use umoci.Config.Generator.{Generator}

-- The copy that a getter makes of a slice or a map.
abbrev pub copy {ℓ} : {A : Type ℓ} → Option (List A) → List A
copy none = []
copy (some xs) = xs

unfoldable pub config_user : Generator → String
config_user g = g.image.config.user

unfoldable pub config_exposed_ports : Generator → Dict (Unit {0})
config_exposed_ports g = copy g.image.config.exposed_ports

unfoldable pub config_env : Generator → List Text
config_env g = copy g.image.config.env

unfoldable pub config_entrypoint : Generator → List String
config_entrypoint g = copy g.image.config.entrypoint

unfoldable pub config_cmd : Generator → List String
config_cmd g = copy g.image.config.cmd

unfoldable pub config_volumes : Generator → Dict (Unit {0})
config_volumes g = copy g.image.config.volumes

unfoldable pub config_labels : Generator → Dict String
config_labels g = copy g.image.config.labels

unfoldable pub config_working_dir : Generator → String
config_working_dir g = g.image.config.working_dir

unfoldable pub config_stop_signal : Generator → String
config_stop_signal g = g.image.config.stop_signal

unfoldable pub rootfs_type : Generator → String
rootfs_type g = g.image.rootfs.kind

unfoldable pub rootfs_diff_ids : Generator → List String
rootfs_diff_ids g = copy g.image.rootfs.diff_ids

unfoldable pub history : Generator → List History
history g = copy g.image.history

unfoldable pub author : Generator → String
author g = g.image.author

unfoldable pub architecture : Generator → String
architecture g = g.image.architecture

unfoldable pub os : Generator → String
os g = g.image.os

-- Created; the zero time is 0.
unfoldable pub created : Generator → ℕ
created g = elim g.image.created [ none ↦ 0 | some t ↦ t ]
