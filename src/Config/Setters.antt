-- ===== src/Config/Setters.antt =====
-- oci/config/generate/spec.go: the methods that change a Generator. A write to a nil map is a panic,
-- and `none` here.
use umoci.Base.{ℕ, Option, none, some, String, List, [], ◌∷◌, ◌++◌, Text}
use umoci.Base.Dict.{Dict, insert, erase}
use umoci.Image.{History}
use umoci.Config.Env.{append_env}
use umoci.Config.Generator.{Generator, with_config, with_rootfs}

-- m[k] = v, where m may be nil.
abbrev pub write {ℓ} : {V : Type ℓ} → String → V → Option (Dict V) → Option (Dict V)
write k v none = none
write k v (some m) = some (insert k v m)

-- delete(m, k), which does nothing to a nil map.
abbrev pub delete {ℓ} : {V : Type ℓ} → String → Option (Dict V) → Option (Dict V)
delete k none = none
delete k (some m) = some (erase k m)

-- append(xs, x), where xs may be nil.
abbrev pub append_one {ℓ} : {A : Type ℓ} → Option (List A) → A → List A
append_one none x = x ∷ []
append_one (some xs) x = xs ++ x ∷ []

unfoldable pub set_config_user : String → Generator → Generator
set_config_user v g = with_config g (record g.image.config { user = v })

unfoldable pub add_config_exposed_port : String → Generator → Option Generator
add_config_exposed_port k g = elim (write k tt g.image.config.exposed_ports) [
  | none ↦ none
  | some m ↦ some (with_config g (record g.image.config { exposed_ports = some m }))
]

unfoldable pub remove_config_exposed_port : String → Generator → Generator
remove_config_exposed_port k g =
    with_config g (record g.image.config { exposed_ports = delete k g.image.config.exposed_ports })

-- AddConfigEnv, with the loop of appendEnv; a nil slice has no entries.
unfoldable pub add_config_env : Text → Text → Generator → Generator
add_config_env name value g = with_config g (record g.image.config {
  env = elim g.image.config.env [
    | none ↦ some (append_env [] name value)
    | some env ↦ some (append_env env name value)
  ];
})

unfoldable pub set_config_entrypoint : List String → Generator → Generator
set_config_entrypoint v g = with_config g (record g.image.config { entrypoint = some v })

unfoldable pub set_config_cmd : List String → Generator → Generator
set_config_cmd v g = with_config g (record g.image.config { cmd = some v })

unfoldable pub add_config_volume : String → Generator → Option Generator
add_config_volume k g = elim (write k tt g.image.config.volumes) [
  | none ↦ none
  | some m ↦ some (with_config g (record g.image.config { volumes = some m }))
]

unfoldable pub remove_config_volume : String → Generator → Generator
remove_config_volume k g =
    with_config g (record g.image.config { volumes = delete k g.image.config.volumes })

unfoldable pub add_config_label : String → String → Generator → Option Generator
add_config_label k v g = elim (write k v g.image.config.labels) [
  | none ↦ none
  | some m ↦ some (with_config g (record g.image.config { labels = some m }))
]

unfoldable pub remove_config_label : String → Generator → Generator
remove_config_label k g =
    with_config g (record g.image.config { labels = delete k g.image.config.labels })

unfoldable pub set_config_working_dir : String → Generator → Generator
set_config_working_dir v g = with_config g (record g.image.config { working_dir = v })

unfoldable pub set_config_stop_signal : String → Generator → Generator
set_config_stop_signal v g = with_config g (record g.image.config { stop_signal = v })

unfoldable pub set_rootfs_type : String → Generator → Generator
set_rootfs_type v g = with_rootfs g (record g.image.rootfs { kind = v })

unfoldable pub add_rootfs_diff_id : String → Generator → Generator
add_rootfs_diff_id d g =
    with_rootfs g (record g.image.rootfs { diff_ids = some (append_one g.image.rootfs.diff_ids d) })

unfoldable pub add_history : History → Generator → Generator
add_history h g = record g {
  image = record g.image { history = some (append_one g.image.history h) };
}

unfoldable pub set_created : ℕ → Generator → Generator
set_created t g = record g { image = record g.image { created = some t } }

unfoldable pub set_author : String → Generator → Generator
set_author v g = record g { image = record g.image { author = v } }

unfoldable pub set_architecture : String → Generator → Generator
set_architecture v g = record g { image = record g.image { architecture = v } }

unfoldable pub set_os : String → Generator → Generator
set_os v g = record g { image = record g.image { os = v } }
