-- ===== src/Config/Generator.antt =====
-- oci/config/generate/spec.go: the Generator and its initial state.
use umoci.Base.{Option, none, some, []}
use umoci.Image.{Image, ImageConfig, RootFs}

-- Generator
pub record Generator : Type 0 where
  pub image : Image

-- g.image.Config, replaced
abbrev pub with_config : Generator → ImageConfig → Generator
with_config g c = record g { image = record g.image { config = c } }

abbrev pub with_rootfs : Generator → RootFs → Generator
with_rootfs g r = record g { image = record g.image { rootfs = r } }

unfoldable pub clear_config_exposed_ports : Generator → Generator
clear_config_exposed_ports g = with_config g (record g.image.config { exposed_ports = some [] })

unfoldable pub clear_config_env : Generator → Generator
clear_config_env g = with_config g (record g.image.config { env = some [] })

unfoldable pub clear_config_entrypoint : Generator → Generator
clear_config_entrypoint g = with_config g (record g.image.config { entrypoint = some [] })

unfoldable pub clear_config_cmd : Generator → Generator
clear_config_cmd g = with_config g (record g.image.config { cmd = some [] })

unfoldable pub clear_config_volumes : Generator → Generator
clear_config_volumes g = with_config g (record g.image.config { volumes = some [] })

unfoldable pub clear_config_labels : Generator → Generator
clear_config_labels g = with_config g (record g.image.config { labels = some [] })

unfoldable pub clear_rootfs_diff_ids : Generator → Generator
clear_rootfs_diff_ids g = with_rootfs g (record g.image.rootfs { diff_ids = some [] })

unfoldable pub clear_history : Generator → Generator
clear_history g = record g { image = record g.image { history = some [] } }

-- One step of init: the clearing, if the field is nil.
unfoldable pub fill {ℓ} :
    {A : Type ℓ} → (Generator → Option A) → (Generator → Generator) → Generator → Generator
fill field clear g = elim (field g) [ none ↦ clear g | some a ↦ g ]

-- The steps of init, in order.
abbrev pub fill_sets : Generator → Generator
fill_sets g =
    fill (λ g. g.image.config.env) clear_config_env
      (fill (λ g. g.image.config.exposed_ports) clear_config_exposed_ports g)

abbrev pub fill_lists : Generator → Generator
fill_lists g =
    fill (λ g. g.image.config.volumes) clear_config_volumes
      (fill (λ g. g.image.config.cmd) clear_config_cmd
        (fill (λ g. g.image.config.entrypoint) clear_config_entrypoint g))

abbrev pub fill_rest : Generator → Generator
fill_rest g =
    fill (λ g. g.image.history) clear_history
      (fill (λ g. g.image.rootfs.diff_ids) clear_rootfs_diff_ids
        (fill (λ g. g.image.config.labels) clear_config_labels g))

-- init
unfoldable pub init : Generator → Generator
init g = fill_rest (fill_lists (fill_sets g))

-- NewFromImage, whose error is always nil.
unfoldable pub new_from_image : Image → Generator
unfolding init
new_from_image image = init (record { image = image })
