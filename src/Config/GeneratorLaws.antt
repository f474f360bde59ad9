-- ===== src/Config/GeneratorLaws.antt =====
-- oci/config/generate/spec.go: a Generator made by NewFromImage never writes to a nil map.
use umoci.Base.{
  ℕ, ◌≡◌, refl, Option, none, some, String, List, [], ◌∷◌, Text, Bool, true, false, Option-cases,
  inl, inr,
}
use umoci.Image.{Image, History}
use umoci.Config.Generator.{
  Generator, clear_config_exposed_ports, clear_config_env, clear_config_entrypoint,
  clear_config_cmd, clear_config_volumes, clear_config_labels, clear_rootfs_diff_ids, clear_history,
  fill, fill_sets, fill_lists, with_config, init, new_from_image,
}
use umoci.Base.Dict.{Dict, insert}
use umoci.Config.Setters.{
  delete, set_config_user, add_config_exposed_port, remove_config_exposed_port, add_config_env,
  set_config_entrypoint, set_config_cmd, add_config_volume, remove_config_volume, add_config_label,
  remove_config_label, set_config_working_dir, set_config_stop_signal, set_rootfs_type,
  add_rootfs_diff_id, add_history, set_created, set_author, set_architecture, set_os,
}

-- A call of one of the methods that change a Generator.
pub data Call : Type 0 where
  user working_dir stop_signal kind author architecture os : String → Call
  no_ports no_env no_entrypoint no_cmd no_volumes no_labels no_diff_ids no_history : Call
  port not_port volume not_volume not_label diff_id : String → Call
  label : String → String → Call
  env : Text → Text → Call
  entrypoint cmd : List String → Call
  history : History → Call
  created : ℕ → Call

-- The call on a Generator; `none` is a panic.
abbrev pub apply : Call → Generator → Option Generator
apply (user v) g = some (set_config_user v g)
apply (working_dir v) g = some (set_config_working_dir v g)
apply (stop_signal v) g = some (set_config_stop_signal v g)
apply (kind v) g = some (set_rootfs_type v g)
apply (author v) g = some (set_author v g)
apply (architecture v) g = some (set_architecture v g)
apply (os v) g = some (set_os v g)
apply no_ports g = some (clear_config_exposed_ports g)
apply no_env g = some (clear_config_env g)
apply no_entrypoint g = some (clear_config_entrypoint g)
apply no_cmd g = some (clear_config_cmd g)
apply no_volumes g = some (clear_config_volumes g)
apply no_labels g = some (clear_config_labels g)
apply no_diff_ids g = some (clear_rootfs_diff_ids g)
apply no_history g = some (clear_history g)
apply (port k) g = add_config_exposed_port k g
apply (not_port k) g = some (remove_config_exposed_port k g)
apply (volume k) g = add_config_volume k g
apply (not_volume k) g = some (remove_config_volume k g)
apply (not_label k) g = some (remove_config_label k g)
apply (diff_id d) g = some (add_rootfs_diff_id d g)
apply (label k v) g = add_config_label k v g
apply (env n v) g = some (add_config_env n v g)
apply (entrypoint v) g = some (set_config_entrypoint v g)
apply (cmd v) g = some (set_config_cmd v g)
apply (history h) g = some (add_history h g)
apply (created t) g = some (set_created t g)

-- The calls in order, until one panics.
abbrev pub run : List Call → Generator → Option Generator
run [] g = some g
run (c ∷ cs) g = elim (apply c g) [ none ↦ none | some h ↦ run cs h ]

-- The field is not nil.
abbrev filled {ℓ} : {A : Type ℓ} → Option A → Bool
filled none = false
filled (some a) = true

-- The maps that the methods write to are not nil.
abbrev IsReady : Generator → Type 0
IsReady g =
    (filled g.image.config.exposed_ports ≡ true)
    × (filled g.image.config.volumes ≡ true)
    × (filled g.image.config.labels ≡ true)

filled-fill {ℓ} :
    {A : Type ℓ} (field : Generator → Option A) (clear : Generator → Generator) (g : Generator)
    → filled (field (clear g)) ≡ true
    → filled (field (fill field clear g)) ≡ true
unfolding fill
filled-fill field clear g h = elim (Option-cases (field g)) [
  | inl e ↦ rw (fill, e) h
  | inr (a, e) ↦ rw (fill, e) (rw e refl)
]

fill-keeps {ℓ κ} :
    {A : Type ℓ} (P : Generator → Type κ) (field : Generator → Option A)
    (clear : Generator → Generator) (g : Generator)
    → P g
    → P (clear g)
    → P (fill field clear g)
unfolding fill
fill-keeps P field clear g h k = elim (Option-cases (field g)) [
  | inl e ↦ rw (fill, e) k
  | inr (a, e) ↦ rw (fill, e) h
]

filled-some {ℓ} : {A : Type ℓ} (o : Option A) → filled o ≡ true → (a : A) × (o ≡ some a)
filled-some none h = cc
filled-some (some a) h = (a, refl)

filled-delete {ℓ} :
    {V : Type ℓ} (k : String) (o : Option (Dict V)) → filled o ≡ true → filled (delete k o) ≡ true
filled-delete k none h = h
filled-delete k (some m) h = refl

apply-IsReady :
    (c : Call) (g : Generator) → IsReady g → (h : Generator) × (apply c g ≡ some h) × IsReady h
unfolding clear_config_exposed_ports clear_config_env clear_config_entrypoint clear_config_cmd
    clear_config_volumes clear_config_labels clear_rootfs_diff_ids clear_history set_config_user
    add_config_exposed_port remove_config_exposed_port add_config_env set_config_entrypoint
    set_config_cmd add_config_volume remove_config_volume add_config_label remove_config_label
    set_config_working_dir set_config_stop_signal set_rootfs_type add_rootfs_diff_id add_history
    set_created set_author set_architecture set_os
apply-IsReady (user x) g r = (_, refl, r)
apply-IsReady (working_dir x) g r = (_, refl, r)
apply-IsReady (stop_signal x) g r = (_, refl, r)
apply-IsReady (kind x) g r = (_, refl, r)
apply-IsReady (author x) g r = (_, refl, r)
apply-IsReady (architecture x) g r = (_, refl, r)
apply-IsReady (os x) g r = (_, refl, r)
apply-IsReady no_ports g r = (_, refl, (refl, r.1, r.2))
apply-IsReady no_env g r = (_, refl, r)
apply-IsReady no_entrypoint g r = (_, refl, r)
apply-IsReady no_cmd g r = (_, refl, r)
apply-IsReady no_volumes g r = (_, refl, (r.0, refl, r.2))
apply-IsReady no_labels g r = (_, refl, (r.0, r.1, refl))
apply-IsReady no_diff_ids g r = (_, refl, r)
apply-IsReady no_history g r = (_, refl, r)
apply-IsReady (diff_id x) g r = (_, refl, r)
apply-IsReady (env x y) g r = (_, refl, r)
apply-IsReady (entrypoint x) g r = (_, refl, r)
apply-IsReady (cmd x) g r = (_, refl, r)
apply-IsReady (history x) g r = (_, refl, r)
apply-IsReady (created x) g r = (_, refl, r)
apply-IsReady (not_port k) g r =
    (_, refl, (filled-delete k g.image.config.exposed_ports r.0, r.1, r.2))
apply-IsReady (not_volume k) g r = (_, refl, (r.0, filled-delete k g.image.config.volumes r.1, r.2))
apply-IsReady (not_label k) g r = (_, refl, (r.0, r.1, filled-delete k g.image.config.labels r.2))
apply-IsReady (port k) g r =
    let (m, e) = filled-some g.image.config.exposed_ports r.0 in
    (
      with_config g (record g.image.config { exposed_ports = some (insert k tt m) }),
      rw (add_config_exposed_port, e) refl,
      (refl, r.1, r.2),
    )
apply-IsReady (volume k) g r =
    let (m, e) = filled-some g.image.config.volumes r.1 in
    (
      with_config g (record g.image.config { volumes = some (insert k tt m) }),
      rw (add_config_volume, e) refl,
      (r.0, refl, r.2),
    )
apply-IsReady (label k v) g r =
    let (m, e) = filled-some g.image.config.labels r.2 in
    (
      with_config g (record g.image.config { labels = some (insert k v m) }),
      rw (add_config_label, e) refl,
      (r.0, r.1, refl),
    )

run-IsReady : (cs : List Call) (g : Generator) → IsReady g → (h : Generator) × (run cs g ≡ some h)
run-IsReady [] g r = (g, refl)
run-IsReady (c ∷ cs) g r =
    let (h, e, r') = apply-IsReady c g r in let (k, e') = run-IsReady cs h r' in (k, rw (run, e) e')

init-ports : (g : Generator) → filled (init g).image.config.exposed_ports ≡ true
unfolding init clear_config_exposed_ports clear_config_env clear_config_entrypoint clear_config_cmd
    clear_config_volumes clear_config_labels clear_rootfs_diff_ids clear_history
init-ports g =
    let h1 = filled-fill (λ g. g.image.config.exposed_ports) clear_config_exposed_ports g refl in
    let h2 =
      fill-keeps (λ g. filled g.image.config.exposed_ports ≡ true) (λ g. g.image.config.env)
        clear_config_env _ h1 h1 in
    let h3 =
      fill-keeps (λ g. filled g.image.config.exposed_ports ≡ true) (λ g. g.image.config.entrypoint)
        clear_config_entrypoint _ h2 h2 in
    let h4 =
      fill-keeps (λ g. filled g.image.config.exposed_ports ≡ true) (λ g. g.image.config.cmd)
        clear_config_cmd _ h3 h3 in
    let h5 =
      fill-keeps (λ g. filled g.image.config.exposed_ports ≡ true) (λ g. g.image.config.volumes)
        clear_config_volumes _ h4 h4 in
    let h6 =
      fill-keeps (λ g. filled g.image.config.exposed_ports ≡ true) (λ g. g.image.config.labels)
        clear_config_labels _ h5 h5 in
    let h7 =
      fill-keeps (λ g. filled g.image.config.exposed_ports ≡ true) (λ g. g.image.rootfs.diff_ids)
        clear_rootfs_diff_ids _ h6 h6 in
    fill-keeps (λ g. filled g.image.config.exposed_ports ≡ true) (λ g. g.image.history)
      clear_history _ h7 h7

init-volumes : (g : Generator) → filled (init g).image.config.volumes ≡ true
unfolding init clear_config_exposed_ports clear_config_env clear_config_entrypoint clear_config_cmd
    clear_config_volumes clear_config_labels clear_rootfs_diff_ids clear_history
init-volumes g =
    let h5 =
      filled-fill (λ g. g.image.config.volumes) clear_config_volumes
        (fill (λ g. g.image.config.cmd) clear_config_cmd
          (fill (λ g. g.image.config.entrypoint) clear_config_entrypoint (fill_sets g)))
        refl in
    let h6 =
      fill-keeps (λ g. filled g.image.config.volumes ≡ true) (λ g. g.image.config.labels)
        clear_config_labels _ h5 h5 in
    let h7 =
      fill-keeps (λ g. filled g.image.config.volumes ≡ true) (λ g. g.image.rootfs.diff_ids)
        clear_rootfs_diff_ids _ h6 h6 in
    fill-keeps (λ g. filled g.image.config.volumes ≡ true) (λ g. g.image.history) clear_history _ h7
      h7

init-labels : (g : Generator) → filled (init g).image.config.labels ≡ true
unfolding init clear_config_exposed_ports clear_config_env clear_config_entrypoint clear_config_cmd
    clear_config_volumes clear_config_labels clear_rootfs_diff_ids clear_history
init-labels g =
    let h6 =
      filled-fill (λ g. g.image.config.labels) clear_config_labels (fill_lists (fill_sets g))
        refl in
    let h7 =
      fill-keeps (λ g. filled g.image.config.labels ≡ true) (λ g. g.image.rootfs.diff_ids)
        clear_rootfs_diff_ids _ h6 h6 in
    fill-keeps (λ g. filled g.image.config.labels ≡ true) (λ g. g.image.history) clear_history _ h7
      h7

init-IsReady : (g : Generator) → IsReady (init g)
init-IsReady g = (init-ports g, init-volumes g, init-labels g)

-- A Generator of NewFromImage goes through any calls of its methods without a write to a nil map.
pub new_from_image-run :
    (image : Image) (cs : List Call) → (h : Generator) × (run cs (new_from_image image) ≡ some h)
unfolding new_from_image
new_from_image-run image cs = run-IsReady cs _ (init-IsReady _)
