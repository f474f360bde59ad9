-- ===== src/Tests/Configs.antt =====
-- oci/config and reference names: runs on small data.
use umoci.Base.{
  suc, ◌≡◌, ◌≢◌, ◌≤◌, refl, false, none, some, List, [], ◌∷◌, codes, Text, length, arith,
}
use umoci.Base.Result.{ok}
use umoci.Image.{Image}
use umoci.Config.Env.{parse_env, append_env}
use umoci.Config.EnvLaws.{IsName, env_value, parse_env-env_entry, append_env-env_value}
use umoci.Config.Generator.{Generator, new_from_image}
use umoci.Config.GeneratorLaws.{run, label, port, no_labels, new_from_image-run}
use umoci.Casext.Refname.Name.{is_valid_reference_name}

path-IsName : IsName (codes "PATH")
path-IsName = ground arith

abbrev old_env : List Text
old_env = codes "HOME=/root" ∷ codes "PATH=/bin" ∷ []

parse_env-env_entry_example : parse_env (codes "PATH=a=b") ≡ ok (codes "PATH", codes "a=b")
parse_env-env_entry_example = parse_env-env_entry b'P' (codes "ATH") (codes "a=b") path-IsName

append_env-env_value_example :
    (env_value (append_env old_env (codes "PATH") (codes "/usr/bin")) (codes "PATH")
      ≡ some (codes "/usr/bin"))
    × ((m : Text)
        → IsName m
        → m ≢ codes "PATH"
        → env_value (append_env old_env (codes "PATH") (codes "/usr/bin")) m ≡ env_value old_env m)
    × (length (append_env old_env (codes "PATH") (codes "/usr/bin")) ≤ suc (length old_env))
append_env-env_value_example =
    append_env-env_value old_env (codes "PATH") (codes "/usr/bin") path-IsName

abbrev scratch : Image
scratch = record {
  created = none;
  author = "";
  architecture = "amd64";
  os = "linux";
  config = record {
    user = "";
    exposed_ports = none;
    env = none;
    entrypoint = none;
    cmd = none;
    volumes = none;
    working_dir = "";
    labels = none;
    stop_signal = "";
  };
  rootfs = record { kind = "layers"; diff_ids = none };
  history = none;
}

new_from_image-run_example :
    (h : Generator) × (run (label "a" "b" ∷ no_labels ∷ port "80/tcp" ∷ []) (new_from_image scratch)
      ≡ some h)
new_from_image-run_example =
    new_from_image-run scratch (label "a" "b" ∷ no_labels ∷ port "80/tcp" ∷ [])

double_dot_refused : is_valid_reference_name "v1..0" ≡ false
unfolding is_valid_reference_name
double_dot_refused = refl
