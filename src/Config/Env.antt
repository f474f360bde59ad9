-- ===== src/Config/Env.antt =====
-- oci/config/convert/runtime.go: parseEnv and appendEnv.
use umoci.Base.{◌==◌, List, [], ◌∷◌, ◌++◌, Text, has_prefix, if◌then◌else◌}
use umoci.Base.Result.{Result, ok, err}

pub data EnvError : Type 0 where
  no_equals empty_name : EnvError

-- strings.SplitN(env, "=", 2)
unfoldable pub split_n2 : Text → List Text
split_n2 [] = [] ∷ []
split_n2 (c ∷ s) =
    let rest = split_n2 s in
    if c == b'=' then [] ∷ s ∷ [] else elim rest [ [] ↦ (c ∷ []) ∷ [] | w ∷ ws ↦ (c ∷ w) ∷ ws ]

-- The tests of parseEnv on the parts.
unfoldable pub parse_parts : List Text → Result EnvError (Text × Text)
parse_parts (name ∷ value ∷ []) = elim name [ [] ↦ err empty_name | c ∷ s ↦ ok (c ∷ s, value) ]
parse_parts _ = err no_equals

-- parseEnv: the name and the value.
unfoldable pub parse_env : Text → Result EnvError (Text × Text)
unfolding parse_parts
parse_env env = parse_parts (split_n2 env)

-- name + "=" + value
abbrev pub env_entry : Text → Text → Text
env_entry name value = name ++ (b'=' ∷ value)

-- appendEnv: the first entry of the name is replaced, or an entry is added at the end.
unfoldable pub append_env : List Text → Text → Text → List Text
unfolding has_prefix
append_env [] name value = env_entry name value ∷ []
append_env (old ∷ env) name value =
    let rest = append_env env name value in
    if has_prefix old (env_entry name []) then env_entry name value ∷ env else old ∷ rest
