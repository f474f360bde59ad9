-- ===== src/Config/EnvLaws.antt =====
-- oci/config/convert/runtime.go: an environment as a map from names to values.
use umoci.Base.{
  ℕ, suc, ◌≤◌, ◌≡◌, ◌≢◌, refl, inl, inr, true, false, Option, none, some, List, [], ◌∷◌, Text,
  has_prefix, All, length, arith, Bool-cases, if◌then◌else◌,
}
use umoci.Base.Result.{ok}
use umoci.Base.Lists.{drop}
use umoci.Config.Env.{split_n2, parse_env, env_entry, append_env}

-- A name of an environment variable has no '='.
abbrev pub IsName : Text → Type 0
IsName = All (λ c. c ≢ b'=')

-- The value of the first entry of the name.
pub env_value : List Text → Text → Option Text
env_value [] name = none
env_value (e ∷ env) name =
    let rest = env_value env name in
    if has_prefix e (env_entry name []) then some (drop (suc (length name)) e) else rest

split_n2-entry :
    (name value : Text) → IsName name → split_n2 (env_entry name value) ≡ name ∷ value ∷ []
unfolding split_n2
split_n2-entry [] value h = refl
split_n2-entry (c ∷ name) value h = ground (arith, split_n2-entry name value h.1)

-- An entry with a nonempty name is parsed into its name and its value.
pub parse_env-env_entry :
    (c : ℕ) (name value : Text)
    → IsName (c ∷ name)
    → parse_env (env_entry (c ∷ name) value) ≡ ok (c ∷ name, value)
unfolding parse_env
parse_env-env_entry c name value h = rw (split_n2-entry (c ∷ name) value h)

drop-entry : (name value : Text) → drop (suc (length name)) (env_entry name value) ≡ value
drop-entry [] value = refl
drop-entry (c ∷ name) value = drop-entry name value

has_prefix-entry :
    (name value : Text) → has_prefix (env_entry name value) (env_entry name []) ≡ true
unfolding has_prefix
has_prefix-entry [] [] = refl
has_prefix-entry [] (x ∷ v) = refl
has_prefix-entry (c ∷ name) value = ground (arith, has_prefix-entry name value)

-- An entry is of one name at most.
entry_one_name :
    (e n m : Text)
    → IsName n
    → IsName m
    → has_prefix e (env_entry n []) ≡ true
    → has_prefix e (env_entry m []) ≡ true
    → n ≡ m
unfolding has_prefix
entry_one_name [] [] m hn hm p q = cc
entry_one_name [] (x ∷ n) m hn hm p q = cc
entry_one_name (c ∷ e) [] [] hn hm p q = refl
entry_one_name (c ∷ e) [] (y ∷ m) hn hm p q = ground (arith, hm.0)
entry_one_name (c ∷ e) (x ∷ n) [] hn hm p q = ground (arith, hn.0)
entry_one_name (c ∷ e) (x ∷ n) (y ∷ m) hn hm p q = ground (arith, entry_one_name e n m hn.1 hm.1)

env_value-append_env_self :
    (env : List Text) (name value : Text) → env_value (append_env env name value) name ≡ some value
unfolding env_value append_env
env_value-append_env_self [] name value =
    rw (has_prefix-entry name value) (rw (drop-entry name value))
env_value-append_env_self (e ∷ env) name value =
    elim (Bool-cases (has_prefix e (env_entry name []))) [
      | inl h ↦ rw h (rw (has_prefix-entry name value) (rw (drop-entry name value)))
      | inr h ↦ rw h (rw h (env_value-append_env_self env name value))
    ]

entry_of_other :
    (n m value : Text)
    → IsName n
    → IsName m
    → m ≢ n
    → has_prefix (env_entry n value) (env_entry m []) ≡ false
entry_of_other n m value hn hm h =
    elim (Bool-cases (has_prefix (env_entry n value) (env_entry m []))) [
      | inr e ↦ e
      | inl e ↦
          absurd (h (entry_one_name (env_entry n value) m n hm hn e (has_prefix-entry n value)))
    ]

env_value-append_env_ne :
    (env : List Text) (n m value : Text)
    → IsName n
    → IsName m
    → m ≢ n
    → env_value (append_env env n value) m ≡ env_value env m
unfolding env_value append_env
env_value-append_env_ne [] n m value hn hm h = rw (entry_of_other n m value hn hm h)
env_value-append_env_ne (e ∷ env) n m value hn hm h =
    elim (Bool-cases (has_prefix e (env_entry n []))) [
      | inr p ↦ rw p (rw (env_value-append_env_ne env n m value hn hm h))
      | inl p ↦ rw p (rw (entry_of_other n m value hn hm h, other_entry e p))
    ]
  where
    other_entry :
        (e : Text) → has_prefix e (env_entry n []) ≡ true → has_prefix e (env_entry m []) ≡ false
    other_entry e p = elim (Bool-cases (has_prefix e (env_entry m []))) [
      | inr q ↦ q
      | inl q ↦ absurd (h (entry_one_name e m n hm hn q p))
    ]

length-append_env :
    (env : List Text) (n value : Text) → length (append_env env n value) ≤ suc (length env)
unfolding append_env
length-append_env [] n value = omega arith
length-append_env (e ∷ env) n value = ground (arith, length-append_env env n value)

-- After appendEnv the name has the given value, every other name without '=' has the value that it
-- had, and the environment is longer by one entry at most.
pub append_env-env_value :
    (env : List Text) (n value : Text)
    → IsName n
    → (env_value (append_env env n value) n ≡ some value)
      × ((m : Text) → IsName m → m ≢ n → env_value (append_env env n value) m ≡ env_value env m)
      × (length (append_env env n value) ≤ suc (length env))
append_env-env_value env n value hn = (
  env_value-append_env_self env n value,
  λ m hm h. env_value-append_env_ne env n m value hn hm h,
  length-append_env env n value,
)
