-- ===== src/Env/Loaded.antt =====
-- `loadEnv` of packages/shared/src/env.ts: which variables it sets.
use openhermit.Prelude.{
  ℕ, ◌+◌, Text, text_keys, text_eq_iff, lookup, insert, lookup-insert, is_some, true, false, Option,
  none, some, [], ◌∷◌, length, Bool-cases, ◌≡◌, inl, inr, refl, ap, ◌∙◌, sym, arith,
}
use openhermit.Env.{Vars, try_load_file, or_legacy, load_vars, load_env}

-- What stands first.
abbrev pub first_of : Option Text → Option Text → Option Text
first_of none v = v
first_of (some u) v = some u

load_vars-set :
    (j v : Text) (vars env : Vars) (n : ℕ)
    → is_some (lookup text_keys j env) ≡ true
    → load_vars ((j, v) ∷ vars) (env, n) ≡ load_vars vars (env, n)
unfolding load_vars
load_vars-set j v vars env n h = ap (λ s. load_vars vars s) (ground (arith, h))

load_vars-unset :
    (j v : Text) (vars env : Vars) (n : ℕ)
    → is_some (lookup text_keys j env) ≡ false
    → load_vars ((j, v) ∷ vars) (env, n) ≡ load_vars vars (insert text_keys j v env, n + 1)
unfolding load_vars
load_vars-unset j v vars env n h = ap (λ s. load_vars vars s) (ground (arith, h))

first_of-none : (o : Option Text) → first_of o none ≡ o
first_of-none none = refl
first_of-none (some v) = refl

set_already :
    (j v k : Text) (vars env : Vars)
    → is_some (lookup text_keys j env) ≡ true
    → first_of (lookup text_keys k env) (lookup text_keys k vars)
      ≡ first_of (lookup text_keys k env) (lookup text_keys k ((j, v) ∷ vars))
unfolding lookup
set_already j v k vars env h = ground (arith, text_eq_iff j k)

set_now :
    (j v k : Text) (vars env : Vars)
    → is_some (lookup text_keys j env) ≡ false
    → first_of (lookup text_keys k (insert text_keys j v env)) (lookup text_keys k vars)
      ≡ first_of (lookup text_keys k env) (lookup text_keys k ((j, v) ∷ vars))
unfolding lookup
set_now j v k vars env h = ground (arith, text_eq_iff j k, lookup-insert text_keys j k v env)

load_vars-lookup :
    (vars env : Vars) (n : ℕ) (k : Text)
    → lookup text_keys k (load_vars vars (env, n)).0
      ≡ first_of (lookup text_keys k env) (lookup text_keys k vars)
load_vars-lookup [] env n k =
    unfold load_vars lookup in sym (first_of-none (lookup text_keys k env))
load_vars-lookup ((j, v) ∷ vars) env n k = elim (Bool-cases (is_some (lookup text_keys j env))) [
  | inl set ↦
      rw (load_vars-set j v vars env n set)
        (load_vars-lookup vars env n k ∙ set_already j v k vars env set)
  | inr unset ↦
      rw (load_vars-unset j v vars env n unset)
        (load_vars-lookup vars (insert text_keys j v env) (n + 1) k ∙ set_now j v k vars env unset)
]

insert-new :
    (j v : Text) (env : Vars)
    → is_some (lookup text_keys j env) ≡ false
    → length (insert text_keys j v env) ≡ length env + 1
unfolding lookup insert
insert-new j v [] h = refl
insert-new j v ((i, w) ∷ env) h = ground (arith, insert-new j v env)

load_vars-count :
    (vars env : Vars) (n : ℕ)
    → length (load_vars vars (env, n)).0 + n ≡ length env + (load_vars vars (env, n)).1
load_vars-count [] env n = unfold load_vars in refl
load_vars-count ((j, v) ∷ vars) env n = elim (Bool-cases (is_some (lookup text_keys j env))) [
  | inl set ↦ rw (load_vars-set j v vars env n set) (load_vars-count vars env n)
  | inr unset ↦ rw (load_vars-unset j v vars env n unset) (
      omega
        (arith, load_vars-count vars (insert text_keys j v env) (n + 1), insert-new j v env unset))
]

-- The variables of the file: those of the gateway's, or of the old one where that has none.
abbrev pub vars_of : Option Text → Option Text → Vars
vars_of gateway_env legacy_env = or_legacy (try_load_file gateway_env) (try_load_file legacy_env)

-- A variable that the process had keeps its value, any other has the value of the file, if there is
-- one; and the number that is returned is that of the variables that the process has more.
pub load_env_lem :
    (gateway_env legacy_env : Option Text) (env : Vars) (k : Text)
    → (lookup text_keys k (load_env gateway_env legacy_env env).0
        ≡ first_of (lookup text_keys k env) (lookup text_keys k (vars_of gateway_env legacy_env)))
      × (length (load_env gateway_env legacy_env env).0
          ≡ length env + (load_env gateway_env legacy_env env).1)
unfolding load_env
load_env_lem gateway_env legacy_env env k = (
  load_vars-lookup (vars_of gateway_env legacy_env) env 0 k,
  omega (arith, load_vars-count (vars_of gateway_env legacy_env) env 0),
)
