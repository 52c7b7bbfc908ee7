-- ===== src/Env.antt =====
-- What the source uses of `std::env`: the environment as an association list of texts. A value that
-- is not UTF-8 counts as absent, as it does for `env::var(..).ok()`.
use libsystemd_rs.Base.{
  List, [], ◌∷◌, Option, none, some, if◌then◌else◌, Str, equal, equal_iff, Bool-cases, ◌≡◌, arith,
}

abbrev pub Env : Type 0
Env = List (Str × Str)

-- `env::var(key).ok()`
unfoldable pub var : Str → Env → Option Str
var key [] = none
var key ((k, v) ∷ env) = if equal k key then some v else var key env

-- `env::remove_var`
unfoldable pub remove_var : Str → Env → Env
remove_var key [] = []
remove_var key ((k, v) ∷ env) =
    let rest = remove_var key env in if equal k key then rest else (k, v) ∷ rest

-- A removed variable is unset, and the others are as before.
pub var-remove_var :
    (key other : Str) (env : Env)
    → var other (remove_var key env) ≡ (if equal key other then none else var other env)
unfolding var remove_var
var-remove_var key other [] = ground (arith, Bool-cases (equal key other))
var-remove_var key other ((k, v) ∷ env) =
    ground
      (arith, var-remove_var key other env, equal_iff k key, equal_iff k other, equal_iff key other)
