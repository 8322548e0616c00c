-- ===== src/Registry/Tests.antt =====
-- Runs of a registry of hashers, each a name with a code.
use js_ipfs.Prelude.{ℕ, ◌+◌, ◌≡◌, refl, none, some, Option, [], ◌∷◌, ok, err, arith, nat_eq}
use js_ipfs.Registry.{Tables, Key, a_name, a_code, add, get, already_exists}
use js_ipfs.Registry.Consistency.{IsConsistent, get-IsConsistent}

abbrev Hasher : Type 0
Hasher = ℕ × ℕ

abbrev name : Hasher → ℕ
name h = h.0

abbrev code : Hasher → ℕ
code h = h.1

abbrev one : Tables Hasher ℕ ℕ
one = record { by_name = (1, (1, 18)) ∷ []; by_code = (18, (1, 18)) ∷ [] }

abbrev two : Tables Hasher ℕ ℕ
two = record {
  by_name = (1, (1, 18)) ∷ (2, (2, 19)) ∷ [];
  by_code = (18, (1, 18)) ∷ (19, (2, 19)) ∷ [];
}

abbrev load : Key ℕ ℕ → Option Hasher
load (a_name n) = some (n, n + 17)
load (a_code c) = none

clash : add name code (3, 18) one ≡ err already_exists
unfolding add
clash = refl

loads : get name code load (a_name 2) one ≡ (ok (2, 19), two)
unfolding get
loads = refl

one-IsConsistent : IsConsistent name code one
one-IsConsistent = record { by_name_ok = λ n t e. ground arith; by_code_ok = λ c t e. ground arith }

get-IsConsistent_example : IsConsistent name code (get name code load (a_name 2) one).1
get-IsConsistent_example = get-IsConsistent name code load (a_name 2) one one-IsConsistent

load-Names : (u : Hasher) → some (2, 19) ≡ some u → name u ≡ 2
load-Names u e = ground arith
