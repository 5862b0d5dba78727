-- ===== src/Prelude/Results.antt =====
-- Outcomes of calls that can throw. The source catches none of these on the paths modelled, so an
-- error ends the run of the replica: `null_pointer`, `out_of_range` and `bad_cast` stand for
-- undefined behaviour, `assertion` for a failed `assert`, the others for exceptions.
use mathlib.Core.Path.{◌≡◌, refl}
use mathlib.Core.Bool.{Bool, true, false}
use mathlib.Core.Option.{Option, none, some}

pub data Error : Type 0 where
  null_pointer out_of_range bad_cast assertion : Error
  not_delivered empty_parents rid_not_found stream_failure : Error
  bad_message_length sign_failed ill_formed cert_mismatch : Error
  empty_promises out_of_fuel : Error
  invalid_replica_info idx_out_of_range invalid_cport no_client_port : Error
  invalid_argument format_error not_positive unknown_algo : Error

-- The outcome of a call: an error, or a value.
pub data Result {ℓ} (V : Type ℓ) : Type ℓ where
  err : Error → Result V
  ok : V → Result V

-- `assert` and the tests that throw.
abbrev pub guard : (holds : Bool) → Error → Result (Unit {0})
guard false why = err why
guard true why = ok tt

-- A lookup that has to succeed.
abbrev pub or_fail {ℓ} : {V : Type ℓ} → Option V → Error → Result V
or_fail (some v) why = ok v
or_fail none why = err why

-- The first error ends a chain of calls.
infixl 5 ◌>>=◌
abbrev pub ◌>>=◌ {ℓ κ} : {V : Type ℓ} {W : Type κ} → Result V → (V → Result W) → Result W
err why >>= rest = err why
ok v >>= rest = rest v

infixl 5 ◌>>◌
abbrev pub ◌>>◌ {κ} : {W : Type κ} → Result (Unit {0}) → Result W → Result W
test >> rest = test >>= λ passed. rest

pub or_fail-eq-ok {ℓ} :
    {V : Type ℓ} (found : Option V) (why : Error) {v : V}
    → or_fail found why ≡ ok v
    → found ≡ some v
or_fail-eq-ok none why e = cc
or_fail-eq-ok (some v) why e = cc

-- A chain that returns a value has run its first call.
pub >>=-eq-ok {ℓ κ} :
    {V : Type ℓ} {W : Type κ} (first : Result V) (rest : V → Result W) {result : W}
    → (first >>= rest) ≡ ok result
    → (v : V) × (first ≡ ok v) × (rest v ≡ ok result)
>>=-eq-ok (err why) rest e = cc
>>=-eq-ok (ok v) rest e = (v, refl, e)
