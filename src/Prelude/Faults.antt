-- ===== src/Prelude/Faults.antt =====
-- The outcome of code that may run into undefined behaviour, and its monad.
use mathlib.Core.Path.{◌≡◌, refl}

-- `dangling`: an iterator that points at nothing is read or erased. `overflow`: a signed time
-- computation leaves its range. `bad_variant`: `std::get` throws. `wrong_thread`: a shard is taken off
-- its thread. `terminated`: a thread is assigned over one that is joinable. `out_of_fuel` belongs to the
-- model only.
pub data Fault : Type 0 where
  dangling overflow bad_variant wrong_thread terminated out_of_fuel : Fault

pub data Outcome {ℓ} (R : Type ℓ) : Type ℓ where
  fault : Fault → Outcome R
  ok : R → Outcome R

infixl 4 ◌>>=◌
abbrev pub ◌>>=◌ {ℓ κ} :
    {R : Type ℓ} {S : Type κ} → (run : Outcome R) → (next : R → Outcome S) → Outcome S
fault problem >>= next = fault problem
ok r >>= next = next r

-- A run with a result, taken apart at its first step.
pub >>=-eq-ok {ℓ κ} :
    {R : Type ℓ} {S : Type κ} (run : Outcome R) (next : R → Outcome S) {s : S}
    → (run >>= next) ≡ ok s
    → (r : R) × (run ≡ ok r) × (next r ≡ ok s)
>>=-eq-ok (fault problem) next ends = cc
>>=-eq-ok (ok r) next ends = (r, refl, ends)

-- Two ways to go on that agree on the result of a run.
pub >>=-cong {ℓ κ} :
    {R : Type ℓ} {S : Type κ} (run : Outcome R) (f g : R → Outcome S)
    → ((r : R) → run ≡ ok r → f r ≡ g r)
    → (run >>= f) ≡ (run >>= g)
>>=-cong (fault problem) f g h = refl
>>=-cong (ok r) f g h = h r refl

pub >>=-assoc {ℓ κ μ} :
    {R : Type ℓ} {S : Type κ} {T : Type μ} (run : Outcome R) (f : R → Outcome S) (g : S → Outcome T)
    → ((run >>= f) >>= g) ≡ (run >>= λ r. f r >>= g)
>>=-assoc (fault problem) f g = refl
>>=-assoc (ok r) f g = refl

-- The run has a result as `P` wants it, or stops at the overflow of a time computation.
pub data Fares {R : Type 0} (P : R → Type 0) : Outcome R → Type 0 where
  ends : {r : R} → P r → Fares P (ok r)
  overflows : Fares P (fault overflow)

pub Fares-bind :
    {R S : Type 0} {P : R → Type 0} {Q : S → Type 0} {run : Outcome R} (next : R → Outcome S)
    → Fares P run
    → ((r : R) → run ≡ ok r → P r → Fares Q (next r))
    → Fares Q (run >>= next)
Fares-bind next (ends {r = r} p) rest = rest r refl p
Fares-bind next overflows rest = overflows
