-- ===== src/Prelude/States.antt =====
-- A fallible computation on a state: what it has changed stays changed when it fails.
use mathlib.Core.Option.{Option, none, some}
use edgewit.Prelude.Bytes.{Text}
use edgewit.Prelude.Results.{Result, ok, err}

abbrev pub Stateful : Type 0 → Type 0 → Type 0
Stateful S A = S → Result Text A × S

abbrev pub then_do : {S A B : Type 0} → Result Text A × S → (A → Stateful S B) → Result Text B × S
then_do (ok a, s) f = f a s
then_do (err e, s) f = (err e, s)

infixl 5 ◌>>=◌ ◌>>◌
abbrev pub ◌>>=◌ : {S A B : Type 0} → Stateful S A → (A → Stateful S B) → Stateful S B
(m >>= f) s = then_do (m s) f

abbrev pub ◌>>◌ : {S B : Type 0} → Stateful S (Unit {0}) → Stateful S B → Stateful S B
m >> k = m >>= λ _. k

-- A result that leaves the state alone.
abbrev pub lift : {S A : Type 0} → Result Text A → Stateful S A
lift r s = (r, s)

-- `o.ok_or_else(e)?`
abbrev pub require : {S A : Type 0} → Text → Option A → Stateful S A
require e none s = (err e, s)
require e (some a) s = (ok a, s)

abbrev pub change : {S : Type 0} → (S → S) → Stateful S (Unit {0})
change f s = (ok tt, f s)
