-- ===== src/Prelude/Outcome.antt =====
-- Fallible code. An `anyhow` error, a closed channel, a commit conflict and a panic are all values
-- of `Error`: each ends the operation that meets it.
use mathlib.Core.Path.{◌≡◌, refl}
use mathlib.Core.Option.{Option, none, some}
use mathlib.Core.List.{List, [], ◌∷◌, map}
use mathlib.Core.Bool.{Bool, true, false}
use local_rusty_indexer_poc.Prelude.Tests.{if◌then◌else◌}
use local_rusty_indexer_poc.Prelude.Lists.{All}

pub data Error : Type 0 where
  -- `bail!` and `anyhow!` of the code, by what they complain of
  invalid_key_length invalid_value_length invalid_partition : Error
  unexpected_value alias_too_long invalid_script rpc_failed app_stopped : Error
  -- `commit()??` on a transaction that lost a race
  conflict : Error
  -- a send or receive on a closed channel
  channel_closed : Error
  -- `unwrap`, `assert!`, an index out of range or a cast of the wrong length
  panicked : Error

pub data Result {ℓ} (A : Type ℓ) : Type ℓ where
  err : Error → Result A
  ok : A → Result A

-- the value of an option, or the given error
abbrev pub or_fail {ℓ} : {A : Type ℓ} → Option A → Error → Result A
or_fail (some a) e = ok a
or_fail none e = err e

infixl 5 ◌>>=◌
infixl 5 ◌>>◌
-- an early return on an error, as `?` does
abbrev pub ◌>>=◌ {ℓ κ} : {A : Type ℓ} {B : Type κ} → Result A → (A → Result B) → Result B
err failure >>= next = err failure
ok value >>= next = next value

-- What an operation that succeeded did first.
pub >>=-eq-ok {ℓ κ} :
    {A : Type ℓ} {B : Type κ} (first : Result A) (next : A → Result B) {b : B}
    → (first >>= next) ≡ ok b
    → (a : A) × (first ≡ ok a) × (next a ≡ ok b)
>>=-eq-ok (err failure) next h = cc
>>=-eq-ok (ok value) next h = (value, refl, h)

abbrev pub ◌>>◌ {κ} : {B : Type κ} → Result (Unit {0}) → Result B → Result B
check >> rest = check >>= λ _. rest

pub ok-injective {ℓ} : {A : Type ℓ} {a b : A} → ok a ≡ ok b → a ≡ b
ok-injective h = cc

-- A check that passed: its test held, and the result is the value behind it.
pub checked {ℓ} :
    {A : Type ℓ} (t : Bool) (e : Error) (a b : A)
    → (if t then ok a else err e) ≡ ok b
    → (t ≡ true) × (a ≡ b)
checked true e a b h = (refl, ok-injective h)
checked false e a b h = cc

-- `for x in xs { … }` with `?` in the body
unfoldable pub for_each {ℓ κ} :
    {A : Type ℓ} {S : Type κ} → (A → S → Result S) → List A → S → Result S
for_each body [] s = ok s
for_each body (x ∷ xs) s = do s' ← body x s; for_each body xs s'

-- `for r in iterator { let x = r?; … }`
unfoldable pub for_each_ok {ℓ κ} :
    {A : Type ℓ} {S : Type κ} → (A → S → Result S) → List (Result A) → S → Result S
for_each_ok body [] s = ok s
for_each_ok body (r ∷ rs) s = do x ← r; s' ← body x s; for_each_ok body rs s'

-- A loop whose body succeeds on what the list holds and keeps an invariant succeeds and keeps it.
pub for_each_inv {ℓ κ ι μ} :
    {A : Type ℓ} {S : Type κ} (P : A → Type ι) (Q : S → Type μ) (body : A → S → Result S)
    → ((a : A) (s : S) → P a → Q s → (s' : S) × (body a s ≡ ok s') × Q s')
    → (xs : List A) (s : S) → All P xs
    → Q s
    → (s' : S) × (for_each body xs s ≡ ok s') × Q s'
unfolding for_each
for_each_inv P Q body step [] s hp hq = (s, refl, hq)
for_each_inv P Q body step (x ∷ xs) s hp hq =
    let (s1, first, kept) = step x s hp.0 hq in
    let (s2, later, kept') = for_each_inv P Q body step xs s1 hp.1 kept in
    (s2, rw first later, kept')

after_first {ℓ} :
    {S : Type ℓ} (r : Result S) (f g : S → Result S) → ((s : S) → f s ≡ g s) → (r >>= f) ≡ (r >>= g)
after_first (ok s) f g h = h s
after_first (err e) f g h = refl

pub for_each_ok-map {ℓ κ} :
    {A : Type ℓ} {S : Type κ} (body : A → S → Result S) (xs : List A) (s : S)
    → for_each_ok body (map ok xs) s ≡ for_each body xs s
unfolding for_each for_each_ok
for_each_ok-map body [] s = refl
for_each_ok-map body (x ∷ xs) s =
    after_first (body x s) (for_each_ok body (map ok xs)) (for_each body xs)
      (for_each_ok-map body xs)
