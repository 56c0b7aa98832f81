-- ===== src/Result.antt =====
-- The errors that the packages return, and fallible computations over the database.
use file_tag_system.Prelude.{◌≡◌, refl, ap, Option, none, some, Bool, true, false}

-- `constraint` is an error of SQLite for a foreign key or a unique column; `no_rows` is
-- `sql.ErrNoRows` where the code passes it on.
pub data Error : Type 0 where
  not_found cycle field_type_mismatch multi_value_conflict has_children self_merge : Error
  forbidden over_grant bad_resource constraint no_rows no_filters : Error
  invalid_refresh replay locked invalid_credentials : Error
  busy cancelled bad_record read_failed bad_password no_setup decrypt_failed unsupported path_escape
        not_exist :
      Error

-- What a call gives back: its value, or the first error it met.
pub data Result {ℓ} (T : Type ℓ) : Type ℓ where
  err : Error → Result T
  ok : T → Result T

-- A row that a query returned, or the error for `sql.ErrNoRows`.
abbrev pub found {ℓ} : {T : Type ℓ} → Error → Option T → Result T
found e none = err e
found e (some t) = ok t

-- An early return: `if !test { return e }`.
abbrev pub guard : Bool → Error → Result (Unit {0})
guard false e = err e
guard true e = ok tt

infixl 5 ◌>>=◌ ◌>>◌
abbrev pub ◌>>=◌ {ℓ κ} : {T : Type ℓ} {U : Type κ} → Result T → (T → Result U) → Result U
err e >>= next = err e
ok t >>= next = next t

abbrev pub ◌>>◌ {ℓ κ} : {T : Type ℓ} {U : Type κ} → Result T → Result U → Result U
first >> next = first >>= λ _. next

-- A guard that lets the rest of a block succeed holds.
pub guard-eq-ok {ℓ} :
    {T : Type ℓ} (t : Bool) (e : Error) (m : Result T) {b : T}
    → (guard t e >> m) ≡ ok b
    → (t ≡ true) × (m ≡ ok b)
guard-eq-ok true e m h = (refl, h)
guard-eq-ok false e m h = cc

-- A block that succeeds has a first call that does, and goes on with its value.
pub >>=-eq-ok {ℓ κ} :
    {T : Type ℓ} {U : Type κ} (first : Result T) (next : T → Result U) {u : U}
    → (first >>= next) ≡ ok u
    → (t : T) × (first ≡ ok t) × (next t ≡ ok u)
>>=-eq-ok (err e) next h = cc
>>=-eq-ok (ok t) next h = (t, refl, h)

pub ok_injective {ℓ} : {A : Type ℓ} {a b : A} → ok a ≡ ok b → a ≡ b
ok_injective {a} {b} h = ap (λ r. elim r [ ok x ↦ x | err e ↦ a ]) h

pub found-eq-ok {ℓ} :
    {A : Type ℓ} (e : Error) (o : Option A) {a : A} → found e o ≡ ok a → o ≡ some a
found-eq-ok e none h = cc
found-eq-ok e (some x) h = ap some (ok_injective h)
