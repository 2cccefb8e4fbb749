-- ===== src/Base/Results.antt =====
-- A call's result: a value, a Go error, or a run-time panic, and the errors of the program.
use mathlib.Core.Path.{◌≡◌, refl, subst}
use mathlib.Core.List.{List}
use mathlib.Core.Bool.{Bool, true, false}
use sdcio_schema_server.Base.Tests.{if◌then◌else◌}
use sdcio_schema_server.Base.Text.{Str}

pub data Error : Type 0 where
  missing_details missing_vendor missing_version missing_path incomplete_config : Error
  schema_exists unknown_schema : Error
  nothing_below : Error
  malformed_xpath malformed_xpath_key origin_twice elems_with_origin : Error
  module_not_found not_found unknown_element key_not_found : Str → Error
  unknown_store_type : Str → Error
  missing_file_name hash_unspecified wrong_hash pending_files unexpected_message : Error
  unknown_path_elements : List Str → Error
  -- No error of the program: the model's own fuel ran out.
  out_of_fuel : Error
  internal : Error → Error
  external : Str → Error

pub data Result {ℓ} (A : Type ℓ) : Type ℓ where
  panic : Result A
  err : Error → Result A
  ok : A → Result A

infixl 5 ◌>>◌ ◌>>=◌
abbrev pub ◌>>=◌ {ℓ κ} : {A : Type ℓ} {B : Type κ} → Result A → (A → Result B) → Result B
panic >>= next = panic
err e >>= next = err e
ok a >>= next = next a

abbrev pub ◌>>◌ {ℓ} : {B : Type ℓ} → Result (Unit {0}) → Result B → Result B
first >> second = first >>= λ _. second

-- `if bad { return err }`
abbrev pub refuse : Bool → Error → Result (Unit {0})
refuse true e = err e
refuse false e = ok tt

abbrev pub is_ok {ℓ} : {A : Type ℓ} → Result A → Bool
is_ok (ok a) = true
is_ok (err e) = false
is_ok panic = false

-- Inversion of a successful bind.
pub >>=-eq-ok {ℓ κ} :
    {A : Type ℓ} {B : Type κ} (first : Result A) (next : A → Result B) {out : B}
    → (first >>= next) ≡ ok out
    → (mid : A) × (first ≡ ok mid) × (next mid ≡ ok out)
>>=-eq-ok panic next h = cc
>>=-eq-ok (err e) next h = cc
>>=-eq-ok (ok mid) next h = (mid, refl, h)

pub refuse_ok : (b : Bool) (e : Error) {u : Unit {0}} → refuse b e ≡ ok u → b ≡ false
refuse_ok true e h = cc
refuse_ok false e h = refl

-- Every value that `m` returns has the property.
pub record Yields {ℓ κ} {A : Type ℓ} (P : A → Type κ) (m : Result A) : Type (ℓ ⊔ κ) where
  pub at : (a : A) → m ≡ ok a → P a

ok-injective {ℓ} : {A : Type ℓ} {a b : A} → ◌≡◌ {A = Result A} (ok a) (ok b) → a ≡ b
ok-injective e = cc

module _ {ℓ κ} {A : Type ℓ} (P : A → Type κ) where
  pub Yields-ok : (a : A) → P a → Yields P (ok a)
  Yields-ok a p = record { at = λ b e. subst P (ok-injective e) p }

  pub Yields-err : (e : Error) → Yields P (err e)
  Yields-err e = record { at = λ b h. cc }

  pub Yields-panic : Yields P panic
  Yields-panic = record { at = λ b h. cc }

  pub Yields-if :
      (b : Bool) (m n : Result A)
      → (b ≡ true → Yields P m)
      → (b ≡ false → Yields P n)
      → Yields P (if b then m else n)
  Yields-if true m n km kn = km refl
  Yields-if false m n km kn = kn refl

  pub Yields-bind {ι} :
      {C : Type ι} (m : Result C) (f : C → Result A)
      → ((c : C) → m ≡ ok c → Yields P (f c))
      → Yields P (m >>= f)
  Yields-bind (ok c) f h = h c refl
  Yields-bind (err e) f h = Yields-err e
  Yields-bind panic f h = Yields-panic
