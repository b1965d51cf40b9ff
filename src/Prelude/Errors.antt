-- ===== src/Prelude/Errors.antt =====
-- Error codes, and the result of a C function that returns -errno on failure.
use mathlib.Core.Path.{◌≡◌, refl, ap, subst}
use mathlib.Core.Bool.{Bool, true, false}
use mathlib.Core.Logic.{◌≢◌, ◌⊎◌, inl, inr}
use doki_proot.Prelude.Tests.{if◌then◌else◌}

-- The negated errno values that the modelled functions return. `out_of_fuel` belongs to the model
-- alone: that no run ends in it is what the theorems on the fuel say, under their conditions.
-- `assertion_failed` and `null_pointer` are the model's own too: an
-- assertion that does not hold, and a null pointer that the code follows.
pub data Errno : Type 0 where
  e_perm e_noent e_intr e_again e_acces e_exist e_notdir e_inval e_fbig e_nospc e_range : Errno
  e_nametoolong e_loop e_noexec e_2big e_nomsg e_idrm e_fault e_nomem e_badf e_io e_child e_srch
        out_of_fuel assertion_failed null_pointer :
      Errno

pub data Result {ℓ} (A : Type ℓ) : Type ℓ where
  ok : A → Result A
  fail : Errno → Result A

module _ {ℓ κ} {A : Type ℓ} {B : Type κ} where
  infixl 5 ◌>>=◌
  -- Going on after a call, unless it has failed.
  abbrev pub ◌>>=◌ : Result A → (A → Result B) → Result B
  fail code >>= next = fail code
  ok value >>= next = next value

  -- A chain succeeds only if its first call does.
  pub bind-ok :
      (call : Result A) (next : A → Result B) {b : B}
      → (call >>= next) ≡ ok b
      → (value : A) × (call ≡ ok value) × (next value ≡ ok b)
  bind-ok (fail code) next chain = cc
  bind-ok (ok value) next chain = (value, refl, chain)

-- A property of the value of a call, if it succeeds.
abbrev pub Ensures {ℓ κ} : {A : Type ℓ} → (A → Type κ) → Result A → Type κ
Ensures P (ok value) = P value
Ensures P (fail code) = Unit

pub Ensures-bind {ℓ κ μ} :
    {A : Type ℓ} {B : Type κ} (P : B → Type μ) (call : Result A) (next : A → Result B)
    → ((value : A) → call ≡ ok value → Ensures P (next value))
    → Ensures P (call >>= next)
Ensures-bind P (ok value) next step = step value refl
Ensures-bind P (fail code) next step = tt

pub Ensures-if {ℓ κ} :
    {A : Type ℓ} (P : A → Type κ) (b : Bool) (m n : Result A)
    → (b ≡ true → Ensures P m)
    → (b ≡ false → Ensures P n)
    → Ensures P (if b then m else n)
Ensures-if P true m n yes_case no_case = yes_case refl
Ensures-if P false m n yes_case no_case = no_case refl

ok_injective {ℓ} : {A : Type ℓ} {a b : A} → ok a ≡ ok b → a ≡ b
ok_injective e = cc

pub Ensures-ok {ℓ κ} :
    {A : Type ℓ} (P : A → Type κ) (m : Result A) {value : A} → Ensures P m → m ≡ ok value → P value
Ensures-ok P (ok v) h e = subst P (ok_injective e) h
Ensures-ok P (fail code) h e = cc

pub Ensures-call {ℓ κ} :
    {A : Type ℓ} (P : A → Type κ) (m : Result A)
    → ((value : A) → m ≡ ok value → P value)
    → Ensures P m
Ensures-call P (ok v) h = h v refl
Ensures-call P (fail code) h = tt

-- A result that the model's fuel has not cut off.
abbrev pub Ends {ℓ} : {A : Type ℓ} → Result A → Type ℓ
Ends m = m ≢ fail out_of_fuel

pub Ends-bind {ℓ κ} :
    {A : Type ℓ} {B : Type κ} (call : Result A) (next : A → Result B)
    → Ends call
    → ((value : A) → call ≡ ok value → Ends (next value))
    → Ends (call >>= next)
Ends-bind (ok value) next h step = step value refl
Ends-bind (fail code) next h step = λ e. h (cc)

pub Ends-if {ℓ} :
    {A : Type ℓ} (b : Bool) (m n : Result A)
    → (b ≡ true → Ends m)
    → (b ≡ false → Ends n)
    → Ends (if b then m else n)
Ends-if true m n yes_case no_case = yes_case refl
Ends-if false m n yes_case no_case = no_case refl

-- The same, with a property of the value.
abbrev pub Returns {ℓ} : {A : Type ℓ} → (A → Type 0) → Result A → Type 0
Returns P (ok value) = P value
Returns P (fail code) = code ≢ out_of_fuel

module _ {ℓ κ} {A : Type ℓ} {B : Type κ} (P : B → Type 0) where
  pub Returns-bind :
      (call : Result A) (next : A → Result B)
      → Ends call
      → ((value : A) → Returns P (next value))
      → Returns P (call >>= next)
  Returns-bind (ok value) next h step = step value
  Returns-bind (fail code) next h step = λ e. h (ap fail e)

  pub Returns-then :
      (Q : A → Type 0) (call : Result A) (next : A → Result B)
      → Returns Q call
      → ((value : A) → Q value → Returns P (next value))
      → Returns P (call >>= next)
  Returns-then Q (ok value) next h step = step value h
  Returns-then Q (fail code) next h step = h

module _ {κ} {B : Type κ} (P : B → Type 0) where
  pub Returns-if :
      (b : Bool) (m n : Result B)
      → (b ≡ true → Returns P m)
      → (b ≡ false → Returns P n)
      → Returns P (if b then m else n)
  Returns-if true m n yes_case no_case = yes_case refl
  Returns-if false m n yes_case no_case = no_case refl

  pub Returns-Ends : (m : Result B) → Returns P m → Ends m
  Returns-Ends (ok value) h = λ e. cc
  Returns-Ends (fail code) h = λ e. h (cc)

  pub Returns-ok : (m : Result B) {value : B} → Returns P m → m ≡ ok value → P value
  Returns-ok (ok v) h e = subst P (ok_injective e) h
  Returns-ok (fail code) h e = cc

pub Result-cases {ℓ} :
    {A : Type ℓ} (r : Result A) → ((a : A) × (r ≡ ok a)) ⊎ ((code : Errno) × (r ≡ fail code))
Result-cases (ok a) = inl (a, refl)
Result-cases (fail code) = inr (code, refl)
