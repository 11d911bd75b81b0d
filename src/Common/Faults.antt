-- ===== src/Common/Faults.antt =====
-- Code that can touch memory out of bounds: `none` is that fault (undefined behaviour in C), and
-- a `do` block stops at the first one.
use mathlib.Core.Path.{◌≡◌, refl, subst}
use mathlib.Core.Option.{Option, none, some}
use mathlib.Core.Bool.{Bool, true, false}
use linfo1341_project.Common.Compare.{if◌then◌else◌}

infixl 5 ◌>>=◌
abbrev pub ◌>>=◌ {ℓ κ} : {A : Type ℓ} {B : Type κ} → Option A → (A → Option B) → Option B
none >>= f = none
some a >>= f = f a

-- The code runs without a fault, and its result satisfies `P`.
pub data Returns {ℓ κ} {A : Type ℓ} (P : A → Type κ) : Option A → Type (ℓ ⊔ κ) where
  returns : {a : A} → P a → Returns P (some a)

-- The run itself, and what holds of its result
pub Returns-inv {ℓ κ} :
    {A : Type ℓ} {P : A → Type κ} {code : Option A}
    → Returns P code
    → (result : A) × (code ≡ some result) × P result
Returns-inv (returns holds) = (_, refl, holds)

pub Returns-if {ℓ κ} :
    {A : Type ℓ} {P : A → Type κ} {yes_code no_code : Option A} (test : Bool)
    → (test ≡ true → Returns P yes_code)
    → (test ≡ false → Returns P no_code)
    → Returns P (if test then yes_code else no_code)
Returns-if false yes_case no_case = no_case refl
Returns-if true yes_case no_case = yes_case refl

pub Returns-bind {ℓ κ ℓ' κ'} :
    {A : Type ℓ} {B : Type ℓ'} {P : A → Type κ} {Q : B → Type κ'} {code : Option A}
    {rest : A → Option B}
    → Returns P code
    → ((result : A) → P result → Returns Q (rest result))
    → Returns Q (code >>= rest)
Returns-bind (returns holds) next = next _ holds

pub Returns-map {ℓ κ κ'} :
    {A : Type ℓ} {P : A → Type κ} {Q : A → Type κ'} {code : Option A}
    → Returns P code
    → ((result : A) → P result → Q result)
    → Returns Q code
Returns-map (returns holds) weaken = returns (weaken _ holds)

-- What holds of the result of a run that is known
pub Returns-at {ℓ κ} :
    {A : Type ℓ} {P : A → Type κ} {code : Option A} {result : A}
    → Returns P code
    → code ≡ some result
    → P result
Returns-at {P} {result} (returns {a} holds) e = let same : a ≡ result = cc e in subst P same holds

-- Whatever the code returns satisfies `P`; nothing is said where it faults.
pub data IfReturns {ℓ κ} {A : Type ℓ} (P : A → Type κ) : Option A → Type (ℓ ⊔ κ) where
  faults : IfReturns P none
  gives : {a : A} → P a → IfReturns P (some a)

pub IfReturns-bind {ℓ κ κ' ℓ'} :
    {A : Type ℓ} {B : Type ℓ'} {P : A → Type κ} {Q : B → Type κ'} {code : Option A}
    {rest : A → Option B}
    → IfReturns P code
    → ((result : A) → P result → IfReturns Q (rest result))
    → IfReturns Q (code >>= rest)
IfReturns-bind faults next = faults
IfReturns-bind (gives holds) next = next _ holds

-- Any code at all, with what it returns
pub IfReturns-any {ℓ κ' ℓ'} :
    {A : Type ℓ} {B : Type ℓ'} {Q : B → Type κ'} (code : Option A) {rest : A → Option B}
    → ((result : A) → IfReturns Q (rest result))
    → IfReturns Q (code >>= rest)
IfReturns-any none next = faults
IfReturns-any (some a) next = next a

pub IfReturns-option {ℓ κ ℓ'} :
    {A : Type ℓ} {B : Type ℓ'} {Q : B → Type κ} (found : Option A) {no_code : Option B}
    {yes_code : A → Option B}
    → IfReturns Q no_code
    → ((a : A) → IfReturns Q (yes_code a))
    → IfReturns Q (elim found [ none ↦ no_code | some a ↦ yes_code a ])
IfReturns-option none no_case yes_case = no_case
IfReturns-option (some a) no_case yes_case = yes_case a

pub IfReturns-if {ℓ κ} :
    {A : Type ℓ} {P : A → Type κ} {yes_code no_code : Option A} (test : Bool)
    → (test ≡ true → IfReturns P yes_code)
    → (test ≡ false → IfReturns P no_code)
    → IfReturns P (if test then yes_code else no_code)
IfReturns-if false yes_case no_case = no_case refl
IfReturns-if true yes_case no_case = yes_case refl

pub IfReturns-at {ℓ κ} :
    {A : Type ℓ} {P : A → Type κ} {code : Option A} {result : A}
    → IfReturns P code
    → code ≡ some result
    → P result
IfReturns-at faults e = cc e
IfReturns-at {P} {result} (gives {a} holds) e = let same : a ≡ result = cc e in subst P same holds
