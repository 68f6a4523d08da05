-- ===== src/Prelude/Results.antt =====
-- `Result` with the monad that `?` stands for. A converted error (`.into()`) is written out.
use mathlib.Core.Path.{◌≡◌, refl}
use mathlib.Core.Bool.{Bool, true, false}
use mathlib.Core.Logic.{◌⊎◌, inl, inr}
use mathlib.Core.Option.{Option, none, some}
use mathlib.Core.List.{List, [], ◌∷◌, map}

pub data Result {ℓ κ} (A : Type ℓ) (E : Type κ) : Type (ℓ ⊔ κ) where
  ok : A → Result A E
  err : E → Result A E

infixl 5 ◌>>=◌ ◌>>◌
abbrev pub ◌>>=◌ {ℓ κ μ} :
    {A : Type ℓ} {B : Type κ} {E : Type μ} → Result A E → (A → Result B E) → Result B E
err e >>= next = err e
ok a >>= next = next a

-- `if b { return Err(e) }`
abbrev pub reject {μ} : {E : Type μ} → Bool → E → Result (Unit {0}) E
reject true e = err e
reject false e = ok tt

-- `ok_or`
abbrev pub ok_or {ℓ μ} : {A : Type ℓ} {E : Type μ} → Option A → E → Result A E
ok_or none e = err e
ok_or (some a) e = ok a

-- What runs once a check has passed.
abbrev pub ◌>>◌ {κ μ} : {B : Type κ} {E : Type μ} → Result (Unit {0}) E → Result B E → Result B E
checked >> next = checked >>= λ passed. next

-- `Result::ok`
abbrev pub ok? {ℓ μ} : {A : Type ℓ} {E : Type μ} → Result A E → Option A
ok? (ok a) = some a
ok? (err e) = none

abbrev pub is_ok {ℓ μ} : {A : Type ℓ} {E : Type μ} → Result A E → Bool
is_ok (ok a) = true
is_ok (err e) = false

abbrev pub map_err {ℓ μ ν} :
    {A : Type ℓ} {E : Type μ} {F : Type ν} → (E → F) → Result A E → Result A F
map_err f (ok a) = ok a
map_err f (err e) = err (f e)

-- `iter.map(f).collect::<Result<Vec<_>, _>>()`: the first error stops it.
unfoldable pub traverse {ℓ κ μ} :
    {A : Type ℓ} {B : Type κ} {E : Type μ} → (A → Result B E) → List A → Result (List B) E
traverse f [] = ok []
traverse f (x ∷ xs) = let rest = traverse f xs in f x >>= λ y. rest >>= λ ys. ok (y ∷ ys)

pub Result-cases {ℓ μ} :
    {A : Type ℓ} {E : Type μ} (r : Result A E) → ((a : A) × (r ≡ ok a)) ⊎ ((e : E) × (r ≡ err e))
Result-cases (ok a) = inl (a, refl)
Result-cases (err e) = inr (e, refl)

pub err-ne-ok {ℓ μ} :
    {T : Type ℓ} {E : Type μ} {why : E} {t : T} → ◌≡◌ {A = Result T E} (err why) (ok t) → ⊥
err-ne-ok h = cc

pub >>=-eq-ok {ℓ κ μ} :
    {T : Type ℓ} {U : Type κ} {E : Type μ} (first : Result T E) (next : T → Result U E) {u : U}
    → (first >>= next) ≡ ok u
    → (t : T) × (first ≡ ok t) × (next t ≡ ok u)
>>=-eq-ok (err why) next h = cc
>>=-eq-ok (ok t) next h = (t, refl, h)

pub ok-injective {ℓ μ} :
    {A : Type ℓ} {E : Type μ} {a b : A} → ◌≡◌ {A = Result A E} (ok a) (ok b) → a ≡ b
ok-injective h = cc

pub ok_or-eq-ok {ℓ μ} :
    {A : Type ℓ} {E : Type μ} (o : Option A) (e : E) {a : A} → ok_or o e ≡ ok a → o ≡ some a
ok_or-eq-ok none e h = cc
ok_or-eq-ok (some a) e h = cc

-- Inversion of a check that passes.
pub reject-eq-ok {κ μ} :
    {B : Type κ} {E : Type μ} (b : Bool) (e : E) (next : Result B E) {c : B}
    → (reject b e >> next) ≡ ok c
    → (b ≡ false) × (next ≡ ok c)
reject-eq-ok true e next h = cc
reject-eq-ok false e next h = (refl, h)

-- What each step of a traversal keeps, the traversal keeps.
pub traverse-map {ℓ κ μ ν} :
    {A : Type ℓ} {B : Type κ} {C : Type μ} {E : Type ν} (f : A → Result B E) (g : B → C) (h : A → C)
    → ((a : A) (b : B) → f a ≡ ok b → g b ≡ h a)
    → (xs : List A) (ys : List B) → traverse f xs ≡ ok ys
    → map g ys ≡ map h xs
unfolding traverse
traverse-map f g h same [] [] e = refl
traverse-map f g h same [] (y ∷ ys) e = cc
traverse-map f g h same (x ∷ xs) ys e =
    let (z, first, e1) = >>=-eq-ok (f x) _ e in
    let (zs, rest, e2) = >>=-eq-ok (traverse f xs) _ e1 in
    let split = ok-injective e2 in rw (← split, same x z first, traverse-map f g h same xs zs rest)

pub err-injective {ℓ μ} :
    {A : Type ℓ} {E : Type μ} {x y : E} → ◌≡◌ {A = Result A E} (err x) (err y) → x ≡ y
err-injective h = cc
