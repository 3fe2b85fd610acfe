-- ===== src/Base/Outcome.antt =====
-- Results with an error value, and computations that record what they do to the outside world.
use mathlib.Core.Path.{◌≡◌, refl}

pub data Result (X A : Type 0) : Type 0 where
  ok : A → Result X A
  err : X → Result X A

-- A computation that may fail, over a state: here mostly the list of effects so far, the last one
-- first, on which the answers of the outside world may depend.
abbrev pub Io : Type 0 → Type 0 → Type 0 → Type 0
Io S X A = S → Result X A × S

abbrev pub bind : {S X A B : Type 0} → Result X A × S → (A → Io S X B) → Result X B × S
bind (ok a, t) f = f a t
bind (err x, t) f = (err x, t)

infixl 5 ◌>>=◌ ◌>>◌
abbrev pub ◌>>=◌ : {S X A B : Type 0} → Io S X A → (A → Io S X B) → Io S X B
◌>>=◌ m f s = bind (m s) f

abbrev pub ◌>>◌ : {S X B : Type 0} → Io S X (Unit {0}) → Io S X B → Io S X B
m >> k = m >>= λ _. k

abbrev pub pure : {S X A : Type 0} → A → Io S X A
pure a s = (ok a, s)

abbrev pub fail : {S X A : Type 0} → X → Io S X A
fail x s = (err x, s)

-- To prove something of a chain: of what follows a success, and of a failure.
pub bind_elim {ℓ} :
    {S X A B : Type 0} (P : Result X B × S → Type ℓ) (p : Result X A × S) (f : A → Io S X B)
    → ((a : A) → p.0 ≡ ok a → P (f a p.1))
    → ((x : X) → p.0 ≡ err x → P (err x, p.1))
    → P (bind p f)
bind_elim P (ok a, s) f then fails = then a refl
bind_elim P (err x, s) f then fails = fails x refl

-- A result of an inner computation, as one of an outer: the error and the state are put in place.
abbrev pub inside : {S T X Y A : Type 0} → (X → Y) → (T → S) → Result X A × T → Result Y A × S
inside f g (ok a, t) = (ok a, g t)
inside f g (err x, t) = (err (f x), g t)

-- `inside` of a success is a success, and of a failure a failure.
pub inside_elim {ℓ} :
    {S T X Y A : Type 0} (P : Result Y A × S → Type ℓ) (f : X → Y) (g : T → S) (p : Result X A × T)
    → ((a : A) → p.0 ≡ ok a → P (ok a, g p.1))
    → ((x : X) → p.0 ≡ err x → P (err (f x), g p.1))
    → P (inside f g p)
inside_elim P f g (ok a, t) good bad = good a refl
inside_elim P f g (err x, t) good bad = bad x refl

-- The same for what follows.
pub bind_inside {ℓ} :
    {S T X Y A B : Type 0} (P : Result Y B × S → Type ℓ) (f : X → Y) (g : T → S)
    (p : Result X A × T) (k : A → Io S Y B)
    → ((a : A) → p.0 ≡ ok a → P (k a (g p.1)))
    → ((x : X) → p.0 ≡ err x → P (err (f x), g p.1))
    → P (bind (inside f g p) k)
bind_inside P f g (ok a, t) k good bad = good a refl
bind_inside P f g (err x, t) k good bad = bad x refl
