-- ===== src/Runtime.antt =====
-- What the operator takes from Go's runtime and standard library and from apimachinery: errors,
-- which are values here, and `float64`, durations, texts of numbers, hashes and quantities, which
-- are a parameter. The laws that a theorem needs stand among its hypotheses.
use praktikum.Prelude.{ℕ, ℤ, String, Bool, false, ◌<>◌, ◌≡◌, refl, sym, ap, ◌⊎◌, inl, inr}

-- The classes of gRPC status codes that the operator tells apart.
pub data Code : Type 0 where
  not_found failed_precondition other : Code

-- A Go error: its text, whether apierrors.IsNotFound and apierrors.IsInvalid hold of it, and its
-- gRPC status code. All three look through wrapping.
pub record Error : Type 0 where
  pub message : String
  pub is_not_found : Bool
  pub is_invalid : Bool
  pub code : Code

-- fmt.Errorf without a wrapped error
abbrev pub errorf : String → Error
errorf text = record { message = text; is_not_found = false; is_invalid = false; code = Code.other }

-- fmt.Errorf("prefix: %w", e)
abbrev pub wrap : String → Error → Error
wrap prefix e = record e { message = prefix <> (": " <> e.message) }

pub data Result {ℓ} (A : Type ℓ) : Type ℓ where
  ok : A → Result A
  err : Error → Result A

infixl 5 ◌>>=◌ ◌>>◌
abbrev pub ◌>>=◌ {ℓ κ} : {A : Type ℓ} {B : Type κ} → Result A → (A → Result B) → Result B
ok a >>= f = f a
err e >>= f = err e

abbrev pub ◌>>◌ {ℓ} : {B : Type ℓ} → Result (Unit {0}) → Result B → Result B
m >> n = m >>= λ _. n

-- A case distinction on a `Result`, as a function.
abbrev pub on_result {ℓ κ} : {A : Type ℓ} {B : Type κ} → Result A → (A → B) → (Error → B) → B
on_result (ok a) f g = f a
on_result (err e) f g = g e

abbrev pub ok_or {ℓ} : {A : Type ℓ} → A → Result A → A
ok_or d (ok a) = a
ok_or d (err _) = d

-- if err != nil { return fmt.Errorf("prefix: %w", err) }
abbrev pub with_context {ℓ} : {A : Type ℓ} → String → Result A → Result A
with_context prefix (ok a) = ok a
with_context prefix (err e) = err (wrap prefix e)

pub record Runtime : Type 1 where
  pub Float : Type 0
  pub Quantity : Type 0
  -- float64(n), and the decimal literal `m * 10 ^ -k`
  pub of_int : ℤ → Float
  pub literal : ℕ → ℕ → Float
  pub max_float64 : Float
  pub add : Float → Float → Float
  pub sub : Float → Float → Float
  pub mul : Float → Float → Float
  pub div : Float → Float → Float
  pub max : Float → Float → Float
  pub abs : Float → Float
  pub exp : Float → Float
  pub lt : Float → Float → Bool
  pub le : Float → Float → Bool
  pub eq : Float → Float → Bool
  -- strconv.ParseFloat, and `%.kf`
  pub parse_float : String → Result Float
  pub format_fixed : ℕ → Float → String
  -- A duration is its number of nanoseconds: time.ParseDuration, Duration.String, Duration.Seconds,
  -- and the conversion time.Duration(f).
  pub parse_duration : String → Result ℤ
  pub duration_text : ℤ → String
  pub seconds : ℤ → Float
  pub to_duration : Float → ℤ
  -- Quantity.AsApproximateFloat64, and resource.MustParse of strconv.FormatFloat(f, 'f', -1, 64)
  pub quantity_value : Quantity → Float
  pub quantity_of : Float → Quantity
  -- `%q`, and `%x` of sha256.Sum256
  pub quote : String → String
  pub sha256_hex : String → String

-- An equation between results gives one between what they hold.
abbrev value_of {ℓ} : {A : Type ℓ} → A → Result A → A
value_of d (ok a) = a
value_of d (err e) = d

pub ok-injective {ℓ} : {A : Type ℓ} {a b : A} → ok a ≡ ok b → a ≡ b
ok-injective {a = a} e = ap (value_of a) e

pub Result-cases {ℓ} :
    {A : Type ℓ} (x : Result A) → ((a : A) × (x ≡ ok a)) ⊎ ((e : Error) × (x ≡ err e))
Result-cases (ok a) = inl (a, refl)
Result-cases (err e) = inr (e, refl)

-- What holds of each answer holds of the one that is returned.
pub bind-answer {ℓ κ} :
    {A : Type ℓ} {B : Type κ} (P : B → Type 0) (x : Result A) (f : A → B) (b : B)
    → ((a : A) → P (f a))
    → (x >>= λ a. ok (f a)) ≡ ok b
    → P b
bind-answer P (ok a) f b p e = rw (sym (ok-injective e)) (p a)
bind-answer P (err _) f b p e = cc

pub bind-ok {ℓ κ} :
    {A : Type ℓ} {B : Type κ} (x : Result A) (f : A → Result B) (b : B)
    → (x >>= f) ≡ ok b
    → (a : A) × (x ≡ ok a) × (f a ≡ ok b)
bind-ok (ok a) f b e = (a, refl, e)
bind-ok (err _) f b e = cc
