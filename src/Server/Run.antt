-- ===== src/Server/Run.antt =====
-- Go code that may panic. A panic in the goroutine of the hub, or of a connection, ends the server.
use knock.Prelude.{◌≤◌, ◌≡◌, refl, sym, Bool, true, false, Bytes, length, ltb, if◌then◌else◌, arith}

pub data Panic : Type 0 where
  slice_out_of_range send_on_closed close_of_closed : Panic

pub data Run {ℓ} (A : Type ℓ) : Type ℓ where
  ok : A → Run A
  panic : Panic → Run A

infixl 5 ◌>>=◌ ◌>>◌
abbrev pub ◌>>=◌ {ℓ κ} : {A : Type ℓ} {B : Type κ} → Run A → (A → Run B) → Run B
ok a >>= f = f a
panic p >>= f = panic p

abbrev pub ◌>>◌ {ℓ} : {B : Type ℓ} → Run (Unit {0}) → Run B → Run B
m >> k = m >>= λ _. k

-- The slice s[:8] of a log line.
unfoldable pub short_log : Bytes → Run (Unit {0})
short_log s = if ltb (length s) 8 then panic slice_out_of_range else ok tt

-- What a piece of code leaves when it returns, and how it may panic.
pub record Ensures {ℓ} {A : Type ℓ} (P : A → Type 0) (E : Panic → Type 0) (r : Run A) : Type ℓ where
  pub returns : (a : A) → r ≡ ok a → P a
  pub panics : (p : Panic) → r ≡ panic p → E p

pub ok-injective {ℓ} : {A : Type ℓ} (a b : A) → ◌≡◌ {A = Run A} (ok a) (ok b) → a ≡ b
ok-injective a b e = cc

panic-injective {ℓ} : (A : Type ℓ) (p q : Panic) → ◌≡◌ {A = Run A} (panic p) (panic q) → p ≡ q
panic-injective A p q e = cc

-- Any way to panic.
abbrev pub Any : Panic → Type 0
Any p = Unit

pub Ensures-Any {ℓ} : {A : Type ℓ} (r : Run A) → Ensures (λ _. Unit) Any r
Ensures-Any r = record { returns = λ a e. tt; panics = λ p e. tt }

module _ {ℓ} {A : Type ℓ} {P : A → Type 0} {E : Panic → Type 0} where
  pub Ensures-ok : (a : A) → P a → Ensures P E (ok a)
  Ensures-ok a h = record { returns = λ b e. rw (sym (ok-injective a b e)) h; panics = λ p e. cc }

  pub Ensures-panic : (p : Panic) → E p → Ensures P E (panic p)
  Ensures-panic p h = record {
    returns = λ b e. cc;
    panics = λ q e. rw (sym (panic-injective A p q e)) h;
  }

  pub Ensures-if :
      (b : Bool) {r s : Run A}
      → (b ≡ true → Ensures P E r)
      → (b ≡ false → Ensures P E s)
      → Ensures P E (if b then r else s)
  Ensures-if true h k = h refl
  Ensures-if false h k = k refl

module _ {ℓ κ} {A : Type ℓ} {B : Type κ} {P : A → Type 0} {Q : B → Type 0}
    {E : Panic → Type 0} where
  pub Ensures-bind :
      (r : Run A) {f : A → Run B}
      → Ensures P E r
      → ((a : A) → P a → Ensures Q E (f a))
      → Ensures Q E (r >>= f)
  Ensures-bind (ok a) h k = k a (h.returns a refl)
  Ensures-bind (panic p) h k = Ensures-panic p (h.panics p refl)

-- The same code with a weaker property of what it leaves.
pub Ensures-imp {ℓ} :
    {A : Type ℓ} {P Q : A → Type 0} {E : Panic → Type 0} (r : Run A)
    → Ensures P E r
    → ((a : A) → P a → Q a)
    → Ensures Q E r
Ensures-imp (ok a) h f = Ensures-ok a (f a (h.returns a refl))
Ensures-imp (panic p) h f = Ensures-panic p (h.panics p refl)

-- A log line cuts its strings to eight bytes.
pub short_log-Ensures :
    (E : Panic → Type 0) (s : Bytes)
    → E slice_out_of_range
    → Ensures (λ _. 8 ≤ length s) E (short_log s)
unfolding short_log
short_log-Ensures E s h =
    Ensures-if (ltb (length s) 8) (λ _. Ensures-panic slice_out_of_range h)
      (λ long. Ensures-ok tt (ground arith))
