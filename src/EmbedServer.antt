-- ===== src/EmbedServer.antt =====
-- crates/m3-embed-server: who may reach the embedding server, and how a refusal is told. What the
-- children share is the result of a step that can be refused.
pub mod Digest
pub mod Bearer
pub mod Plan
mod Tests
use m3_core_rs.Base.{ℕ, ◌≡◌, refl, Bool, true, false, not, arith}

pub data Outcome {ℓ κ} (E : Type κ) (A : Type ℓ) : Type (ℓ ⊔ κ) where
  ok : A → Outcome E A
  err : E → Outcome E A

module _ {ℓ κ ι} {E : Type κ} {B : Type ι} where
  -- `?`: the step behind, unless there is a refusal.
  infixl 5 ◌>>=◌
  abbrev pub ◌>>=◌ : {A : Type ℓ} → Outcome E A → (A → Outcome E B) → Outcome E B
  err why >>= next = err why
  ok value >>= next = next value

  -- What both steps gave.
  pub steps_of :
      {A : Type ℓ} (o : Outcome E A) (next : A → Outcome E B) {end : B}
      → (o >>= next) ≡ ok end
      → (value : A) × (o ≡ ok value) × (next value ≡ ok end)
  steps_of (err why) next done = cc
  steps_of (ok value) next done = (value, refl, done)

-- What holds of the result, if there is one.
module _ {ℓ κ ι} {E : Type κ} {A : Type ℓ} where
  abbrev pub Yields : Outcome E A → (A → Type ι) → Type ι
  Yields (ok a) P = P a
  Yields (err e) P = Unit

  pub Yields-ok : (o : Outcome E A) (P : A → Type ι) {a : A} → Yields o P → o ≡ ok a → P a
  Yields-ok (ok b) P {a} y e = let same : b ≡ a = ground arith in rw (← same) y
  Yields-ok (err x) P y e = cc

  pub Yields-and :
      {Q : Type ι} (o : Outcome E A) (P : A → Type ι) → Q → Yields o P → Yields o (λ a. Q × P a)
  Yields-and (ok a) P q y = (q, y)
  Yields-and (err e) P q y = tt

  pub >>=-Yields {ξ} :
      {B : Type ξ} (m : Outcome E B) (f : B → Outcome E A) (P : A → Type ι)
      → ((b : B) → m ≡ ok b → Yields (f b) P)
      → Yields (m >>= f) P
  >>=-Yields (ok b) f P h = h b refl
  >>=-Yields (err e) f P h = tt

module _ {ι κ} {E : Type κ} {B : Type ι} where
  infixl 5 ◌>>◌
  abbrev pub ◌>>◌ : Outcome E (Unit {0}) → Outcome E B → Outcome E B
  o >> next = o >>= λ u. next

-- `bail!` on a condition.
abbrev pub refuse_if {κ} : {E : Type κ} → Bool → E → Outcome E (Unit {0})
refuse_if true e = err e
refuse_if false e = ok tt

pub refuse_if-ok {κ} : {E : Type κ} (b : Bool) (why : E) → refuse_if b why ≡ ok tt → b ≡ false
refuse_if-ok true why e = cc
refuse_if-ok false why e = refl

pub not_refused {κ} : {E : Type κ} (b : Bool) (why : E) → refuse_if (not b) why ≡ ok tt → b ≡ true
not_refused true why e = refl
not_refused false why e = cc
