-- ===== src/Packet/Reader/Defined.antt =====
-- Code over a stream that does nothing undefined, one rule for each way to build it.
use go_socket_client.Prelude.{ℕ, ◌≡◌, refl, ◌≢◌, Bool, true, false, inl, inr, if◌then◌else◌}
use go_socket_client.Packet.Error.{TcpExcType, Outcome, ok, throw, undefined}
use go_socket_client.Packet.Reader.Returns.{Returns}
use go_socket_client.Packet.Reader.{
  Stream, M, ◌>>=◌, ◌>>◌, pure, raise, raise_if, undefined_if, read_full, read_full_cases,
}

pub record Defined {ℓ} {A : Type ℓ} (m : M A) : Type ℓ where
  pub at : (s : Stream) → m s ≢ undefined

module _ {ℓ} {A : Type ℓ} where
  pub Defined-pure : (a : A) → Defined (pure a)
  Defined-pure a = record { at = λ s e. cc }

  pub Defined-raise : (t : TcpExcType) → Defined (raise {A = A} t)
  Defined-raise t = record { at = λ s e. cc }

  pub Defined-if : (b : Bool) (m n : M A) → Defined m → Defined n → Defined (if b then m else n)
  Defined-if true m n km kn = km
  Defined-if false m n km kn = kn

pub Defined-raise_if : (b : Bool) (t : TcpExcType) → Defined (raise_if b t)
Defined-raise_if true t = record { at = λ s e. cc }
Defined-raise_if false t = record { at = λ s e. cc }

pub Defined-read_full : (n : ℕ) → Defined (read_full n)
Defined-read_full n = record {
  at = λ s e. elim (read_full_cases n s) [ inl (p, h) ↦ cc | inr h ↦ cc ];
}

module _ {ℓ κ} {A : Type ℓ} {B : Type κ} where
  continue : (A → M B) → Outcome (A × Stream) → Outcome (B × Stream)
  continue f r = elim r [ ok (a, t) ↦ f a t | throw e ↦ throw e | undefined ↦ undefined ]

  continue-ne-undefined :
      (f : A → M B) (r : Outcome (A × Stream))
      → r ≢ undefined
      → ((a : A) → Defined (f a))
      → continue f r ≢ undefined
  unfolding continue
  continue-ne-undefined f (ok (a, t)) h k e = (k a).at t e
  continue-ne-undefined f (throw x) h k e = cc
  continue-ne-undefined f undefined h k e = h refl

  pub Defined-bind :
      (m : M A) (f : A → M B) → Defined m → ((a : A) → Defined (f a)) → Defined (m >>= f)
  Defined-bind m f km kf = record {
    at = λ s. unfold continue in continue-ne-undefined f (m s) (km.at s) kf;
  }

pub ruleset defined_rules =
    (Defined-pure, Defined-raise, Defined-if, Defined-raise_if, Defined-read_full, Defined-bind)

-- The same from one stream, where a later step may rely on what an earlier one guarantees.
pub record DefinedAt {A : Type 0} (m : M A) (s : Stream) : Type 0 where
  pub holds : m s ≢ undefined

pub DefinedAt-of : {A : Type 0} (m : M A) (s : Stream) → Defined m → DefinedAt m s
DefinedAt-of m s d = record { holds = d.at s }

module _ {A B : Type 0} (P : A → Stream → Type 0) (s : Stream) where
  pub DefinedAt-bind :
      (m : M A) (f : A → M B)
      → DefinedAt m s
      → Returns m s P
      → ((a : A) (t : Stream) → P a t → DefinedAt (f a) t)
      → DefinedAt (m >>= f) s
  unfolding continue
  DefinedAt-bind m f d r k = record { holds = go (m s) refl d.holds }
    where
      go : (x : Outcome (A × Stream)) → m s ≡ x → m s ≢ undefined → continue f x ≢ undefined
      go (ok (a, t)) e n = (k a t (r.at a t e)).holds
      go (throw x) e n = λ u. cc
      go undefined e n = λ u. n e

module _ {B : Type 0} (s : Stream) where
  pub DefinedAt-guard :
      (b : Bool) (t : TcpExcType) (k : M B)
      → (b ≡ false → DefinedAt k s)
      → DefinedAt (raise_if b t >> k) s
  DefinedAt-guard true t k h = record { holds = λ u. cc }
  DefinedAt-guard false t k h = record { holds = λ u. (h refl).holds u }

  pub DefinedAt-undefined_guard :
      (b : Bool) (k : M B) → b ≡ false → DefinedAt k s → DefinedAt (undefined_if b >> k) s
  DefinedAt-undefined_guard true k e h = record { holds = λ u. cc }
  DefinedAt-undefined_guard false k e h = record { holds = λ u. h.holds u }
