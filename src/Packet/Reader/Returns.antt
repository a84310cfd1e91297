-- ===== src/Packet/Reader/Returns.antt =====
-- What code over a stream guarantees when it returns, one rule for each way to build it.
use go_socket_client.Prelude.{ℕ, ◌≡◌, refl, subst, Bool, true, false, List, ◌++◌, length}
use go_socket_client.Packet.Error.{TcpExcType, ok, ok-injective}
use go_socket_client.Packet.Reader.{
  Stream, M, ◌>>=◌, ◌>>◌, pure, raise, raise_if, undefined_if, read_full, read_full-eq_ok,
  >>=-eq_ok, raise_if-eq_ok, undefined_if-eq_ok,
}

-- Run from `s`, the code returns only such values and streams as `P` holds of.
pub record Returns {A : Type 0} (m : M A) (s : Stream) (P : A → Stream → Type 0) : Type 0 where
  pub at : (a : A) (t : Stream) → m s ≡ ok (a, t) → P a t

module _ {A : Type 0} (P : A → Stream → Type 0) (s : Stream) where
  pub Returns-pure : (a : A) → P a s → Returns (pure a) s P
  Returns-pure a p = record {
    at = λ b t e. subst (λ (x : A × Stream). P x.0 x.1) (ok-injective (a, s) (b, t) e) p;
  }

  pub Returns-raise : (t : TcpExcType) → Returns (raise t) s P
  Returns-raise t = record { at = λ b u e. cc }

module _ (s : Stream) (P : Unit {0} → Stream → Type 0) (b : Bool) where
  pub Returns-raise_if : (t : TcpExcType) → (b ≡ false → P tt s) → Returns (raise_if b t) s P
  Returns-raise_if t p = record { at = λ x u e. let (q, r) = raise_if-eq_ok b t e in rw r (p q) }

  pub Returns-undefined_if : (b ≡ false → P tt s) → Returns (undefined_if b) s P
  Returns-undefined_if p = record {
    at = λ x u e. let (q, r) = undefined_if-eq_ok b e in rw r (p q);
  }

module _ {A B : Type 0} (P : A → Stream → Type 0) (Q : B → Stream → Type 0) (s : Stream) where
  pub Returns-bind :
      (m : M A) (f : A → M B)
      → Returns m s P
      → ((a : A) (t : Stream) → P a t → Returns (f a) t Q)
      → Returns (m >>= f) s Q
  Returns-bind m f km kf = record {
    at = λ b u e. let (a, t, h, k) = >>=-eq_ok m f e in (kf a t (km.at a t h)).at b u k;
  }

-- A read takes the bytes that it returns off the stream.
pub Returns-read_full :
    (n : ℕ) (s : Stream) (P : List ℕ → Stream → Type 0)
    → ((buf : List ℕ) (t : Stream) → s.bytes ≡ buf ++ t.bytes → length buf ≡ n → P buf t)
    → Returns (read_full n) s P
Returns-read_full n s P p = record {
  at = λ buf t e. let (b, l, _) = read_full-eq_ok n s t buf e in p buf t b l;
}

-- The same as first steps of a block.
module _ {B : Type 0} (Q : B → Stream → Type 0) (s : Stream) where
  pub Returns-guard :
      (b : Bool) (t : TcpExcType) (k : M B)
      → (b ≡ false → Returns k s Q)
      → Returns (raise_if b t >> k) s Q
  Returns-guard true t k h = record { at = λ a u e. cc }
  Returns-guard false t k h = record { at = λ a u e. (h refl).at a u e }

  pub Returns-undefined_guard :
      (b : Bool) (k : M B) → (b ≡ false → Returns k s Q) → Returns (undefined_if b >> k) s Q
  Returns-undefined_guard true k h = record { at = λ a u e. cc }
  Returns-undefined_guard false k h = record { at = λ a u e. (h refl).at a u e }

  pub Returns-read :
      (n : ℕ) (f : List ℕ → M B)
      → ((buf : List ℕ) (t : Stream)
          → s.bytes ≡ buf ++ t.bytes
          → length buf ≡ n
          → Returns (f buf) t Q)
      → Returns (read_full n >>= f) s Q
  Returns-read n f h =
      Returns-bind (λ buf t. Returns (f buf) t Q) Q s (read_full n) f
        (Returns-read_full n s (λ buf t. Returns (f buf) t Q) h) (λ buf t r. r)
