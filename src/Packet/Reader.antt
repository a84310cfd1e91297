-- ===== src/Packet/Reader.antt =====
-- packet/tcp_io.hpp, IReader: what the decoders read from. A stream is the bytes that are still to
-- come from the peer, and the exception that a read past them throws. `TcpIo` shows that the
-- library's only reader, over a socket, serves such a stream.
pub mod Defined
pub mod Returns
use go_socket_client.Prelude.{
  inr, inl, Bool-cases, ◌⊎◌, ◌<◌, ℕ, ◌≡◌, refl, List, ◌++◌, arith, leb, if◌then◌else◌, length, take,
  drop, length-append, false, take-append, drop-append, le→leb, Bool, take-append-drop, length-take,
}
use go_socket_client.Packet.Error.{
  TcpExcType, TcpException, Outcome, ok, throw, undefined, exception,
}

pub record Stream : Type 0 where
  pub bytes : List ℕ
  pub ending : TcpException

-- Code that reads: it returns a value and what is left of the stream.
abbrev pub M {ℓ} : Type ℓ → Type ℓ
M A = Stream → Outcome (A × Stream)

infixl 5 ◌>>=◌ ◌>>◌
abbrev pub ◌>>=◌ {κ ι} : {X : Type κ} {Y : Type ι} (first : M X) → (X → M Y) → M Y
◌>>=◌ first next s = elim (first s) [
  | undefined ↦ undefined
  | throw e ↦ throw e
  | ok (x, s') ↦ next x s'
]

abbrev pub ◌>>◌ {ι} : {Y : Type ι} → M (Unit {0}) → M Y → M Y
first >> second = first >>= λ _. second

abbrev pub pure {κ} : {X : Type κ} (x : X) → M X
pure x s = ok (x, s)

abbrev pub raise {ℓ} : {A : Type ℓ} → TcpExcType → M A
raise t s = throw (exception t)

-- `if (b) throw TcpException(t);`
abbrev pub raise_if : Bool → TcpExcType → M (Unit {0})
raise_if b t = if b then raise t else pure tt

-- What the language leaves undefined, if `b`.
abbrev pub undefined_if : Bool → M (Unit {0})
undefined_if b = if b then (λ s. undefined) else pure tt

-- IReader::ReadFull
unfoldable pub read_full : ℕ → M (List ℕ)
read_full n s =
    if leb n (length s.bytes)
    then ok (take n s.bytes, record s { bytes = drop n s.bytes })
    else throw s.ending

abbrev pub stream : List ℕ → TcpException → Stream
stream bs e = record { bytes = bs; ending = e }

-- A read of what stands in front leaves what stands behind.
pub read_full-append :
    (n : ℕ) (xs ys : List ℕ) (e : TcpException)
    → length xs ≡ n
    → read_full n (stream (xs ++ ys) e) ≡ ok (xs, stream ys e)
unfolding read_full
read_full-append n xs ys e h =
    rw
      (
        ← h,
        le→leb (length xs) (length (xs ++ ys)) (omega (arith, length-append xs ys)),
        take-append,
        drop-append,
      )
      refl

-- A read that returns took exactly the bytes that it was asked for.
pub read_full-eq_ok :
    (n : ℕ) (s t : Stream) (xs : List ℕ)
    → read_full n s ≡ ok (xs, t)
    → (s.bytes ≡ xs ++ t.bytes) × (length xs ≡ n) × (t.ending ≡ s.ending)
unfolding read_full
read_full-eq_ok n s t xs h = ground (arith, take-append-drop n s.bytes, length-take n s.bytes)

-- A read past the end of the stream throws what the socket reports there.
pub read_full_short :
    (n : ℕ) (bs : List ℕ) (e : TcpException) → length bs < n → read_full n (stream bs e) ≡ throw e
unfolding read_full
read_full_short n bs e h = ground arith

-- A read from a stream is never undefined: it returns or throws what the stream ends with.
pub read_full_cases :
    (n : ℕ) (s : Stream)
    → ((p : List ℕ × Stream) × (read_full n s ≡ ok p)) ⊎ (read_full n s ≡ throw s.ending)
unfolding read_full
read_full_cases n s = elim (Bool-cases (leb n (length s.bytes))) [
  | inl h ↦ inl ((take n s.bytes, record s { bytes = drop n s.bytes }), rw h)
  | inr h ↦ inr (rw h)
]

-- A step that returns hands its value and the rest of the stream on.
pub >>=-ok {ℓ κ} :
    {A : Type ℓ} {B : Type κ} (m : M A) (f : A → M B) {s t : Stream} {a : A}
    → m s ≡ ok (a, t)
    → (m >>= f) s ≡ f a t
>>=-ok m f h = rw (◌>>=◌, h)

-- Inversion of a bind that returned.
pub >>=-eq_ok {ℓ κ} :
    {A : Type ℓ} {B : Type κ} (m : M A) (f : A → M B) {s u : Stream} {b : B}
    → (m >>= f) s ≡ ok (b, u)
    → (a : A) × (t : Stream) × (m s ≡ ok (a, t)) × (f a t ≡ ok (b, u))
>>=-eq_ok {A} {B} m f {s} {u} {b} h = go (m s) refl h
  where
    go :
        (r : Outcome (A × Stream))
        → m s ≡ r
        → elim r as (λ x. Outcome (B × Stream)) [
          | ok (a, t) ↦ f a t
          | throw x ↦ throw x
          | undefined ↦ undefined
        ]
          ≡ ok (b, u)
        → (a : A) × (t : Stream) × (m s ≡ ok (a, t)) × (f a t ≡ ok (b, u))
    go (ok (a, t)) e k = (a, t, e, k)
    go (throw x) e k = cc
    go undefined e k = cc

-- A check that passes changes nothing.
pub raise_if-eq_ok :
    (b : Bool) (t : TcpExcType) {s u : Stream} {x : Unit {0}}
    → raise_if b t s ≡ ok (x, u)
    → (b ≡ false) × (u ≡ s)
raise_if-eq_ok b t h = ground arith

pub undefined_if-eq_ok :
    (b : Bool) {s u : Stream} {x : Unit {0}} → undefined_if b s ≡ ok (x, u) → (b ≡ false) × (u ≡ s)
undefined_if-eq_ok b h = ground arith
