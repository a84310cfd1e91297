-- ===== src/Tests/ZlibTests.antt =====
-- The theorems on the compression at a zlib that only marks the text with a byte.
use go_socket_client.Prelude.{
  take-append-drop, drop, take, length-drop, ℕ, ◌≤◌, ◌<◌, ◌≡◌, refl, sym, ap, ◌∙◌, ◌≢◌, ◌⊎◌, inl,
  inr, Bool, true, false, Option, none, some, [], ◌∷◌, ◌++◌, arith, leb, ◌==◌, if◌then◌else◌,
  length,
}
use go_socket_client.Packet.Gzip.{Bytes}
use go_socket_client.Packet.Zlib.{
  Status, z_ok, z_stream_end, z_other, Zlib, returned, starved, gzip_compress, gzip_uncompress,
}
use go_socket_client.Packet.Zlib.RoundTrip.{
  IsZlib, gzip_uncompress-gzip_compress, gzip_uncompress-ends,
}

abbrev unmark : Bytes → Option Bytes
unmark [] = none
unmark (b ∷ x) = if b == 31 then some x else none

abbrev give_if : Bool → ℕ → Bytes → Status × Bytes × Option Bytes
give_if true n p = (z_stream_end, p, some [])
give_if false n p = (z_ok, take n p, some (drop n p))

abbrev give : ℕ → Option Bytes → Status × Bytes × Option Bytes
give n none = (z_other, [], none)
give n (some p) = give_if (leb (length p) n) n p

abbrev marking_zlib : Zlib
marking_zlib = record {
  Deflate = Bytes;
  deflate_init = λ x. some (31 ∷ x);
  deflate = λ n s. (take n s, drop n s);
  Inflate = Option Bytes;
  inflate_init = λ y. some (unmark y);
  inflate = give;
  inflate_end = λ s. true;
}

abbrev left : Option Bytes → ℕ
left none = 0
left (some p) = length p

give_if-progress :
    (b : Bool) (n : ℕ) (p : Bytes)
    → 1 ≤ n
    → leb (length p) n ≡ b
    → (give_if b n p).0 ≡ z_ok
    → left (give_if b n p).2 < length p
give_if-progress true n p m q e = ground (arith, e)
give_if-progress false n p m q e = ground (arith, m, q, length-drop n p)

give-progress :
    (n : ℕ) (s : Option Bytes) → 1 ≤ n → (give n s).0 ≡ z_ok → left (give n s).2 < left s
give-progress n none m e = ground (arith, e)
give-progress n (some p) m e = give_if-progress (leb (length p) n) n p m refl e

give_if-on :
    (b : Bool) (n : ℕ) (p x : Bytes)
    → p ≡ x
    → (((give_if b n p).0 ≡ z_ok)
        × ((y : Bytes) × ((give_if b n p).2 ≡ some y) × ((give_if b n p).1 ++ y ≡ x)))
      ⊎ (((give_if b n p).0 ≡ z_stream_end) × ((give_if b n p).1 ≡ x) × (true ≡ true))
give_if-on true n p x e = inr (refl, e, refl)
give_if-on false n p x e = inl (refl, (drop n p, refl, take-append-drop n p ∙ e))

give-on :
    (n : ℕ) (s : Option Bytes) (x : Bytes)
    → s ≡ some x
    → (((give n s).0 ≡ z_ok) × ((y : Bytes) × ((give n s).2 ≡ some y) × ((give n s).1 ++ y ≡ x)))
      ⊎ (((give n s).0 ≡ z_stream_end) × ((give n s).1 ≡ x) × (true ≡ true))
give-on n none x e = ground (arith, e)
give-on n (some p) x e = give_if-on (leb (length p) n) n p x (ground (arith, e))

abbrev unmark_of : Option Bytes → Option (Option Bytes)
unmark_of none = none
unmark_of (some s) = some (unmark s)

abbrev left_of : Option (Option Bytes) → ℕ
left_of none = 0
left_of (some t) = left t

marking_zlib-IsZlib : IsZlib marking_zlib
marking_zlib-IsZlib = record {
  pending = λ s. s;
  writes = λ n s. (refl, refl);
  work = left;
  progress = give-progress;
  text = λ s. s;
  goes_on = λ n s x m e. give-on n s x e;
  header = λ x s e. omega (arith, ap left e);
  restores = λ x s e. (some x, ap unmark_of (sym e), refl);
}

abbrev marked : Bytes
marked = 31 ∷ 5 ∷ 6 ∷ []

gzip_uncompress-gzip_compress_example :
    (gzip_compress marking_zlib 4 (5 ∷ 6 ∷ []) ≡ returned marked)
    × (gzip_uncompress marking_zlib 3 marked ≡ returned (5 ∷ 6 ∷ []))
    × (marked ≢ [])
unfolding marking_zlib-IsZlib
gzip_uncompress-gzip_compress_example =
    gzip_uncompress-gzip_compress marking_zlib marking_zlib-IsZlib (5 ∷ 6 ∷ []) marked 4 3
      (omega arith) (omega arith) refl (omega arith) (λ t e. omega (arith, ap left_of e))

gzip_uncompress-ends_example : gzip_uncompress marking_zlib 3 marked ≢ starved
unfolding marking_zlib-IsZlib
gzip_uncompress-ends_example =
    gzip_uncompress-ends marking_zlib marking_zlib-IsZlib marked 3 (omega arith)
      (λ t e. omega (arith, ap left_of e))
