-- ===== src/Packet/Zlib/Interface.antt =====
-- packet/encoding.cpp: the loops over such a zlib are what the encoders and decoders rely on.
use go_socket_client.Prelude.{
  ◌≤◌, ◌<◌, ◌*◌, ◌^◌, ℕ, suc, ◌≡◌, refl, sym, ap, subst, ◌∙◌, ◌≢◌, inl, inr, Option, none, some, [],
  arith, Option-cases, length,
}
use go_socket_client.Packet.Gzip.{Bytes, Gzip}
use go_socket_client.Packet.Zlib.{
  Zlib, GzipResult, failed, returned, overflows, starved, front, gzip_compress, gzip_uncompress,
}
use go_socket_client.Packet.Zlib.RoundTrip.{
  IsZlib, front-same, gzip_compress-pending, gzip_uncompress-gzip_compress,
}

abbrev pub result_of : GzipResult → Option Bytes
result_of failed = none
result_of (returned y) = some y
result_of overflows = none
result_of starved = none

module _ (z : Zlib) (h : IsZlib z) where
  -- Fuel that is enough, by the theorems on the loops.
  abbrev deflate_fuel : Option z.Deflate → ℕ
  deflate_fuel none = 0
  deflate_fuel (some s) = suc (length (h.pending s))

  abbrev inflate_fuel : Option z.Inflate → ℕ
  inflate_fuel none = 0
  inflate_fuel (some s) = suc (h.work s)

  unfoldable pub compress_of : Bytes → Option Bytes
  compress_of x = result_of (gzip_compress z (deflate_fuel (z.deflate_init (front z x))) x)

  unfoldable pub uncompress_of : Bytes → Option Bytes
  uncompress_of y = result_of (gzip_uncompress z (inflate_fuel (z.inflate_init y)) y)

  compress_of-pending :
      (x : Bytes) (s : z.Deflate)
      → z.deflate_init (front z x) ≡ some s
      → compress_of x ≡ some (h.pending s)
  unfolding compress_of
  compress_of-pending x s e =
      rw (ap deflate_fuel e)
        (ap result_of (gzip_compress-pending z h x s (suc (length (h.pending s))) e (omega arith)))

  compress_of-none : (x : Bytes) → z.deflate_init (front z x) ≡ none → compress_of x ≡ none
  unfolding compress_of gzip_compress
  compress_of-none x e = rw (gzip_compress, e) refl

  -- What comes out is what zlib has for the front of the text.
  compress_of-out :
      (x y : Bytes)
      → compress_of x ≡ some y
      → (s : z.Deflate) × (z.deflate_init (front z x) ≡ some s) × (h.pending s ≡ y)
  compress_of-out x y c = elim (Option-cases (z.deflate_init (front z x))) [
    | inl e ↦ ground (arith, compress_of-none x e, c)
    | inr (s, e) ↦ (s, e, ground (arith, compress_of-pending x s e, c))
  ]

  pub compress_of-nonempty : (x y : Bytes) → compress_of x ≡ some y → y ≢ []
  compress_of-nonempty x y c n =
      let r = compress_of-out x y c in
      ground (arith, subst (λ u. 1 ≤ length u) (r.2 ∙ n) (h.header (front z x) r.0 r.1))

  pub compress_of-uncompress_of :
      (x y : Bytes)
      → length x < 2 ^ 31
      → length y * 2 < 2 ^ 31
      → compress_of x ≡ some y
      → uncompress_of y ≡ some x
  unfolding uncompress_of
  compress_of-uncompress_of x y n m c =
      let r = compress_of-out x y c in
      let e = ap z.deflate_init (sym (front-same z h x n)) ∙ r.1 in
      let t = h.restores x r.0 e in
      let k =
        gzip_uncompress-gzip_compress z h x r.0 (suc (length (h.pending r.0))) (suc (h.work t.0)) n
          (subst (λ u. length u * 2 < 2 ^ 31) (sym r.2) m) e (omega arith)
          (λ u p. omega (arith, ap inflate_fuel (sym p ∙ t.1))) in
      subst (λ u. uncompress_of u ≡ some x) r.2 (rw (ap inflate_fuel t.1) (ap result_of k.1))

  -- The Gzip that the encoders and decoders take.
  abbrev pub loops_gzip : Gzip
  loops_gzip = record {
    compress = compress_of;
    uncompress = uncompress_of;
    round_trip = compress_of-uncompress_of;
    nonempty = compress_of-nonempty;
  }
