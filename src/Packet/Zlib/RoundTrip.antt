-- ===== src/Packet/Zlib/RoundTrip.antt =====
-- packet/encoding.cpp: the loops of __gzipCompress and __gzipUncompress end, and with a zlib that is
-- what its manual says, the second restores what the first was given.
use go_socket_client.Prelude.{
  ltb, ◌%◌, ◌^◌, take-append-drop, append_assoc, length-drop, length-take, drop, take, ℕ, zero, suc,
  ◌-◌, ◌*◌, ◌≤◌, ◌<◌, min, ◌≡◌, refl, ap, subst, ◌∙◌, ◌≢◌, ◌⊎◌, inl, inr, Bool, true, false, Option,
  some, [], ◌∷◌, ◌++◌, arith, ◌==◌, if◌then◌else◌, ==_iff, Option-cases, length,
}
use go_socket_client.Packet.Gzip.{Bytes}
use go_socket_client.Packet.Zlib.{
  Status, z_ok, z_stream_end, z_other, Zlib, GzipResult, returned, overflows, starved, front,
  chunk_size, deflate_loop, gzip_compress, close_inflate, inflate_loop, gzip_uncompress,
}

-- zlib's manual. Each deflate writes what it has into the room there is. An inflate with room that
-- returns Z_OK has made progress; of a stream that a deflate made, it writes the text, until
-- Z_STREAM_END, and inflateEnd succeeds.
pub record IsZlib (z : Zlib) : Type 0 where
  pub pending : z.Deflate → Bytes
  pub writes :
      (n : ℕ) (s : z.Deflate)
      → ((z.deflate n s).0 ≡ take n (pending s)) × (pending (z.deflate n s).1 ≡ drop n (pending s))
  pub work : z.Inflate → ℕ
  pub progress :
      (n : ℕ) (s : z.Inflate) → 1 ≤ n → (z.inflate n s).0 ≡ z_ok → work (z.inflate n s).2 < work s
  pub text : z.Inflate → Option Bytes
  pub goes_on :
      (n : ℕ) (s : z.Inflate) (x : Bytes)
      → 1 ≤ n
      → text s ≡ some x
      → (((z.inflate n s).0 ≡ z_ok)
          × ((y : Bytes) × (text (z.inflate n s).2 ≡ some y) × ((z.inflate n s).1 ++ y ≡ x)))
        ⊎ (((z.inflate n s).0 ≡ z_stream_end)
            × ((z.inflate n s).1 ≡ x)
            × (z.inflate_end (z.inflate n s).2 ≡ true))
  pub header : (x : Bytes) (s : z.Deflate) → z.deflate_init x ≡ some s → 1 ≤ length (pending s)
  pub restores :
      (x : Bytes) (s : z.Deflate)
      → z.deflate_init x ≡ some s
      → (t : z.Inflate) × (z.inflate_init (pending s) ≡ some t) × (text t ≡ some x)

take_all : (n : ℕ) (xs : Bytes) → length xs ≤ n → take n xs ≡ xs
take_all zero [] h = refl
take_all zero (x ∷ xs) h = ground (arith, h)
take_all (suc n) [] h = refl
take_all (suc n) (x ∷ xs) h = ap (λ ys. x ∷ ys) (take_all n xs (omega (arith, h)))

short : (l : ℕ) {n : ℕ} → l ≡ min chunk_size n → (l == chunk_size) ≡ false → n ≤ chunk_size
short l h e = ground (arith, h, e)

pick :
    (b : Bool) (x y r : GzipResult)
    → (b ≡ true → x ≡ r)
    → (b ≡ false → y ≡ r)
    → (if b then x else y) ≡ r
pick true x y r h k = h refl
pick false x y r h k = k refl

go_on :
    (x : Status) {y n : GzipResult}
    → (x ≡ z_ok → y ≢ starved)
    → n ≢ starved
    → elim x [ z_ok ↦ y | _ ↦ n ] ≢ starved
go_on z_ok h k = h refl
go_on z_stream_end h k = k
go_on z_other h k = k

sized : (b : Bool) {x : GzipResult} → x ≢ starved → (if b then x else overflows) ≢ starved
sized true h = h
sized false h = ground arith

stops :
    (x : Status) (y n : GzipResult) {r : GzipResult}
    → x ≡ z_stream_end
    → n ≡ r
    → elim x [ z_ok ↦ y | _ ↦ n ] ≡ r
stops z_ok y n h k = ground (arith, h)
stops z_stream_end y n h k = k
stops z_other y n h k = k

module _ (z : Zlib) (h : IsZlib z) where
  -- One turn for each chunk, and one more, are enough for the compression.
  deflate_loop-enough :
      (fuel : ℕ) (s : z.Deflate) (output : Bytes)
      → length (h.pending s) < fuel
      → deflate_loop z fuel s output ≡ returned (output ++ h.pending s)
  unfolding deflate_loop
  deflate_loop-enough zero s output f = ground (arith, f)
  deflate_loop-enough (suc fuel) s output f =
      let r = z.deflate chunk_size s in
      let p = h.pending s in
      let w = h.writes chunk_size s in
      let l : length r.0 ≡ min chunk_size (length p) = ap length w.0 ∙ length-take chunk_size p in
      let m : length (h.pending r.1) ≡ length p - chunk_size =
        ap length w.1 ∙ length-drop chunk_size p in
      pick (length r.0 == chunk_size) _ _ _
        (λ e.
          let full = (==_iff (length r.0) chunk_size).0 e in
          deflate_loop-enough fuel r.1 (output ++ r.0) (omega (arith, l, m, full, f))
          ∙ ap returned (
              append_assoc output r.0 (h.pending r.1)
              ∙ ap (λ ys. output ++ ys) (rw (w.0, w.1) (take-append-drop chunk_size p))))
        (λ e.
          ap (λ ys. returned (output ++ ys)) (w.0 ∙ take_all chunk_size p (short (length r.0) l e)))

  at_end :
      (x : Status) (s : z.Inflate) (output : Bytes)
      → x ≡ z_stream_end
      → z.inflate_end s ≡ true
      → close_inflate z x s output ≡ returned output
  unfolding close_inflate
  at_end x s output h k = ground (arith, h, k)

  inflate_loop-enough :
      (fuel room : ℕ) (s : z.Inflate) (output x : Bytes)
      → 1 ≤ room
      → h.text s ≡ some x
      → h.work s < fuel
      → inflate_loop z fuel room s output ≡ returned (output ++ x)
  unfolding inflate_loop close_inflate
  inflate_loop-enough zero room s output x m e f = ground (arith, f)
  inflate_loop-enough (suc fuel) room s output x m e f = elim (h.goes_on room s x m e) [
    | inl (o, (y, t, p)) ↦
        let k =
          inflate_loop-enough fuel room (z.inflate room s).2 (output ++ (z.inflate room s).1) y m t
            (omega (arith, h.progress room s m o, f)) in
        rw (inflate_loop, o)
          (k ∙ ap returned (append_assoc output (z.inflate room s).1 y ∙ ap (λ ys. output ++ ys) p))
    | inr (o, p, q) ↦
        stops (z.inflate room s).0 _ _ o
          (at_end (z.inflate room s).0 (z.inflate room s).2 (output ++ (z.inflate room s).1) o q)
        ∙ ap (λ ys. returned (output ++ ys)) p
  ]

  not_starved : (x : Status) (s : z.Inflate) (output : Bytes) → close_inflate z x s output ≢ starved
  unfolding close_inflate
  not_starved x s output = ground arith

  inflate_loop-ends :
      (fuel room : ℕ) (s : z.Inflate) (output : Bytes)
      → 1 ≤ room
      → h.work s < fuel
      → inflate_loop z fuel room s output ≢ starved
  unfolding inflate_loop
  inflate_loop-ends zero room s output m f = ground (arith, f)
  inflate_loop-ends (suc fuel) room s output m f =
      let r = z.inflate room s in
      go_on r.0
        (λ o.
          inflate_loop-ends fuel room r.2 (output ++ r.1) m
            (omega (arith, h.progress room s m o, f)))
        (not_starved r.0 r.2 (output ++ r.1))

  -- Whatever the bytes of the peer are, as long as there are any, the loop of __gzipUncompress ends: more
  -- fuel than the work that zlib has at first is enough. Of 2^30 bytes and more the size of its buffer
  -- overflows before the loop.
  pub gzip_uncompress-ends :
      (src : Bytes) (fuel : ℕ)
      → 1 ≤ length src
      → ((s : z.Inflate) → z.inflate_init src ≡ some s → h.work s < fuel)
      → gzip_uncompress z fuel src ≢ starved
  unfolding gzip_uncompress
  gzip_uncompress-ends src fuel l f = elim (Option-cases (z.inflate_init src)) [
    | inl e ↦ rw (gzip_uncompress, e) (ground arith)
    | inr (s, e) ↦
        rw (gzip_uncompress, e)
          (sized (ltb (length src * 2) (2 ^ 31))
            (inflate_loop-ends fuel (length src * 2) s [] (omega (arith, l)) (f s e)))
  ]

  pub front-same : (x : Bytes) → length x < 2 ^ 31 → front z x ≡ x
  front-same x l = take_all (length x % 2 ^ 32) x (omega (arith, l))

  -- __gzipCompress makes what zlib has for the text, or for its front.
  pub gzip_compress-pending :
      (x : Bytes) (s : z.Deflate) (fuel : ℕ)
      → z.deflate_init (front z x) ≡ some s
      → length (h.pending s) < fuel
      → gzip_compress z fuel x ≡ returned (h.pending s)
  unfolding gzip_compress
  gzip_compress-pending x s fuel e f = rw (gzip_compress, e) (deflate_loop-enough fuel s [] f)

  -- The two loops end and are inverse: of every text shorter than 2^31 for which deflateInit2 succeeds and
  -- of which zlib makes fewer than 2^30 bytes, __gzipCompress makes the bytes that zlib has for it, which
  -- are not empty, if its fuel is more than their number, and of these __gzipUncompress makes the text
  -- again, if its fuel is more than the work of zlib.
  pub gzip_uncompress-gzip_compress :
      (x : Bytes) (s : z.Deflate) (fuel more : ℕ)
      → length x < 2 ^ 31
      → length (h.pending s) * 2 < 2 ^ 31
      → z.deflate_init x ≡ some s
      → length (h.pending s) < fuel
      → ((t : z.Inflate) → z.inflate_init (h.pending s) ≡ some t → h.work t < more)
      → (gzip_compress z fuel x ≡ returned (h.pending s))
        × (gzip_uncompress z more (h.pending s) ≡ returned x)
        × (h.pending s ≢ [])
  unfolding gzip_uncompress
  gzip_uncompress-gzip_compress x s fuel more n k e f g =
      let y = h.pending s in
      let r = h.restores x s e in
      let l = h.header x s e in
      let w = inflate_loop-enough more (length y * 2) r.0 [] x (omega (arith, l)) r.2 (g r.0 r.1) in
      let fits : ltb (length y * 2) (2 ^ 31) ≡ true = ground (arith, k) in
      (
        gzip_compress-pending x s fuel (ap z.deflate_init (front-same x n) ∙ e) f,
        rw (gzip_uncompress, r.1, fits) w,
        λ p. ground (arith, subst (λ ys. 1 ≤ length ys) p l),
      )
