-- ===== src/Packet/Gzip.antt =====
-- What the encoders and decoders rely on in encoding.cpp's __gzipCompress and __gzipUncompress.
use go_socket_client.Prelude.{ℕ, ◌*◌, ◌<◌, ◌^◌, length, ◌≡◌, ◌≢◌, List, [], Option, some}

abbrev pub Bytes : Type 0
Bytes = List ℕ

-- `none` is the result `false`; `some` is `true` with the output. The callers cast the size of what they
-- give to an int, and __gzipUncompress doubles it for its buffer, so that larger sizes are not restored.
pub record Gzip : Type 0 where
  pub compress : Bytes → Option Bytes
  pub uncompress : Bytes → Option Bytes
  -- What was compressed is restored, and a compressed text has a header at least.
  pub round_trip :
      (x y : Bytes)
      → length x < 2 ^ 31
      → length y * 2 < 2 ^ 31
      → compress x ≡ some y
      → uncompress y ≡ some x
  pub nonempty : (x y : Bytes) → compress x ≡ some y → y ≢ []
