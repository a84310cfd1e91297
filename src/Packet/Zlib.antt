-- ===== src/Packet/Zlib.antt =====
-- packet/encoding.cpp, __gzipCompress and __gzipUncompress: their loops over a zlib, which is an
-- argument. A call of deflate or inflate gets the room in the buffer and gives the bytes that it wrote
-- there.
pub mod RoundTrip
pub mod Interface
use go_socket_client.Prelude.{
  ltb, take, ◌%◌, ◌^◌, ℕ, zero, suc, ◌*◌, Bool, Option, none, some, [], ◌++◌, ◌==◌, if◌then◌else◌,
  length,
}
use go_socket_client.Packet.Gzip.{Bytes}

-- Z_OK, Z_STREAM_END, and any other status
pub data Status : Type 0 where
  z_ok z_stream_end z_other : Status

-- zlib: its streams, with deflateInit2 and inflateInit2, which may fail, and the flush of the source.
pub record Zlib : Type 1 where
  pub Deflate : Type 0
  pub deflate_init : Bytes → Option Deflate
  pub deflate : ℕ → Deflate → Bytes × Deflate
  pub Inflate : Type 0
  pub inflate_init : Bytes → Option Inflate
  pub inflate : ℕ → Inflate → Status × Bytes × Inflate
  pub inflate_end : Inflate → Bool

-- What a function returns, `true` with the output; `overflows` is a buffer whose size an int does not hold,
-- which C++ leaves undefined; `starved` if the fuel did not last.
pub data GzipResult : Type 0 where
  failed : GzipResult
  returned : Bytes → GzipResult
  overflows : GzipResult
  starved : GzipResult

-- ChunkSize
abbrev pub chunk_size : ℕ
chunk_size = 16384

module _ (z : Zlib) where
  -- `while (stream.avail_out == 0)`
  unfoldable pub deflate_loop : ℕ → z.Deflate → Bytes → GzipResult
  deflate_loop zero s output = starved
  deflate_loop (suc fuel) s output =
      let r = z.deflate chunk_size s in
      let rest = deflate_loop fuel r.1 (output ++ r.0) in
      if length r.0 == chunk_size then rest else returned (output ++ r.0)

  -- What zlib is given of a text: its callers cast the size to an int, and `avail_in` is that as a uint.
  abbrev pub front : Bytes → Bytes
  front src = take (length src % 2 ^ 32) src

  -- __gzipCompress
  unfoldable pub gzip_compress : ℕ → Bytes → GzipResult
  gzip_compress fuel src = elim (z.deflate_init (front src)) [
    | none ↦ failed
    | some s ↦ deflate_loop fuel s []
  ]

  -- The end of __gzipUncompress.
  unfoldable pub close_inflate : Status → z.Inflate → Bytes → GzipResult
  close_inflate z_ok s output = failed
  close_inflate z_stream_end s output = if z.inflate_end s then returned output else failed
  close_inflate z_other s output = failed

  -- `while (status == Z_OK)`, with a buffer of `room` bytes.
  unfoldable pub inflate_loop : ℕ → ℕ → z.Inflate → Bytes → GzipResult
  inflate_loop zero room s output = starved
  inflate_loop (suc fuel) room s output =
      let r = z.inflate room s in
      let rest = inflate_loop fuel room r.2 (output ++ r.1) in
      elim r.0 [ z_ok ↦ rest | _ ↦ close_inflate r.0 r.2 (output ++ r.1) ]

  -- __gzipUncompress
  unfoldable pub gzip_uncompress : ℕ → Bytes → GzipResult
  gzip_uncompress fuel src = elim (z.inflate_init src) [
    | none ↦ failed
    | some s ↦
        if ltb (length src * 2) (2 ^ 31) then inflate_loop fuel (length src * 2) s [] else overflows
  ]
