-- ===== src/Packet/Decoding/Taken.antt =====
-- How `packetRemaining` accounts for the bytes that the get functions read. It is a uint32_t and
-- wraps when a length takes more bytes than remain; the account is kept modulo 2 ^ 32.
use go_socket_client.Prelude.{
  ℕ, ◌+◌, ◌-◌, ◌%◌, ◌^◌, ◌≤◌, ◌≡◌, subst, Option-cases, arith, length, length-append, All,
  All-right, ltb, leb, false, ◌++◌,
}
use go_socket_client.Packet.Reader.{Stream, M}
use go_socket_client.Packet.Reader.Returns.{
  Returns, Returns-pure, Returns-guard, Returns-undefined_guard, Returns-read, Returns-bind,
}
use go_socket_client.Packet.Gzip.{Bytes, Gzip}
use go_socket_client.Packet.Encoding.{u32_mod}
use go_socket_client.Packet.Decoding.{
  u32_max, sub32, decode_length, get_uint8, get_uint16, get_counted, get_gzip_string, get_gzip_data,
  unzip,
}
use go_socket_client.Packet.Decoding.Bounds.{IsByte, LengthRead, decode_length-LengthRead}

-- From `r` to `r'` while the stream went from `s` to `t`, by `bound` bytes at most.
abbrev pub Taken : ℕ → ℕ → ℕ → Stream → Stream → Type 0
Taken bound r r' s t =
    (length t.bytes ≤ length s.bytes)
    × (length s.bytes ≤ length t.bytes + bound)
    × ((r' + (length s.bytes - length t.bytes)) % u32_mod ≡ r)
    × (r' ≤ u32_max)
    × All IsByte t.bytes

-- A get function takes `bound` bytes at most, and what it returns beside its value accounts for them.
abbrev pub Accounts : {A : Type 0} → ℕ → ℕ → Stream → M (A × ℕ) → Type 0
Accounts bound r s m = Returns m s (λ p t. Taken bound r p.1 s t)

rest-IsByte :
    (s t : Stream) (buf : Bytes)
    → All IsByte s.bytes
    → s.bytes ≡ buf ++ t.bytes
    → All IsByte t.bytes
rest-IsByte s t buf h e = All-right IsByte buf t.bytes (subst (All IsByte) e h)

module _ (r : ℕ) (s : Stream) (hr : r ≤ u32_max) (hs : All IsByte s.bytes) where
  -- A guarded read of `n` bytes.
  read-Taken :
      (n : ℕ) (t : Stream) (buf : Bytes)
      → n ≤ r
      → s.bytes ≡ buf ++ t.bytes
      → length buf ≡ n
      → Taken n r (r - n) s t
  read-Taken n t buf h e l =
      let lens : length s.bytes ≡ length buf + length t.bytes = rw e (length-append buf t.bytes) in
      (omega arith, omega arith, omega arith, omega arith, rest-IsByte s t buf hs e)

  pub get_uint8-Accounts : Accounts 1 r s (get_uint8 r)
  unfolding get_uint8
  get_uint8-Accounts = Returns-guard _ s (ltb r 1) _ _ λ room.
      Returns-read _ s 1 _ λ buf t e l. Returns-pure _ t _ (read-Taken 1 t buf (ground arith) e l)

  pub get_uint16-Accounts : Accounts 2 r s (get_uint16 r)
  unfolding get_uint16
  get_uint16-Accounts = Returns-guard _ s (ltb r 2) _ _ λ room.
      Returns-read _ s 2 _ λ buf t e l. Returns-pure _ t _ (read-Taken 2 t buf (ground arith) e l)

  -- The numbers never wrap.
  pub get_uint8_exact : Returns (get_uint8 r) s (λ p t. (p.1 + 1 ≡ r) × All IsByte t.bytes)
  unfolding get_uint8
  get_uint8_exact = Returns-guard _ s (ltb r 1) _ _ λ room.
      Returns-read _ s 1 _ λ buf t e l. Returns-pure _ t _ (ground arith, rest-IsByte s t buf hs e)

  pub get_uint16_exact : Returns (get_uint16 r) s (λ p t. (p.1 + 2 ≡ r) × All IsByte t.bytes)
  unfolding get_uint16
  get_uint16_exact = Returns-guard _ s (ltb r 2) _ _ λ room.
      Returns-read _ s 2 _ λ buf t e l. Returns-pure _ t _ (ground arith, rest-IsByte s t buf hs e)

-- A block and its length take 2 ^ 28 + 3 bytes at most.
abbrev pub block_bound : ℕ
block_bound = 2 ^ 28 + 3

block-Taken :
    (r len len_len : ℕ) (s t u : Stream) (buf : Bytes)
    → r ≤ u32_max
    → LengthRead (length s.bytes) len len_len (length t.bytes)
    → All IsByte t.bytes
    → ltb (sub32 r len_len) len ≡ false
    → leb 0x8000_0000 len ≡ false
    → t.bytes ≡ buf ++ u.bytes
    → length buf ≡ len
    → Taken block_bound r (sub32 r len_len - len) s u
block-Taken r len len_len s t u buf hr read ht room small e l =
    let lens : length t.bytes ≡ length buf + length u.bytes = rw e (length-append buf u.bytes) in
    (ground arith, ground arith, ground arith, ground arith, rest-IsByte t u buf ht e)

module _ (r : ℕ) (s : Stream) (hr : r ≤ u32_max) (hs : All IsByte s.bytes) where
  pub get_counted-Accounts : Accounts block_bound r s (get_counted r)
  unfolding get_counted
  get_counted-Accounts =
      Returns-bind
        (λ p t. LengthRead (length s.bytes) p.0 p.1 (length t.bytes) × All IsByte t.bytes) _ s
        decode_length _
        (record {
          at = λ p t e. let (a, b, c) = decode_length-LengthRead s t p.0 p.1 hs e in (a, b);
        })
        λ p t read. Returns-guard _ t _ _ _ λ room. Returns-undefined_guard _ t _ _ λ small.
          Returns-read _ t _ _ λ buf u e l.
            Returns-pure _ u _ (block-Taken r p.0 p.1 s t u buf hr read.0 read.1 room small e l)

module _ (gzip : Gzip) where
  unzip-keeps : (buf : Bytes) (s : Stream) → Returns (unzip gzip buf) s (λ out t. t ≡ s)
  unfolding unzip
  unzip-keeps buf s = record { at = λ out t e. ground (arith, Option-cases (gzip.uncompress buf)) }

  module _ (r : ℕ) (s : Stream) (hr : r ≤ u32_max) (hs : All IsByte s.bytes) where
    pub get_gzip_string-Accounts : Accounts block_bound r s (get_gzip_string gzip r)
    unfolding get_gzip_string
    get_gzip_string-Accounts = Returns-bind _ _ s _ _ (get_counted-Accounts r s hr hs) λ p t h.
        Returns-bind (λ out u. u ≡ t) _ t _ _ (unzip-keeps p.0 t)
          λ out u e. Returns-pure _ u _ (rw e h)

    pub get_gzip_data-Accounts : Accounts block_bound r s (get_gzip_data gzip r)
    unfolding get_gzip_data
    get_gzip_data-Accounts = Returns-bind _ _ s _ _ (get_counted-Accounts r s hr hs) λ p t h.
        Returns-bind (λ out u. u ≡ t) _ t _ _ (unzip-keeps p.0 t)
          λ out u e. Returns-pure _ u _ (rw e h)
