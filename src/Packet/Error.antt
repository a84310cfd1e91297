-- ===== src/Packet/Error.antt =====
-- packet/tcp_error.hpp, packet/tcp_error.cpp: the exceptions of the packet layer, and what a run of
-- the code comes to.
pub mod What
use go_socket_client.Prelude.{ℕ, ◌≡◌, refl}

-- TcpException::TcpExcType
pub data TcpExcType : Type 0 where
  bad_msg_type bad_len_encoding bad_return_code data_exceeds_packet msg_too_long : TcpExcType
  invalid_flag invalid_pro_name invalid_pro_version invalid_socket socket_close : TcpExcType
  socket_error ungzip_error gzip_error : TcpExcType

-- TcpException; the constructor's `errorNo` is 0 unless it is given.
pub record TcpException : Type 0 where
  pub exc_type : TcpExcType
  pub error_no : ℕ

abbrev pub exception : TcpExcType → TcpException
exception t = record { exc_type = t; error_no = 0 }

-- A run returns, throws, or does something that C++ leaves undefined, such as declaring an array
-- with a negative bound.
pub data Outcome {ℓ} (A : Type ℓ) : Type ℓ where
  ok : A → Outcome A
  throw : TcpException → Outcome A
  undefined : Outcome A

infixl 5 ◌>>=◌
abbrev pub ◌>>=◌ {κ ι} : {X : Type κ} {Y : Type ι} (m : Outcome X) → (X → Outcome Y) → Outcome Y
undefined >>= next = undefined
throw x >>= next = throw x
ok x >>= next = next x

abbrev pub fail {ℓ} : {A : Type ℓ} → TcpExcType → Outcome A
fail t = throw (exception t)

-- A sequence that returns has a first part that returns, and a rest that returns on its value.
pub >>=-returns {κ ι} :
    {X : Type κ} {Y : Type ι} (first : Outcome X) (next : X → Outcome Y) {y : Y}
    → (first >>= next) ≡ ok y
    → (x : X) × (first ≡ ok x) × (next x ≡ ok y)
>>=-returns undefined next r = cc
>>=-returns (throw x) next r = cc
>>=-returns (ok x) next r = (x, refl, r)

pub ok-injective {κ} : {X : Type κ} (x y : X) → ok x ≡ ok y → x ≡ y
ok-injective x y r = cc
