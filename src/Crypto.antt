-- ===== src/Crypto.antt =====
-- The calls of libcrypto (openssl/md4.h, md5.h, sha.h, des.h, hmac.h) that otpd makes. That code is
-- not part of the repository, so it is a parameter.
use otpd.Base.{Bytes, Option}

pub record Crypto : Type 0 where
  pub md4 : Bytes → Bytes
  pub md5 : Bytes → Bytes
  pub sha1 : Bytes → Bytes
  -- HMAC with SHA-1 under a key; `none` is a NULL return
  pub hmac_sha1 : Bytes → Bytes → Option Bytes
  -- one block under an 8 octet key, in the order key, block
  pub des_ecb_encrypt : Bytes → Bytes → Bytes
  -- the checked schedule and the CBC encryption with a zero vector, in the order key, text;
  -- `none` is a refused key
  pub des_cbc_encrypt : Bytes → Bytes → Option Bytes
