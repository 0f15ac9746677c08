-- ===== src/Proto.antt =====
-- proto/kms.pb.go: the messages of the two services. A missing field reads as empty.
use kms_golang.Base.{Bytes}

pub record EncryptRequest : Type 0 where
  pub plaintext : Bytes
  pub key_id : Bytes

pub record EncryptResponse : Type 0 where
  pub ciphertext : Bytes
  pub nonce : Bytes

pub record DecryptRequest : Type 0 where
  pub ciphertext : Bytes
  pub nonce : Bytes
  pub key_id : Bytes

pub record DecryptResponse : Type 0 where
  pub plaintext : Bytes

pub record LoginRequest : Type 0 where
  pub username : Bytes
  pub password : Bytes

pub record LoginResponse : Type 0 where
  pub token : Bytes
