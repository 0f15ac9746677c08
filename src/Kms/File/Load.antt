-- ===== src/Kms/File/Load.antt =====
-- Loading the master key.
use kms_golang.Base.{
  ℕ, ◌-◌, ◌<◌, Bytes, ◌++◌, some, Result, ok, ◌≡◌, arith, All, IsBytes, length, get_or, >>=-eq-ok,
}
use kms_golang.Go.Hex
use kms_golang.Go.Hex.{IsHexDigit, digit_value, decode_digits}
use kms_golang.Go.Gcm.{new_gcm}
use kms_golang.Kms.Trim.{is_space, bytes_trim_space}
use kms_golang.Kms.Trim.Padding.{IsSpace, IsNotSpace, All-get_or, trim-padded}
use kms_golang.Kms.Trim.Sound.{IsTrimming, bytes_trim_space-IsTrimming}
use kms_golang.Kms.File.{FileManager, new_manager_from_file}

hex_digit-IsNotSpace : (c : ℕ) → IsHexDigit c → IsNotSpace c
unfolding digit_value is_space
hex_digit-IsNotSpace c h = ground arith

abbrev pub holding : Bytes → FileManager
holding key = record { aead = some (record { key = key }); master_key = some key }

-- A file of 64 hexadecimal digits, with any white space around them, is loaded as the 32 bytes that
-- the digits spell.
pub new_manager_from_file_padded :
    (read_file : Bytes → Result Bytes) (path front digits back key : Bytes)
    → read_file path ≡ ok (front ++ (digits ++ back))
    → All IsSpace front
    → All IsSpace back
    → Hex.decode digits ≡ ok key
    → length digits ≡ 64
    → new_manager_from_file read_file path ≡ ok (holding key)
unfolding new_manager_from_file new_gcm
new_manager_from_file_padded read_file path front digits back key read hf hb spelt size =
    let (all_digits, len, _) = decode_digits digits spelt in
    let plain = λ (k : ℕ) (lt : k < length digits).
      hex_digit-IsNotSpace (get_or digits k 0) (All-get_or IsHexDigit digits k all_digits lt) in
    let trimmed =
      trim-padded front digits back hf hb (omega arith) (plain 0 (omega arith))
        (plain (length digits - 1) (omega arith)) in
    rw read (rw trimmed (rw spelt (ground arith)))

-- What a loaded manager holds: a key of 32 bytes, which is what the file spells in hexadecimal
-- between white space, and the cipher of that key.
pub new_manager_from_file_sound :
    (read_file : Bytes → Result Bytes) (path : Bytes) {m : FileManager}
    → new_manager_from_file read_file path ≡ ok m
    → (content digits key : Bytes) × (read_file path ≡ ok content)
      × IsTrimming content digits
      × (Hex.decode digits ≡ ok key)
      × (length key ≡ 32)
      × IsBytes key
      × (m ≡ holding key)
unfolding new_manager_from_file new_gcm
new_manager_from_file_sound read_file path {m} h =
    let (content, read, h1) = >>=-eq-ok (read_file path) _ h in
    let (key, spelt, h2) = >>=-eq-ok (Hex.decode (bytes_trim_space content)) _ h1 in
    let (_, _, key_bytes) = decode_digits (bytes_trim_space content) spelt in
    (
      content,
      bytes_trim_space content,
      key,
      read,
      bytes_trim_space-IsTrimming content,
      spelt,
      ground arith,
      key_bytes,
      ground arith,
    )
