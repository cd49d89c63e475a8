-- ===== src/Voice/Tokens.antt =====
-- voice/tokens.py: `SessionTokenManager`. HMAC, SHA-256, base64 and the encoding of texts are arguments,
-- and so is each nonce.
pub mod Issued
use Prim.Native.String.{◌++◌ as text_append}
use personal_secretary.Prelude.{
  ℕ, suc, zero, String, Bool, true, false, not, Option, none, some, List, [], ◌∷◌, ◌++◌, ◌&&◌, ◌||◌,
  ◌==◌, str_eq, length, keep, if◌then◌else◌,
}
use personal_secretary.Prelude.Int.{ℤ, pos, ◌+ℤ◌, leb_ℤ}
use personal_secretary.Prelude.Results.{Result, err, ok}
use personal_secretary.Voice.Models.{Bytes, SessionToken, VoiceError, session_token_ttl}

pub record TokenPrimitives : Type 0 where
  pub hmac : Bytes → Bytes
  pub sha256 : String → String
  pub urlsafe_b64encode : Bytes → String
  pub b64decode : String → Option Bytes
  pub encode : String → Bytes
  pub isoformat : ℤ → String

pub record TokenRecord : Type 0 where
  pub token : SessionToken
  pub digest : String

abbrev pub token_nonce_bytes : ℕ
token_nonce_bytes = 32

unfoldable pub take_bytes : ℕ → Bytes → Bytes
take_bytes zero bytes = []
take_bytes (suc n) [] = []
take_bytes (suc n) (b ∷ bytes) = b ∷ take_bytes n bytes

unfoldable pub drop_bytes : ℕ → Bytes → Bytes
drop_bytes zero bytes = bytes
drop_bytes (suc n) [] = []
drop_bytes (suc n) (b ∷ bytes) = drop_bytes n bytes

unfoldable pub bytes_eq : Bytes → Bytes → Bool
bytes_eq [] [] = true
bytes_eq [] (_ ∷ _) = false
bytes_eq (_ ∷ _) [] = false
bytes_eq (a ∷ more) (b ∷ others) = (a == b) && bytes_eq more others

-- `self._records.get(digest)`, of records that hold their own key.
unfoldable pub get_token : String → List TokenRecord → Option TokenRecord
get_token digest [] = none
get_token digest (r ∷ rs) =
    let rest = get_token digest rs in if str_eq r.digest digest then some r else rest

-- `self._records[digest] = record`
unfoldable pub put_token : TokenRecord → List TokenRecord → List TokenRecord
put_token r [] = r ∷ []
put_token r (s ∷ ss) =
    let rest = put_token r ss in if str_eq s.digest r.digest then r ∷ ss else s ∷ rest

-- `self._records.pop(digest, None)`
unfoldable pub pop_token : String → List TokenRecord → List TokenRecord
pop_token digest = keep (λ r. not (str_eq r.digest digest))

module _ (primitives : TokenPrimitives) where
  unfoldable pub binding : String → String → ℤ → Bytes
  binding session_id device_id issued_at = primitives.encode (
      text_append session_id (
        text_append "\u{1f}"
          (text_append device_id (text_append "\u{1f}" (primitives.isoformat issued_at)))))

  unfoldable pub token_value : Bytes → String → String → ℤ → String
  token_value nonce session_id device_id now =
      primitives.urlsafe_b64encode
        (nonce ++ primitives.hmac (nonce ++ binding session_id device_id now))

  unfoldable pub new_token : Bytes → String → String → ℤ → SessionToken
  new_token nonce session_id device_id now = record {
    value = token_value nonce session_id device_id now;
    session_id = session_id;
    device_id = device_id;
    issued_at = now;
    expires_at = now +ℤ pos session_token_ttl;
  }

  unfoldable pub issue_token :
      Bytes → List TokenRecord → String → String → ℤ → List TokenRecord × SessionToken
  issue_token nonce records session_id device_id now =
      let token = new_token nonce session_id device_id now in
      (put_token (record { token = token; digest = primitives.sha256 token.value }) records, token)

  -- The checks of the decoded bytes.
  abbrev pub signature_checked : TokenRecord → Bytes → Result VoiceError TokenRecord
  signature_checked r decoded =
      let nonce = take_bytes token_nonce_bytes decoded in
      let signature = drop_bytes token_nonce_bytes decoded in
      let expected =
        primitives.hmac (nonce ++ binding r.token.session_id r.token.device_id r.token.issued_at) in
      if not (length nonce == token_nonce_bytes) || not (bytes_eq signature expected)
      then err (VoiceError.access "invalid voice session token")
      else ok r

  abbrev pub decoded_checked : TokenRecord → Option Bytes → Result VoiceError TokenRecord
  decoded_checked r none = err (VoiceError.access "malformed voice session token")
  decoded_checked r (some decoded) = signature_checked r decoded

  abbrev pub record_checked : String → Option TokenRecord → Result VoiceError TokenRecord
  record_checked value none = err (VoiceError.access "unknown voice session token")
  record_checked value (some r) = decoded_checked r (primitives.b64decode value)

  unfoldable pub verified_record : List TokenRecord → String → Result VoiceError TokenRecord
  verified_record records value = record_checked value (get_token (primitives.sha256 value) records)

  abbrev pub unexpired_token : ℤ → Result VoiceError TokenRecord → Result VoiceError SessionToken
  unexpired_token now (err e) = err e
  unexpired_token now (ok r) =
      if leb_ℤ r.token.expires_at now
      then err (VoiceError.access "voice session token expired")
      else ok r.token

  unfoldable pub verify_token : List TokenRecord → String → ℤ → Result VoiceError SessionToken
  verify_token records value now = unexpired_token now (verified_record records value)

  abbrev pub token_of : Result VoiceError TokenRecord → Result VoiceError SessionToken
  token_of (err e) = err e
  token_of (ok r) = ok r.token

  unfoldable pub verify_for_resume : List TokenRecord → String → Result VoiceError SessionToken
  verify_for_resume records value = token_of (verified_record records value)

  abbrev pub replaced :
      Bytes
      → List TokenRecord
      → ℤ
      → Result VoiceError TokenRecord
      → List TokenRecord × Result VoiceError SessionToken
  replaced nonce records now (err e) = (records, err e)
  replaced nonce records now (ok old) =
      let (after, token) =
        issue_token nonce (pop_token old.digest records) old.token.session_id old.token.device_id
          now in
      (after, ok token)

  unfoldable pub replace_token :
      Bytes → List TokenRecord → String → ℤ → List TokenRecord × Result VoiceError SessionToken
  replace_token nonce records value now = replaced nonce records now (verified_record records value)

  unfoldable pub invalidate : List TokenRecord → String → List TokenRecord
  invalidate records value = pop_token (primitives.sha256 value) records
