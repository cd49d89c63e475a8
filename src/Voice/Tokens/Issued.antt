-- ===== src/Voice/Tokens/Issued.antt =====
-- voice/tokens.py: a token that is issued, read back.
use personal_secretary.Prelude.{
  ℕ, suc, zero, String, true, false, some, List, [], ◌∷◌, ◌++◌, ◌≡◌, refl, inl, inr, ap, arith,
  Bool-cases, str_eq, eq_iff, length,
}
use personal_secretary.Prelude.Int.{ℤ, pos, ◌+ℤ◌, leb_ℤ}
use personal_secretary.Prelude.Results.{ok}
use personal_secretary.Voice.Models.{Bytes, session_token_ttl}
use personal_secretary.Voice.Tokens.{
  TokenPrimitives, TokenRecord, get_token, put_token, take_bytes, drop_bytes, bytes_eq, binding,
  token_value, new_token, issue_token, verified_record, verify_token, token_nonce_bytes,
}

get-put_token :
    (r : TokenRecord) (records : List TokenRecord)
    → get_token r.digest (put_token r records) ≡ some r
unfolding get_token put_token
get-put_token r [] = rw ((eq_iff r.digest r.digest).1 refl) refl
get-put_token r (s ∷ ss) = elim (Bool-cases (str_eq s.digest r.digest)) [
  | inl e ↦ rw (e, (eq_iff r.digest r.digest).1 refl) refl
  | inr e ↦ rw (e, e) (get-put_token r ss)
]

take_append : (n : ℕ) (xs ys : Bytes) → length xs ≡ n → take_bytes n (xs ++ ys) ≡ xs
unfolding take_bytes
take_append zero [] ys h = refl
take_append zero (x ∷ xs) ys h = absurd (omega (arith, h))
take_append (suc n) [] ys h = absurd (omega (arith, h))
take_append (suc n) (x ∷ xs) ys h = ap (λ more. x ∷ more) (take_append n xs ys (omega (arith, h)))

drop_append : (n : ℕ) (xs ys : Bytes) → length xs ≡ n → drop_bytes n (xs ++ ys) ≡ ys
unfolding drop_bytes
drop_append zero [] ys h = refl
drop_append zero (x ∷ xs) ys h = absurd (omega (arith, h))
drop_append (suc n) [] ys h = absurd (omega (arith, h))
drop_append (suc n) (x ∷ xs) ys h = drop_append n xs ys (omega (arith, h))

bytes_eq_refl : (xs : Bytes) → bytes_eq xs xs ≡ true
unfolding bytes_eq
bytes_eq_refl [] = refl
bytes_eq_refl (x ∷ xs) = ground (arith, bytes_eq_refl xs)

module _ (primitives : TokenPrimitives) where
  -- If base64 reads back the bytes that it wrote, and the nonce has 32 bytes, the value of an issued token is
  -- verified as that token at every time before the token expires.
  pub verify_token-issue_token :
      (nonce : Bytes) (records : List TokenRecord) (session_id device_id : String) (now later : ℤ)
      → let signature = primitives.hmac (nonce ++ binding primitives session_id device_id now) in
        primitives.b64decode (primitives.urlsafe_b64encode (nonce ++ signature))
          ≡ some (nonce ++ signature)
        → length nonce ≡ token_nonce_bytes
        → leb_ℤ (now +ℤ pos session_token_ttl) later ≡ false
        → let (after, token) = issue_token primitives nonce records session_id device_id now in
          verify_token primitives after token.value later ≡ ok token
  unfolding issue_token verify_token verified_record new_token token_value
  verify_token-issue_token nonce records session_id device_id now later reads size early =
      let token = new_token primitives nonce session_id device_id now in
      let signature = primitives.hmac (nonce ++ binding primitives session_id device_id now) in
      rw
        (
          get-put_token (record { token = token; digest = primitives.sha256 token.value }) records,
          reads,
          take_append 32 nonce signature size,
          drop_append 32 nonce signature size,
          size,
          bytes_eq_refl signature,
          early,
        )
        refl
