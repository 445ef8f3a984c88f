-- ===== src/Jwt/Plain.antt =====
-- A library that meets the laws, for concrete runs: a token lists its claims and is not signed.
use Prim.Native.Char.{code}
use codelab_auth_service.Common.{
  ℕ, String, ◌≡◌, refl, Bool, ◌&&◌, not, Option, none, some, leb, eqb, ◌||◌, ◌==◌, eq_refl, arith,
  if◌then◌else◌,
}
use codelab_auth_service.Jwt.Interface.{Jwt, IsLawful}
use codelab_auth_service.Jwt.Serial.{
  put_text, take_text, take-put_text, put_number, take_number, take-put_number,
}
use codelab_auth_service.JwtPayload.{TokenType, JwtPayload, token_type_value}

unfoldable pub put_type : TokenType → String → String
put_type TokenType.access rest = String.◌∷◌ "a" rest
put_type TokenType.refresh rest = String.◌∷◌ "r" rest

unfoldable pub write : JwtPayload → String
unfolding put_type
write p = put_type p.type (
    put_text p.iss (
      put_text p.sub (
        put_text p.aud (
          put_text p.jti (
            put_text p.client_id
              (put_text p.scope (put_number p.exp (put_number p.iat (put_number p.nbf "")))))))))

unfoldable pub with_text :
    {A : Type 0} → Option (String × String) → (String → String → Option A) → Option A
with_text none f = none
with_text (some (s, rest)) f = f s rest

unfoldable pub with_number : {A : Type 0} → Option (ℕ × String) → (ℕ → String → Option A) → Option A
with_number none f = none
with_number (some (n, rest)) f = f n rest

unfoldable pub read_type : String → Option (TokenType × String)
read_type String.[] = none
read_type (String.◌∷◌ k rest) =
    some (if eqb (code k) b'a' then TokenType.access else TokenType.refresh, rest)

unfoldable pub with_type :
    {A : Type 0} → Option (TokenType × String) → (TokenType → String → Option A) → Option A
with_type none f = none
with_type (some (t, rest)) f = f t rest

unfoldable pub read : String → Option JwtPayload
unfolding read_type with_type with_text with_number
read s = with_type (read_type s) λ type s0. with_text (take_text s0) λ iss s1.
    with_text (take_text s1) λ sub s2. with_text (take_text s2) λ aud s3.
      with_text (take_text s3) λ jti s4. with_text (take_text s4) λ client_id s5.
        with_text (take_text s5) λ scope s6. with_number (take_number s6) λ exp s7.
          with_number (take_number s7) λ iat s8. with_number (take_number s8) λ nbf s9.
            some record {
              iss = iss;
              sub = sub;
              aud = aud;
              exp = exp;
              iat = iat;
              nbf = nbf;
              jti = jti;
              type = type;
              client_id = client_id;
              scope = scope;
            }

read_type-put : (t : TokenType) (rest : String) → read_type (put_type t rest) ≡ some (t, rest)
unfolding read_type put_type
read_type-put TokenType.access rest = refl
read_type-put TokenType.refresh rest = refl

read-write : (p : JwtPayload) → read (write p) ≡ some p
unfolding read write
read-write p =
    let s9 : String = "" in
    let s8 = put_number p.nbf s9 in
    let s7 = put_number p.iat s8 in
    let s6 = put_number p.exp s7 in
    let s5 = put_text p.scope s6 in
    let s4 = put_text p.client_id s5 in
    let s3 = put_text p.jti s4 in
    let s2 = put_text p.aud s3 in
    let s1 = put_text p.sub s2 in
    rw
      (
        read_type-put p.type (put_text p.iss s1),
        take-put_text p.iss s1,
        take-put_text p.sub s2,
        take-put_text p.aud s3,
        take-put_text p.jti s4,
        take-put_text p.client_id s5,
        take-put_text p.scope s6,
        take-put_number p.exp s7,
        take-put_number p.iat s8,
        take-put_number p.nbf s9,
      )
      refl

-- What the library checks of the claims that it has read.
unfoldable pub accept : Bool → ℕ → String → String → Option JwtPayload → Option JwtPayload
accept verify now audience issuer none = none
accept verify now audience issuer (some p) =
    if p.aud == audience && (p.iss == issuer && (not verify || (leb p.nbf now && leb now p.exp)))
    then some p
    else none

abbrev pub plain : Jwt
plain = record {
  Claims = JwtPayload;
  dump = λ p. p;
  type_of = λ p. some (token_type_value p.type);
  load = some;
  encode = write;
  decode = λ verify now audience issuer token. accept verify now audience issuer (read token);
}

pub plain-IsLawful : IsLawful plain
unfolding accept
plain-IsLawful = record {
  type_of-dump = λ p. refl;
  load-dump = λ p. refl;
  decode-encode =
      λ p now begun live. rw (read-write p) (ground (arith, eq_refl p.aud, eq_refl p.iss));
  decode_expired = λ p now audience issuer late. rw (read-write p) (ground arith);
  decode_early = λ p now audience issuer early. rw (read-write p) (ground arith);
}
