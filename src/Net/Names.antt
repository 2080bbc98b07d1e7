-- ===== src/Net/Names.antt =====
-- crates/poker-engine/src/net/protocol.rs: which usernames, e-mail addresses and passwords are valid,
-- and why a client is rejected.
use Prim.Native.Char.{code}
use Prim.Native.String.{String}
use vibe_poker.Base.{
  ℕ, ◌+◌, Bool, false, not, ◌&&◌, ◌||◌, List, [], ◌∷◌, length, count_if, all_of, ltb, leb, ◌==◌,
  if◌then◌else◌, Option, none, some,
}

-- The code points of a text.
abbrev pub codes : String → List ℕ
codes String.[] = []
codes (String.◌∷◌ c s) = code c ∷ codes s

-- `str::len`: the bytes of the text in UTF-8.
abbrev pub utf8_width : ℕ → ℕ
utf8_width c = if ltb c 0x80 then 1 else if ltb c 0x800 then 2 else if ltb c 0x10000 then 3 else 4

abbrev pub byte_length : List ℕ → ℕ
byte_length [] = 0
byte_length (c ∷ cs) = utf8_width c + byte_length cs

abbrev pub within : (low high : ℕ) → ℕ → Bool
within low high n = leb low n && leb n high

abbrev pub is_ascii_alphanumeric : ℕ → Bool
is_ascii_alphanumeric c = within 48 57 c || (within 65 90 c || within 97 122 c)

-- A letter or a digit, `_`, `-` or `.`.
abbrev pub is_name_char : ℕ → Bool
is_name_char c = is_ascii_alphanumeric c || (c == 95 || (c == 45 || c == 46))

abbrev pub starts_well : List ℕ → Bool
starts_well [] = false
starts_well (c ∷ cs) = is_ascii_alphanumeric c

-- `is_valid_username`; a code point that is not ASCII has bytes that are no name characters.
unfoldable pub is_valid_username : List ℕ → Bool
is_valid_username name =
    within 3 24 (byte_length name) && (starts_well name && all_of is_name_char name)

-- `char::is_whitespace`: the code points with the property `White_Space`.
abbrev pub is_whitespace : ℕ → Bool
is_whitespace c =
    within 9 13 c
    || (c == 32
        || (c == 0x85
            || (c == 0xA0
                || (c == 0x1680
                    || (within 0x2000 0x200A c
                        || (c == 0x2028
                            || (c == 0x2029 || (c == 0x202F || (c == 0x205F || c == 0x3000)))))))))

-- `char::is_control`
abbrev pub is_control : ℕ → Bool
is_control c = ltb c 32 || within 0x7F 0x9F c

abbrev pub is_at_sign : ℕ → Bool
is_at_sign c = c == 64

-- The text after the first `@`, if there is one.
abbrev pub domain_of : List ℕ → Option (List ℕ)
domain_of [] = none
domain_of (c ∷ cs) = let rest = domain_of cs in if is_at_sign c then some cs else rest

abbrev pub has_dot : List ℕ → Bool
has_dot [] = false
has_dot (c ∷ cs) = c == 46 || has_dot cs

abbrev pub is_blank : ℕ → Bool
is_blank c = is_whitespace c || is_control c

abbrev pub starts_with_at : List ℕ → Bool
starts_with_at [] = false
starts_with_at (c ∷ cs) = is_at_sign c

abbrev pub is_domain : Option (List ℕ) → Bool
is_domain none = false
is_domain (some domain) = leb 1 (length domain) && has_dot domain

-- `is_valid_email`
unfoldable pub is_valid_email : List ℕ → Bool
is_valid_email email =
    within 3 254 (byte_length email)
    && (count_if is_at_sign email == 1
        && (not (starts_with_at email)
            && (is_domain (domain_of email) && all_of (λ c. not (is_blank c)) email)))

-- `is_valid_password`
unfoldable pub is_valid_password : List ℕ → Bool
is_valid_password password = within 8 128 (byte_length password)

pub data RejectReason : Type 0 where
  protocol_mismatch invalid_username invalid_email invalid_password username_in_use email_in_use
        bad_credentials session_revoked unknown_session internal_error :
      RejectReason

-- `RejectReason::as_str`
abbrev pub as_str : RejectReason → String
as_str RejectReason.protocol_mismatch = "protocol version mismatch"
as_str RejectReason.invalid_username = "invalid username"
as_str RejectReason.invalid_email = "invalid email"
as_str RejectReason.invalid_password = "invalid password"
as_str RejectReason.username_in_use = "username already in use"
as_str RejectReason.email_in_use = "email already in use"
as_str RejectReason.bad_credentials = "bad credentials"
as_str RejectReason.session_revoked = "session revoked"
as_str RejectReason.unknown_session = "unknown session"
as_str RejectReason.internal_error = "internal error"
