-- ===== src/Server/UserId.antt =====
-- paf/server.py, `Connection.determine_user_id`.
use paf.Prelude.{
  ℕ, ◌+◌, ◌/◌, ◌%◌, Bool, true, false, ◌&&◌, ◌||◌, Option, none, some, List, [], ◌∷◌, ◌++◌, Text,
  ◌==◌, nat_eq, ltb, if◌then◌else◌,
}
use paf.Prelude.Action.{Result, ok, raised, Error}

-- `text.startswith(prefix)`
unfoldable pub starts_with : Text → Text → Bool
starts_with [] s = true
starts_with (c ∷ p) [] = false
starts_with (c ∷ p) (d ∷ s) = c == d && starts_with p s

-- `text.split(":", 1)[1]`
unfoldable pub behind_colon : Text → Option Text
behind_colon [] = none
behind_colon (c ∷ s) = if c == b':' then some s else behind_colon s

-- `text.rsplit(":", 1)[0]`; `none` where there is no colon.
unfoldable pub before_last_colon : Text → Option Text
before_last_colon [] = none
before_last_colon (c ∷ s) = elim (before_last_colon s) [
  | some t ↦ some (c ∷ t)
  | none ↦ if c == b':' then some [] else none
]

abbrev pub or_whole : Text → Option Text → Text
or_whole s none = s
or_whole s (some t) = t

abbrev pub hex_digit : ℕ → ℕ
hex_digit n = if ltb n 10 then b'0' + n else b'W' + n

-- `":".join(["%02x" % b for b in subject_key_id])`
unfoldable pub hex_bytes : List ℕ → Text
hex_bytes [] = []
hex_bytes (b ∷ []) = hex_digit (b / 16) ∷ hex_digit (b % 16) ∷ []
hex_bytes (b ∷ c ∷ bs) = hex_digit (b / 16) ∷ hex_digit (b % 16) ∷ b':' ∷ hex_bytes (c ∷ bs)

abbrev pub is_tls : Text → Bool
is_tls addr = starts_with (b't' ∷ b'l' ∷ b's' ∷ []) addr

abbrev pub is_tcp : Text → Bool
is_tcp addr = starts_with (b't' ∷ b'c' ∷ b'p' ∷ []) addr

abbrev pub ip_user : Text → Result Text
ip_user addr = elim (behind_colon addr) [
  | none ↦ raised Error.index_error
  | some ip_port ↦ ok ((b'i' ∷ b'p' ∷ b':' ∷ []) ++ or_whole ip_port (before_last_colon ip_port))
]

abbrev pub default_user_id : Text
default_user_id = b'd' ∷ b'e' ∷ b'f' ∷ b'a' ∷ b'u' ∷ b'l' ∷ b't' ∷ []

-- The address of a connection, and the socket's subject key identifier, where it has that attribute.
-- Without one, a TLS connection goes by its address, as a TCP connection does.
unfoldable pub determine_user_id : Text → Option (List ℕ) → Result Text
unfolding starts_with behind_colon before_last_colon hex_bytes
determine_user_id addr none =
    if is_tcp addr || is_tls addr then ip_user addr else ok default_user_id
determine_user_id addr (some key) =
    if is_tls addr
    then ok ((b's' ∷ b'k' ∷ b'i' ∷ b':' ∷ []) ++ hex_bytes key)
    else (if is_tcp addr then ip_user addr else ok default_user_id)
