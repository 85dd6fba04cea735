-- ===== src/Gateway.antt =====
-- apps/gs-gateway/src/index.ts: the gateway that joins a browser to the process of its room. The
-- answer of Redis, the state of the socket and `Number` are arguments; the relay of bytes is Node's.
pub mod Shard
mod Tests
use gacha_mind.Base.{
  ℕ, zero, suc, Bool, true, false, ◌&&◌, ◌||◌, List, [], ◌∷◌, ◌++◌, Option, none, some, Text, codes,
  leb, ◌==◌, if◌then◌else◌,
}

-- `[A-Za-z0-9_-]`
unfoldable pub is_shard_char : ℕ → Bool
is_shard_char c =
    (leb 65 c && leb c 90)
    || (leb 97 c && leb c 122)
    || (leb 48 c && leb c 57)
    || c == 95
    || c == 45

-- `[A-Za-z0-9_-]*` takes as much as it can, and what is left.
unfoldable pub take_name : Text → Text × Text
unfolding is_shard_char
take_name [] = ([], [])
take_name (c ∷ s) =
    let (name, rest) = take_name s in if is_shard_char c then (c ∷ name, rest) else ([], c ∷ s)

-- `(?:[/?]|$)`
unfoldable pub ends_name : Text → Bool
ends_name [] = true
ends_name (c ∷ s) = c == 47 || c == 63

unfoldable pub named : Text × Text → Option Text
unfolding ends_name
named ([], rest) = none
named (c ∷ name, rest) = if ends_name rest then some (c ∷ name) else none

-- The text after a prefix.
unfoldable pub strip_prefix : Text → Text → Option Text
strip_prefix [] s = some s
strip_prefix (c ∷ p) [] = none
strip_prefix (c ∷ p) (d ∷ s) = if c == d then strip_prefix p s else none

unfoldable pub shard_after : Option Text → Option Text
unfolding named take_name
shard_after none = none
shard_after (some s) = named (take_name s)

abbrev pub gs_prefix : Text
gs_prefix = codes "/gs/"

-- `url ?? ""` matches nothing where there is no URL.
unfoldable pub shard_from_url : Option Text → Option Text
unfolding shard_after strip_prefix
shard_from_url none = none
shard_from_url (some url) = shard_after (strip_prefix gs_prefix url)

-- What becomes of a request to upgrade: a status line, a socket that is left alone, or a connection.
pub data Upgrade : Type 0 where
  rejected : (status : ℕ) → Upgrade
  ignored : Upgrade
  connects : (host : Text) (port : ℕ) → Upgrade

-- The host and the port that Redis has, or `none` where the lookup throws.
pub record Lookup : Type 0 where
  pub host : Option Text
  pub port : Option Text

-- `load[1] ? Number(load[1]) : undefined`; NaN and 0 count as false.
unfoldable pub port_of : (Text → Option ℕ) → Option Text → Option ℕ
port_of number none = none
port_of number (some []) = none
port_of number (some (c ∷ s)) = number (c ∷ s)

unfoldable pub connect_to : Bool → Option Text → Option ℕ → Upgrade
connect_to writable none port = rejected 404
connect_to writable (some []) port = rejected 404
connect_to writable (some (c ∷ host)) none = rejected 404
connect_to writable (some (c ∷ host)) (some zero) = rejected 404
connect_to writable (some (c ∷ host)) (some (suc port)) =
    if writable then connects (c ∷ host) (suc port) else ignored

unfoldable pub after_lookup : (Text → Option ℕ) → Bool → Option Lookup → Upgrade
unfolding connect_to port_of
after_lookup number writable none = rejected 503
after_lookup number writable (some l) = connect_to writable l.host (port_of number l.port)

-- The request is of a shard or of none; Redis is asked for that shard.
unfoldable pub upgrade_to :
    (Text → Option ℕ) → Bool → (Text → Option Lookup) → Option Text → Upgrade
unfolding after_lookup
upgrade_to number writable redis none = rejected 404
upgrade_to number writable redis (some shard) = after_lookup number writable (redis shard)

unfoldable pub handle_upgrade :
    (Text → Option ℕ) → Bool → (Text → Option Lookup) → Option Text → Upgrade
unfolding upgrade_to shard_from_url
handle_upgrade number writable redis url = upgrade_to number writable redis (shard_from_url url)

unfoldable pub crlf : Text
crlf = 13 ∷ 10 ∷ []

-- The headers come as names and values in turn; each line after the first begins with a line break.
unfoldable pub header_lines : List Text → Text
header_lines [] = []
header_lines (name ∷ []) = crlf ++ name ++ codes ": undefined"
header_lines (name ∷ value ∷ rest) = crlf ++ name ++ codes ": " ++ value ++ header_lines rest

unfoldable pub serialize_request : (method url version : Text) → List Text → Text
unfolding header_lines crlf
serialize_request method url version headers =
    method ++ codes " " ++ url ++ codes " HTTP/" ++ version ++ header_lines headers ++ crlf ++ crlf
