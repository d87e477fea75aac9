-- ===== src/Registry/Validate.antt =====
-- internal/store/validation.go: services, and what makes one valid. Metadata is walked in the order
-- of its list.
use Prim.Native.Char.{code}
use konsul.Prelude.{
  ℕ, ◌+◌, Bool, true, not, ◌&&◌, ◌||◌, String, Option, none, some, List, [], ◌∷◌, ◌==◌, ltb, leb,
  length, if◌then◌else◌,
}
use konsul.Prelude.Dict.{Dict}
use konsul.Prelude.Names.{has}
use konsul.Prelude.Text.{nonempty, starts_with}

-- A port is a signed number.
pub data ℤ : Type 0 where
  pos : ℕ → ℤ
  negsuc : ℕ → ℤ

-- A service without its health checks, which the replicas do not share.
pub record Service : Type 0 where
  pub name : String
  pub address : String
  pub port : ℤ
  pub tags : List String
  pub meta : Dict String

pub data Invalid : Type 0 where
  no_name no_address no_port port_range : Invalid
  too_many_tags empty_tag long_tag tag_format duplicate_tag : Invalid
  too_many_keys empty_key long_key long_value key_format reserved_key : Invalid

abbrev pub first_of : Option Invalid → Option Invalid → Option Invalid
first_of (some f) later = some f
first_of none later = later

abbrev pub is_alphanumeric : ℕ → Bool
is_alphanumeric n =
    (leb b'a' n && leb n b'z') || (leb b'A' n && leb n b'Z') || (leb b'0' n && leb n b'9')

abbrev pub all_chars : (ℕ → Bool) → String → Bool
all_chars p String.[] = true
all_chars p (String.◌∷◌ c s) = p (code c) && all_chars p s

-- `len` of a text: its bytes in UTF-8.
abbrev pub byte_width : ℕ → ℕ
byte_width n = if ltb n 128 then 1 else if ltb n 2048 then 2 else if ltb n 65536 then 3 else 4

abbrev pub byte_length : String → ℕ
byte_length String.[] = 0
byte_length (String.◌∷◌ c s) = byte_width (code c) + byte_length s

-- `^[a-zA-Z0-9\-_:./]+$`.
abbrev pub tag_char : ℕ → Bool
tag_char n = is_alphanumeric n || n == b'-' || n == b'_' || n == b':' || n == b'.' || n == b'/'

-- `^[a-zA-Z0-9\-_]+$`.
abbrev pub key_char : ℕ → Bool
key_char n = is_alphanumeric n || n == b'-' || n == b'_'

-- The tags in order, with those that were seen before.
unfoldable pub check_tags : List String → List String → Option Invalid
unfolding has
check_tags seen [] = none
check_tags seen (tag ∷ tags) =
    let rest = check_tags (tag ∷ seen) tags in
    if not (nonempty tag)
    then some empty_tag
    else if ltb 255 (byte_length tag)
    then some long_tag
    else if not (all_chars tag_char tag)
    then some tag_format
    else if has tag seen
    then some duplicate_tag
    else rest

unfoldable pub validate_tags : List String → Option Invalid
unfolding check_tags
validate_tags tags = if ltb 64 (length tags) then some too_many_tags else check_tags [] tags

abbrev pub is_reserved_metadata_key : String → Bool
is_reserved_metadata_key key = starts_with key "konsul_" || starts_with key "_"

unfoldable pub check_meta : Dict String → Option Invalid
unfolding starts_with
check_meta [] = none
check_meta ((key, value) ∷ meta) =
    let rest = check_meta meta in
    if not (nonempty key)
    then some empty_key
    else if ltb 128 (byte_length key)
    then some long_key
    else if ltb 512 (byte_length value)
    then some long_value
    else if not (all_chars key_char key)
    then some key_format
    else if is_reserved_metadata_key key
    then some reserved_key
    else rest

unfoldable pub validate_metadata : Dict String → Option Invalid
unfolding check_meta
validate_metadata meta = if ltb 64 (length meta) then some too_many_keys else check_meta meta

abbrev pub check_port : ℤ → Option Invalid
check_port (pos n) = if n == 0 then some no_port else if ltb 65535 n then some port_range else none
check_port (negsuc n) = some port_range

unfoldable pub validate_service : Service → Option Invalid
unfolding validate_tags validate_metadata
validate_service s =
    if not (nonempty s.name)
    then some no_name
    else if not (nonempty s.address)
    then some no_address
    else first_of (check_port s.port) (first_of (validate_tags s.tags) (validate_metadata s.meta))
