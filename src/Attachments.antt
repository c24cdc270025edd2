-- ===== src/Attachments.antt =====
-- storage/attachment.{h,cc}: attachments, their URIs, and the validation of their metadata. Texts are
-- native strings, a list of characters; `find_first_of` with a literal that has a NUL in it reads the
-- literal only up to the NUL.
pub mod Uris
mod Tests
use Prim.Native.Nat.{ℕ, ◌*◌}
use Prim.Native.Char.{Char, code}
use Prim.Native.String as NativeString
use cpp_wiki.Prelude.{
  String, Bool, true, false, not, ◌||◌, ◌&&◌, Option, none, some, List, [], ◌∷◌, ◌+++◌, ltb, eqb,
  if◌then◌else◌, is_empty,
}
use cpp_wiki.Knowledge.Validation.{first_failure}

-- 25 MiB
abbrev pub max_attachment_size_bytes : ℕ
max_attachment_size_bytes = 25 * 1024 * 1024

abbrev pub attachment_uri_scheme : String
attachment_uri_scheme = "cppwiki-attachment://"

-- The size is an unsigned number of 64 bits.
pub record AttachmentMetadata : Type 0 where
  pub id : String
  pub workspace_id : String
  pub filename : String
  pub mime_type : String
  pub size_bytes : ℕ
  pub sha256 : String
  pub created_at : String
  pub created_by : String

-- The bytes are a text of which each character is a byte.
pub record AttachmentData : Type 0 where
  pub metadata : AttachmentMetadata
  pub bytes : String

unfoldable pub make_attachment_uri : String → String
make_attachment_uri attachment_id = attachment_uri_scheme +++ attachment_id

-- The text after a prefix, if it starts with it.
unfoldable pub after_prefix : String → String → Option String
after_prefix NativeString.[] s = some s
after_prefix (NativeString.◌∷◌ c p) NativeString.[] = none
after_prefix (NativeString.◌∷◌ c p) (NativeString.◌∷◌ d s) =
    let rest = after_prefix p s in if eqb (code c) (code d) then rest else none

-- The text without a slash (47) at its end.
unfoldable pub without_last_slash : String → String
without_last_slash NativeString.[] = ""
without_last_slash (NativeString.◌∷◌ c s) =
    let rest = without_last_slash s in
    if eqb (code c) 47 && is_empty s then "" else NativeString.◌∷◌ c rest

-- `find_first_of` finds one of the characters.
unfoldable pub has_any : (Char → Bool) → String → Bool
has_any is_one NativeString.[] = false
has_any is_one (NativeString.◌∷◌ c s) = is_one c || has_any is_one s

-- A slash, a question mark or a hash.
unfoldable pub is_uri_delimiter : Char → Bool
is_uri_delimiter c = eqb (code c) 47 || eqb (code c) 63 || eqb (code c) 35

unfoldable pub checked_attachment_id : String → Option String
unfolding is_uri_delimiter has_any
checked_attachment_id s = if is_empty s || has_any is_uri_delimiter s then none else some s

unfoldable pub parsed_after : Option String → Option String
unfolding checked_attachment_id without_last_slash
parsed_after none = none
parsed_after (some rest) = checked_attachment_id (without_last_slash rest)

unfoldable pub parse_attachment_uri : String → Option String
unfolding parsed_after after_prefix
parse_attachment_uri uri = parsed_after (after_prefix attachment_uri_scheme uri)

unfoldable pub validate_attachment_size : ℕ → Option String
validate_attachment_size size_bytes =
    if ltb max_attachment_size_bytes size_bytes
    then some "Attachment exceeds the 25 MiB size limit."
    else none

-- A slash or a backslash (92): the literal of the source ends at its NUL.
unfoldable pub is_path_separator : Char → Bool
is_path_separator c = eqb (code c) 47 || eqb (code c) 92

unfoldable pub validate_attachment_metadata : AttachmentMetadata → Option String
unfolding has_any is_path_separator validate_attachment_size
validate_attachment_metadata metadata =
    elim (first_failure (
      (is_empty metadata.id, "Attachment ID must not be empty.")
      ∷ (
        has_any is_path_separator metadata.id,
        "Attachment ID must not contain a path separator or NUL.",
      )
      ∷ (is_empty metadata.workspace_id, "Attachment workspace ID must not be empty.")
      ∷ (is_empty metadata.filename, "Attachment filename must not be empty.")
      ∷ (
        has_any is_path_separator metadata.filename,
        "Attachment filename must not contain a path separator or NUL.",
      )
      ∷ (is_empty metadata.mime_type, "Attachment MIME type must not be empty.")
      ∷ [])) [ some message ↦ some message | none ↦ validate_attachment_size metadata.size_bytes ]
