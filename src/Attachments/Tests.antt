-- ===== src/Attachments/Tests.antt =====
-- URIs of attachments, and the validation of their metadata.
use cpp_wiki.Prelude.{◌≡◌, refl, none, some, is_some, true, suc}
use cpp_wiki.Knowledge.Validation.{first_failure}
use cpp_wiki.Attachments.{
  AttachmentMetadata, max_attachment_size_bytes, make_attachment_uri, parse_attachment_uri,
  validate_attachment_size, validate_attachment_metadata,
}

-- A slash at the end of a URI is left out; a path, a query or another scheme is no attachment.
parse_attachment_uri_runs :
    (parse_attachment_uri "cppwiki-attachment://a1" ≡ some "a1")
    × (parse_attachment_uri "cppwiki-attachment://a1/" ≡ some "a1")
    × (parse_attachment_uri "cppwiki-attachment://a1//" ≡ none)
    × (parse_attachment_uri "cppwiki-attachment://a?b" ≡ none)
    × (parse_attachment_uri "cppwiki-attachment:///" ≡ none)
    × (parse_attachment_uri "http://a1" ≡ none)
unfolding parse_attachment_uri
parse_attachment_uri_runs = (refl, refl, refl, refl, refl, refl)

validate_attachment_size_runs :
    (validate_attachment_size max_attachment_size_bytes ≡ none)
    × (is_some (validate_attachment_size (suc max_attachment_size_bytes)) ≡ true)
unfolding validate_attachment_size
validate_attachment_size_runs = (refl, refl)

abbrev named : AttachmentMetadata
named = record {
  id = "a?b";
  workspace_id = "w";
  filename = "f";
  mime_type = "m";
  size_bytes = 1;
  sha256 = "";
  created_at = "";
  created_by = "";
}

-- A valid id whose URI is no attachment's.
valid_without_uri :
    (validate_attachment_metadata named ≡ none)
    × (parse_attachment_uri (make_attachment_uri named.id) ≡ none)
unfolding validate_attachment_metadata first_failure parse_attachment_uri make_attachment_uri
valid_without_uri = (refl, refl)
