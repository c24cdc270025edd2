-- ===== src/Attachments/Uris.antt =====
-- The URIs of attachments, and the bound on the size of a valid attachment.
use Prim.Native.String as NativeString
use text.Mathlib.TextLemmas.{nil-append, cons-append}
use cpp_wiki.Prelude.{
  ◌≡◌, refl, ap, sym, ◌∙◌, String, Bool, true, false, ◌||◌, Option, none, some, arith, ◌+++◌,
  if◌then◌else◌, is_empty,
}
use cpp_wiki.Documents.Validator.Conversion.{some_injective}
use cpp_wiki.Attachments.{
  attachment_uri_scheme, make_attachment_uri, after_prefix, without_last_slash, has_any,
  is_uri_delimiter, checked_attachment_id, parsed_after, parse_attachment_uri,
}

after_prefix-append : (p s : String) → after_prefix p (p +++ s) ≡ some s
unfolding after_prefix
after_prefix-append NativeString.[] s = rw (nil-append s) refl
after_prefix-append (NativeString.◌∷◌ c p) s =
    rw (cons-append c p s) (ground (arith, after_prefix-append p s))

no_last_slash : (s : String) → has_any is_uri_delimiter s ≡ false → without_last_slash s ≡ s
unfolding has_any is_uri_delimiter without_last_slash
no_last_slash NativeString.[] h = refl
no_last_slash (NativeString.◌∷◌ c s) h = ground (arith, no_last_slash s)

checked_of :
    (s : String)
    → is_empty s ≡ false
    → has_any is_uri_delimiter s ≡ false
    → checked_attachment_id s ≡ some s
unfolding checked_attachment_id
checked_of s named plain = rw (named, plain) refl

checked_inv :
    (empty any : Bool) (s id : String)
    → is_empty s ≡ empty
    → has_any is_uri_delimiter s ≡ any
    → (if empty || any then none else some s) ≡ some id
    → (is_empty id ≡ false) × (has_any is_uri_delimiter id ≡ false)
checked_inv false false s id e a h =
    let same = some_injective h in
    (ap (λ t. is_empty t) (sym same) ∙ e, ap (has_any is_uri_delimiter) (sym same) ∙ a)
checked_inv true any s id e a h = cc
checked_inv false true s id e a h = cc

parsed_inv :
    (o : Option String) (id : String)
    → parsed_after o ≡ some id
    → (is_empty id ≡ false) × (has_any is_uri_delimiter id ≡ false)
unfolding parsed_after checked_attachment_id
parsed_inv none id h = cc
parsed_inv (some rest) id h =
    let s = without_last_slash rest in
    checked_inv (is_empty s) (has_any is_uri_delimiter s) s id refl refl h

-- The URI of an attachment is parsed to its id, where the id is not empty and has no slash, question
-- mark or hash; and only such ids are ever parsed from a URI.
pub attachment_uri_round_trip :
    ((id : String)
      → is_empty id ≡ false
      → has_any is_uri_delimiter id ≡ false
      → parse_attachment_uri (make_attachment_uri id) ≡ some id)
    × ((uri id : String)
        → parse_attachment_uri uri ≡ some id
        → (is_empty id ≡ false) × (has_any is_uri_delimiter id ≡ false))
unfolding parse_attachment_uri make_attachment_uri parsed_after
attachment_uri_round_trip = (
  λ id named plain.
      rw (after_prefix-append attachment_uri_scheme id, no_last_slash id plain)
        (checked_of id named plain),
  λ uri id h. parsed_inv (after_prefix attachment_uri_scheme uri) id h,
)
