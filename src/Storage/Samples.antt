-- ===== src/Storage/Samples.antt =====
-- A way to write the records of files as texts and to read them back, for the concrete inputs of the
-- tests. (The program uses JSON.) A record is the list of its fields, each a text whose characters are
-- marked, with a dot at the end.
use Prim.Native.Char.{Char, char, code}
use Prim.Native.String as NativeString
use cpp_wiki.Prelude.{
  ◌≡◌, ◌⊎◌, inl, inr, refl, ap, ℕ, zero, suc, ℤ, pos, negsuc, String, Bool, true, false, Option,
  none, some, List, [], ◌∷◌, eqb, if◌then◌else◌, length,
}
use cpp_wiki.Storage.Json.{Json, Codec, ReadsBack}
use cpp_wiki.Storage.Dtos.{FilePropertyDefinitionDto}
use cpp_wiki.Storage.Documents.{FileAttachmentDto, FileConflictRecordDto, FileDocumentRecordDto}

mark : Char
mark = char 120 tt

dot : Char
dot = char 46 tt

marked : String → String → String
unfolding mark dot
marked NativeString.[] rest = NativeString.◌∷◌ dot rest
marked (NativeString.◌∷◌ c s) rest = NativeString.◌∷◌ mark (NativeString.◌∷◌ c (marked s rest))

put_back : Char → Option (String × String) → Option (String × String)
put_back c none = none
put_back c (some (s, rest)) = some (NativeString.◌∷◌ c s, rest)

-- `after_mark` says whether the next character belongs to the text.
unmarked : Bool → String → Option (String × String)
unfolding put_back
unmarked after_mark NativeString.[] = none
unmarked true (NativeString.◌∷◌ c s) = put_back c (unmarked false s)
unmarked false (NativeString.◌∷◌ c s) =
    let more = unmarked true s in if eqb (code c) 46 then some ("", s) else more

unmarked_back : (s rest : String) → unmarked false (marked s rest) ≡ some (s, rest)
unfolding unmarked marked put_back mark dot
unmarked_back NativeString.[] rest = refl
unmarked_back (NativeString.◌∷◌ c s) rest = rw (unmarked_back s rest) refl

all_marked : List String → String
unfolding marked
all_marked [] = ""
all_marked (s ∷ ss) = marked s (all_marked ss)

before : Option (String × String) → (String → Option (List String)) → Option (List String)
before none next = none
before (some (s, rest)) next = elim (next rest) [ none ↦ none | some ss ↦ some (s ∷ ss) ]

all_unmarked : ℕ → String → Option (List String)
unfolding before unmarked
all_unmarked zero s = some []
all_unmarked (suc n) s = before (unmarked false s) (λ rest. all_unmarked n rest)

all_back : (ss : List String) → all_unmarked (length ss) (all_marked ss) ≡ some ss
unfolding all_unmarked all_marked before
all_back [] = refl
all_back (s ∷ ss) = rw (unmarked_back s (all_marked ss), all_back ss) refl

unary : ℕ → String
unfolding mark
unary zero = ""
unary (suc n) = NativeString.◌∷◌ mark (unary n)

count_of : String → ℕ
count_of NativeString.[] = 0
count_of (NativeString.◌∷◌ c s) = suc (count_of s)

unary_back : (n : ℕ) → count_of (unary n) ≡ n
unfolding count_of unary
unary_back zero = refl
unary_back (suc n) = ap suc (unary_back n)

int_text : ℤ → String
unfolding unary mark dot
int_text (pos n) = NativeString.◌∷◌ mark (unary n)
int_text (negsuc n) = NativeString.◌∷◌ dot (unary n)

text_int : String → ℤ
unfolding count_of
text_int NativeString.[] = pos 0
text_int (NativeString.◌∷◌ c s) = if eqb (code c) 120 then pos (count_of s) else negsuc (count_of s)

int_back : (z : ℤ) → text_int (int_text z) ≡ z
unfolding text_int int_text mark dot
int_back (pos n) = ap pos (unary_back n)
int_back (negsuc n) = ap negsuc (unary_back n)

option_text : Option String → String
unfolding mark
option_text none = ""
option_text (some s) = NativeString.◌∷◌ mark s

text_option : String → Option String
text_option NativeString.[] = none
text_option (NativeString.◌∷◌ c s) = some s

option_back : (o : Option String) → text_option (option_text o) ≡ o
unfolding text_option option_text
option_back none = refl
option_back (some s) = refl

list_text : List String → String
unfolding marked unary all_marked
list_text ss = marked (unary (length ss)) (all_marked ss)

or_empty : Option (List String) → List String
or_empty none = []
or_empty (some ss) = ss

counted : Option (String × String) → List String
unfolding or_empty all_unmarked count_of
counted none = []
counted (some (n, rest)) = or_empty (all_unmarked (count_of n) rest)

text_list : String → List String
unfolding counted unmarked
text_list s = counted (unmarked false s)

list_back : (ss : List String) → text_list (list_text ss) ≡ ss
unfolding text_list list_text counted or_empty
list_back ss =
    rw (unmarked_back (unary (length ss)) (all_marked ss), unary_back (length ss), all_back ss) refl

read_fields : {D : Type 0} → (List String → String ⊎ D) → Option (List String) → String ⊎ D
read_fields of none = inl "text"
read_fields of (some fs) = of fs

codec : {D : Type 0} → ℕ → (D → List String) → (List String → String ⊎ D) → Codec D
unfolding read_fields all_unmarked all_marked
codec n fields of = record {
  write = λ d. all_marked (fields d);
  read = λ s. read_fields of (all_unmarked n s);
}

codec_back :
    {D : Type 0} (n : ℕ) (fields : D → List String) (of : List String → String ⊎ D) (d : D)
    → of (fields d) ≡ inr d
    → length (fields d) ≡ n
    → read_fields of (all_unmarked n (all_marked (fields d))) ≡ inr d
unfolding read_fields
codec_back n fields of d own e = rw (← e, all_back (fields d)) own

no_codec : {D : Type 0} → Codec D
no_codec = record { write = λ d. ""; read = λ s. inl "not used" }

attachment_fields : FileAttachmentDto → List String
unfolding int_text option_text unary list_text
attachment_fields d =
    d.id
    ∷ d.workspace_id
    ∷ d.filename
    ∷ d.mime_type
    ∷ unary d.size_bytes
    ∷ d.sha256
    ∷ d.created_at
    ∷ d.created_by
    ∷ []

attachment_of : List String → String ⊎ FileAttachmentDto
unfolding text_int text_option count_of text_list
attachment_of (v0 ∷ v1 ∷ v2 ∷ v3 ∷ v4 ∷ v5 ∷ v6 ∷ v7 ∷ []) = inr (record {
  id = v0;
  workspace_id = v1;
  filename = v2;
  mime_type = v3;
  size_bytes = count_of v4;
  sha256 = v5;
  created_at = v6;
  created_by = v7;
})
attachment_of _ = inl "fields"

unfoldable pub attachment_codec : Codec FileAttachmentDto
unfolding attachment_fields attachment_of codec
attachment_codec = codec 8 attachment_fields attachment_of

attachment_own : (d : FileAttachmentDto) → attachment_of (attachment_fields d) ≡ inr d
unfolding attachment_fields attachment_of
attachment_own d = rw (unary_back d.size_bytes) refl

pub attachment_codec-ReadsBack : ReadsBack attachment_codec
unfolding attachment_codec attachment_fields attachment_of codec
attachment_codec-ReadsBack d =
    codec_back 8 attachment_fields attachment_of d (attachment_own d) refl

conflict_fields : FileConflictRecordDto → List String
unfolding int_text option_text unary list_text
conflict_fields d =
    d.id
    ∷ d.document_id
    ∷ d.workspace_id
    ∷ int_text d.base_version
    ∷ d.local_snapshot
    ∷ d.remote_snapshot
    ∷ d.local_updated_by
    ∷ d.remote_updated_by
    ∷ d.detected_at
    ∷ d.resolution_state
    ∷ []

conflict_of : List String → String ⊎ FileConflictRecordDto
unfolding text_int text_option count_of text_list
conflict_of (v0 ∷ v1 ∷ v2 ∷ v3 ∷ v4 ∷ v5 ∷ v6 ∷ v7 ∷ v8 ∷ v9 ∷ []) = inr (record {
  id = v0;
  document_id = v1;
  workspace_id = v2;
  base_version = text_int v3;
  local_snapshot = v4;
  remote_snapshot = v5;
  local_updated_by = v6;
  remote_updated_by = v7;
  detected_at = v8;
  resolution_state = v9;
})
conflict_of _ = inl "fields"

unfoldable pub conflict_codec : Codec FileConflictRecordDto
unfolding conflict_fields conflict_of codec
conflict_codec = codec 10 conflict_fields conflict_of

conflict_own : (d : FileConflictRecordDto) → conflict_of (conflict_fields d) ≡ inr d
unfolding conflict_fields conflict_of
conflict_own d = rw (int_back d.base_version) refl

pub conflict_codec-ReadsBack : ReadsBack conflict_codec
unfolding conflict_codec conflict_fields conflict_of codec
conflict_codec-ReadsBack d = codec_back 10 conflict_fields conflict_of d (conflict_own d) refl

document_fields : FileDocumentRecordDto → List String
unfolding int_text option_text unary list_text
document_fields d =
    d.id
    ∷ int_text d.schema_version
    ∷ option_text d.kind
    ∷ d.title
    ∷ d.workspace_id
    ∷ option_text d.parent_id
    ∷ int_text d.sort_order
    ∷ d.created_at
    ∷ d.updated_at
    ∷ d.created_by
    ∷ d.updated_by
    ∷ int_text d.content_version
    ∷ option_text d.trashed_at
    ∷ d.raw_snapshot_json
    ∷ []

document_of : List String → String ⊎ FileDocumentRecordDto
unfolding text_int text_option count_of text_list
document_of (v0 ∷ v1 ∷ v2 ∷ v3 ∷ v4 ∷ v5 ∷ v6 ∷ v7 ∷ v8 ∷ v9 ∷ v10 ∷ v11 ∷ v12 ∷ v13 ∷ []) =
    inr (record {
      id = v0;
      schema_version = text_int v1;
      kind = text_option v2;
      title = v3;
      workspace_id = v4;
      parent_id = text_option v5;
      sort_order = text_int v6;
      created_at = v7;
      updated_at = v8;
      created_by = v9;
      updated_by = v10;
      content_version = text_int v11;
      trashed_at = text_option v12;
      raw_snapshot_json = v13;
    })
document_of _ = inl "fields"

unfoldable pub document_codec : Codec FileDocumentRecordDto
unfolding document_fields document_of codec
document_codec = codec 14 document_fields document_of

document_own : (d : FileDocumentRecordDto) → document_of (document_fields d) ≡ inr d
unfolding document_fields document_of
document_own d =
    rw
      (
        int_back d.schema_version,
        option_back d.kind,
        option_back d.parent_id,
        int_back d.sort_order,
        int_back d.content_version,
        option_back d.trashed_at,
      )
      refl

pub document_codec-ReadsBack : ReadsBack document_codec
unfolding document_codec document_fields document_of codec
document_codec-ReadsBack d = codec_back 14 document_fields document_of d (document_own d) refl

definition_fields : FilePropertyDefinitionDto → List String
unfolding int_text option_text unary list_text
definition_fields d =
    d.id
    ∷ d.workspace_id
    ∷ d.name
    ∷ option_text d.group_name
    ∷ int_text d.value_kind
    ∷ list_text d.options
    ∷ int_text d.state
    ∷ d.audit.created_at
    ∷ d.audit.updated_at
    ∷ d.audit.created_by
    ∷ d.audit.updated_by
    ∷ []

definition_of : List String → String ⊎ FilePropertyDefinitionDto
unfolding text_int text_option count_of text_list
definition_of (v0 ∷ v1 ∷ v2 ∷ v3 ∷ v4 ∷ v5 ∷ v6 ∷ v7 ∷ v8 ∷ v9 ∷ v10 ∷ []) = inr (record {
  id = v0;
  workspace_id = v1;
  name = v2;
  group_name = text_option v3;
  value_kind = text_int v4;
  options = text_list v5;
  state = text_int v6;
  audit = record { created_at = v7; updated_at = v8; created_by = v9; updated_by = v10 };
})
definition_of _ = inl "fields"

unfoldable pub definition_codec : Codec FilePropertyDefinitionDto
unfolding definition_fields definition_of codec
definition_codec = codec 11 definition_fields definition_of

definition_own : (d : FilePropertyDefinitionDto) → definition_of (definition_fields d) ≡ inr d
unfolding definition_fields definition_of
definition_own d =
    rw (option_back d.group_name, int_back d.value_kind, list_back d.options, int_back d.state) refl

pub definition_codec-ReadsBack : ReadsBack definition_codec
unfolding definition_codec definition_fields definition_of codec
definition_codec-ReadsBack d =
    codec_back 11 definition_fields definition_of d (definition_own d) refl

unfoldable pub sample_json : Json
unfolding attachment_codec conflict_codec document_codec definition_codec no_codec
sample_json = record {
  property_definition = definition_codec;
  page_property_value = no_codec;
  relation_type = no_codec;
  page_relation = no_codec;
  repository_artifact = no_codec;
  agent_run = no_codec;
  result_reference = no_codec;
  context_pack = no_codec;
  attachment = attachment_codec;
  conflict = conflict_codec;
  revision = no_codec;
  document = document_codec;
}

pub document_law : ReadsBack sample_json.document
unfolding sample_json
document_law = document_codec-ReadsBack

pub conflict_law : ReadsBack sample_json.conflict
unfolding sample_json
conflict_law = conflict_codec-ReadsBack

pub attachment_law : ReadsBack sample_json.attachment
unfolding sample_json
attachment_law = attachment_codec-ReadsBack

pub definition_law : ReadsBack sample_json.property_definition
unfolding sample_json
definition_law = definition_codec-ReadsBack
