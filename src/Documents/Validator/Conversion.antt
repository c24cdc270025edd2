-- ===== src/Documents/Validator/Conversion.antt =====
-- What each check of a block accepts.
use cpp_wiki.Prelude.{
  ◌≡◌, ◌≢◌, ◌↔◌, refl, sym, ap, ◌∙◌, String, false, Option, none, some, List, [], ◌∷◌, arith, ℤ,
  pos, ◌≤ℤ◌, value_or, elem, eq_iff, All,
}
use cpp_wiki.Documents.{BlockType, paragraph, heading, HeadingProps, BlockNoteBlockProps}
use cpp_wiki.Documents.Validator.{
  Result, ok, err, ◌>>=◌, block_types, find_type, parse_block_type, check_id, check_parsed,
  check_type, check_level, check_heading, props_level,
}
use cpp_wiki.Documents.Validator.Shape.{type_name, HeadingMirrors}

value_of {ℓ} : {A : Type ℓ} → A → Result A → A
value_of d (ok a) = a
value_of d (err e) = d

pub ok_injective {ℓ} : {A : Type ℓ} {a b : A} → ok a ≡ ok b → a ≡ b
unfolding value_of
ok_injective {a = a} e = ap (value_of a) e

bind_iff {ℓ κ} :
    {A : Type ℓ} {B : Type κ} (m : Result A) (f : A → Result B) (b : B)
    → ((m >>= f) ≡ ok b) ↔ ((a : A) × (m ≡ ok a) × (f a ≡ ok b))
bind_iff (ok a) f b = (λ h. (a, refl, h), λ (a', e, h). ap f (ok_injective e) ∙ h)
bind_iff (err e) f b = (λ h. cc, λ (a', e', h). cc)

pub check_id_iff :
    (id : Option String) (seen : List String) (id' : String)
    → (check_id id seen ≡ ok id') ↔ (((id ≡ some id') × (id' ≢ "")) × (elem id' seen ≡ false))
unfolding check_id
check_id_iff none seen id' = (λ h. cc, λ h. cc (h.0.0))
check_id_iff (some id) seen id' = (
  λ h. ground (arith, eq_iff id "", eq_iff id' ""),
  λ h. ground (arith, eq_iff id "", eq_iff id' ""),
)

-- A table of names from which each entry's type is found under its own name only.
find_type_sound :
    (type : String) (t : BlockType) (table : List (String × BlockType))
    → All (λ (entry : String × BlockType). entry.0 ≡ type_name entry.1) table
    → find_type type table ≡ some t
    → type ≡ type_name t
unfolding find_type
find_type_sound type t [] names h = cc
find_type_sound type t ((name, u) ∷ table) names h =
    ground (arith, eq_iff type name, find_type_sound type t table)

own_names : All (λ (entry : String × BlockType). entry.0 ≡ type_name entry.1) block_types
unfolding type_name
own_names = search

parse_own_name : (t : BlockType) → parse_block_type (type_name t) ≡ some t
unfolding parse_block_type type_name
parse_own_name paragraph = refl
parse_own_name _ = refl

parsed_ok :
    (type : String) (parsed : Option BlockType) (t : BlockType)
    → check_parsed type parsed ≡ ok t
    → parsed ≡ some t
unfolding check_parsed
parsed_ok type none t h = cc
parsed_ok type (some u) t h = ap some (ok_injective h)

pub some_injective {ℓ} : {A : Type ℓ} {a b : A} → some a ≡ some b → a ≡ b
some_injective {a = a} e = ap (λ o. value_or o a) e

pub check_level_iff :
    (given : Option ℤ) (level : Option HeadingProps)
    → (check_level given ≡ ok level) ↔ (
        (l : ℤ) × (given ≡ some l)
        × (pos 1 ≤ℤ l)
        × (l ≤ℤ pos 6)
        × (level ≡ some (record { level = l })))
unfolding check_level
check_level_iff none level = (λ h. cc, λ h. cc (h.1))
check_level_iff (some l) level = (
  λ h. (l, refl, ground arith, ground arith, ground arith),
  λ (l', e, low, high, e'). let same = some_injective e in ground arith,
)

pub check_type_iff :
    (type : Option String) (t : BlockType) → (check_type type ≡ ok t) ↔ (type ≡ some (type_name t))
unfolding check_type check_parsed
check_type_iff none t = (λ h. cc, λ h. cc)
check_type_iff (some type) t = (
  λ h. ap some (
      find_type_sound type t block_types own_names
        (unfold parse_block_type in parsed_ok type (parse_block_type type) t h)),
  λ h. rw (some_injective h) (rw (parse_own_name t) refl),
)

pub check_heading_iff :
    (t : BlockType) (props : Option BlockNoteBlockProps) (level : Option HeadingProps)
    → (check_heading t props ≡ ok level) ↔ HeadingMirrors t props level
unfolding check_heading
check_heading_iff heading props level = check_level_iff (props_level props) level
check_heading_iff _ props level = (λ h. sym (ok_injective h), λ h. ap ok (sym h))
