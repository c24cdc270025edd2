-- ===== src/Packs/Composing.antt =====
-- What the composer makes of resolved items: each item's own text, in order.
use cpp_wiki.Prelude.{
  ℕ, suc, ◌≡◌, refl, sym, ap, ◌∙◌, String, Bool, true, false, Option, none, some, List, [], ◌∷◌,
  map, elem, Distinct, All, not, ◌==◌, eq_iff, eq_refl, arith, length, Bool-cases, inl, inr,
  if◌then◌else◌,
}
use cpp_wiki.Knowledge.{ContextPack, ContextPackItem}
use cpp_wiki.Knowledge.Validation.{is_page}
use cpp_wiki.Documents.{BlockNoteDocumentSnapshot}
use cpp_wiki.Documents.Validator.{Reader}
use cpp_wiki.Packs.{
  ContextPackItemContent, Outcome, value, error, ◌>>=◌, Engine, Pages, find_content, count_included,
  add_found, compose_items, add_guidance, resolve_read, resolve_loaded, resolve_item, resolve_items,
}

-- A paragraph for each text.
unfoldable pub lay_out : {C : Type 0} → Engine C → List String → C → C
lay_out engine [] c = c
lay_out engine (text ∷ texts) c =
    lay_out engine texts (engine.add_static_text text (engine.add_paragraph c))

-- The intent, a paragraph for each text, and the guidance.
unfoldable pub laid_out : {C : Type 0} → Engine C → ContextPack → List String → C
unfolding lay_out
laid_out engine pack texts = add_guidance engine pack.repository_guidance (
    lay_out engine texts (engine.add_static_text pack.task_intent (engine.new_composition pack.id)))

unfoldable pub included_ids : List ContextPackItem → List String
included_ids [] = []
included_ids (item ∷ items) =
    if item.included then item.id ∷ included_ids items else included_ids items

abbrev pub texts_of : List ContextPackItemContent → List String
texts_of contents = map (λ (c : ContextPackItemContent). c.text) contents

abbrev pub ids_of : List ContextPackItemContent → List String
ids_of contents = map (λ (c : ContextPackItemContent). c.item_id) contents

pub bind_value {ℓ κ} :
    {A : Type ℓ} {B : Type κ} {m : Outcome A} {f : A → Outcome B} {b : B}
    → (m >>= f) ≡ value b
    → (a : A) × (m ≡ value a) × (f a ≡ value b)
bind_value {m = value a} h = (a, refl, h)
bind_value {m = error e} h = cc

pub value_injective {ℓ} : {A : Type ℓ} {a b : A} → value a ≡ value b → a ≡ b
value_injective {A = A} {a} e = ap (λ (o : Outcome A). elim o [ value x ↦ x | error m ↦ a ]) e

if_true {ℓ} : {A : Type ℓ} (x y : A) {b : Bool} → b ≡ true → (if b then x else y) ≡ x
if_true x y {b = true} e = refl
if_true x y {b = false} e = cc

if_false {ℓ} : {A : Type ℓ} (x y : A) {b : Bool} → b ≡ false → (if b then x else y) ≡ y
if_false x y {b = false} e = refl
if_false x y {b = true} e = cc

pub if_not-true {ℓ} : {A : Type ℓ} (x y : A) {b : Bool} → b ≡ true → (if not b then x else y) ≡ y
if_not-true x y {b = true} e = refl
if_not-true x y {b = false} e = cc

pub if_not-false {ℓ} : {A : Type ℓ} (x y : A) {b : Bool} → b ≡ false → (if not b then x else y) ≡ x
if_not-false x y {b = false} e = refl
if_not-false x y {b = true} e = cc

module _ {G : Type 0} (reader : Reader G) (pages : Pages G) where
  read_id :
      (item : ContextPackItem) (o : Option (BlockNoteDocumentSnapshot G))
      (c : ContextPackItemContent)
      → resolve_read reader pages item o ≡ value c
      → c.item_id ≡ item.id
  unfolding resolve_read
  read_id item none c h = cc
  read_id item (some s) c h =
      sym (ap (λ (c : ContextPackItemContent). c.item_id) (value_injective h))

  loaded_id :
      (item : ContextPackItem) (o : Option String) (c : ContextPackItemContent)
      → resolve_loaded reader pages item o ≡ value c
      → c.item_id ≡ item.id
  unfolding resolve_loaded
  loaded_id item none c h = cc
  loaded_id item (some json) c h = read_id item (pages.read_snapshot json) c h

  resolved_id :
      (item : ContextPackItem) (c : ContextPackItemContent)
      → resolve_item reader pages item ≡ value c
      → c.item_id ≡ item.id
  unfolding resolve_item
  resolved_id item c h = elim (Bool-cases (is_page item.artifact_kind)) [
    | inr e ↦ cc (sym (if_not-false _ _ e) ∙ h)
    | inl e ↦ loaded_id item (pages.load_document item.artifact_id) c (sym (if_not-true _ _ e) ∙ h)
  ]

  -- Contents are in the items' order, one for each included item.
  pub resolved :
      (items : List ContextPackItem) (contents : List ContextPackItemContent)
      → resolve_items reader pages items ≡ value contents
      → (ids_of contents ≡ included_ids items) × (length contents ≡ count_included items)
  unfolding resolve_items included_ids count_included
  resolved [] contents h = rw (sym (value_injective h)) (refl, refl)
  resolved (item ∷ items) contents h = elim (Bool-cases (item.included)) [
    | inr e ↦
        let (ids, count) = resolved items contents (sym (if_not-false _ _ e) ∙ h) in
        (ids ∙ sym (if_false _ _ e), count ∙ sym (if_false _ _ e))
    | inl e ↦
        let (c, hc, h₁) = bind_value (sym (if_not-true _ _ e) ∙ h) in
        let (cs, hs, h₂) = bind_value h₁ in
        let (ids, count) = resolved items cs hs in
        let same = value_injective h₂ in
        (
          sym (ap ids_of same)
              ∙ ap (λ id. id ∷ ids_of cs) (resolved_id item c hc)
              ∙ ap (λ ids. item.id ∷ ids) ids
              ∙ sym (if_true _ _ e),
          sym (ap length same) ∙ ap (λ (n : ℕ). suc n) count ∙ sym (if_true _ _ e),
        )
  ]

module _ {C : Type 0} (engine : Engine C) where
  -- Items whose contents are found among `all` under the items' ids.
  pub composed :
      (items : List ContextPackItem) (rest all : List ContextPackItemContent) (c : C)
      → ids_of rest ≡ included_ids items
      → All (λ (x : ContextPackItemContent). find_content all x.item_id ≡ some x) rest
      → compose_items engine items all c ≡ value (lay_out engine (texts_of rest) c)
  unfolding compose_items included_ids lay_out add_found
  composed [] [] all c e found = refl
  composed [] (x ∷ rest) all c e found = cc
  composed (item ∷ items) rest all c e found = elim (Bool-cases (item.included)) [
    | inr skip ↦ if_not-false _ _ skip ∙ composed items rest all c (e ∙ if_false _ _ skip) found
    | inl take ↦
        if_not-true _ _ take
        ∙ taken (λ rest c. composed items rest all c) rest (e ∙ if_true _ _ take) found
  ]
    where
      taken :
          ((rest : List ContextPackItemContent) (c : C)
            → ids_of rest ≡ included_ids items
            → All (λ (x : ContextPackItemContent). find_content all x.item_id ≡ some x) rest
            → compose_items engine items all c ≡ value (lay_out engine (texts_of rest) c))
          → (rest : List ContextPackItemContent) → ids_of rest ≡ item.id ∷ included_ids items
          → All (λ (x : ContextPackItemContent). find_content all x.item_id ≡ some x) rest
          → (add_found engine item.id (find_content all item.id) c
              >>= compose_items engine items all)
            ≡ value (lay_out engine (texts_of rest) c)
      taken go [] e found = cc
      taken go (x ∷ rest) e found =
          let same : x.item_id ≡ item.id = cc in
          let tails : ids_of rest ≡ included_ids items = cc in
          let here : find_content all item.id ≡ some x =
            ap (find_content all) (sym same) ∙ found.0 in
          ap (λ o. add_found engine item.id o c >>= compose_items engine items all) here
          ∙ go rest (engine.add_static_text x.text (engine.add_paragraph c)) tails found.1

-- Contents that are all found in a list are found behind another with a different id.
found_behind :
    (x : ContextPackItemContent) (all contents : List ContextPackItemContent)
    → elem x.item_id (ids_of contents) ≡ false
    → All (λ (y : ContextPackItemContent). find_content all y.item_id ≡ some y) contents
    → All (λ (y : ContextPackItemContent). find_content (x ∷ all) y.item_id ≡ some y) contents
unfolding find_content
found_behind x all [] new found = tt
found_behind x all (y ∷ contents) new found =
    let differ : (x.item_id == y.item_id) ≡ false =
      ground (arith, eq_iff x.item_id y.item_id, eq_iff y.item_id x.item_id, new) in
    (if_false _ _ differ ∙ found.0, found_behind x all contents (ground (arith, new)) found.1)

pub All-found :
    (contents : List ContextPackItemContent)
    → Distinct (ids_of contents)
    → All (λ (x : ContextPackItemContent). find_content contents x.item_id ≡ some x) contents
unfolding find_content
All-found [] distinct = tt
All-found (x ∷ contents) distinct = (
  if_true _ _ (eq_refl x.item_id),
  found_behind x contents contents distinct.0 (All-found contents distinct.1),
)
