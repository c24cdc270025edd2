-- ===== src/Documents/Validator/Results.antt =====
-- What the validator answers: the document of a valid snapshot, or one error.
use cpp_wiki.Prelude.{
  false, ◌≡◌, ◌≢◌, ◌↔◌, ◌⊎◌, inl, inr, refl, sym, ap, subst, ◌∙◌, Bool-cases, Option-cases, String,
  true, Option, none, some, List, [], arith, eq_iff, ℤ, pos, Distinct, is_empty, value_or, is_some,
  eqb_ℤ,
}
use cpp_wiki.Documents.{
  Blocks, BlockSnapshots, BlockNoteDocumentSnapshot, DocumentKind, wiki_page, task, PageMetadata,
  Document,
}
use cpp_wiki.Documents.Validator.{
  Result, ok, err, Reader, convert_list, ValidationResult, with_blocks, convert_blocks,
  blank_metadata, titled, with_document, convert_identified, convert_versioned, convert_document,
  parse_read, check_json, holds_blocks, parse_and_validate_snapshot,
}
use cpp_wiki.Documents.Validator.Shape.{MirrorsList, blocks_ids}
use cpp_wiki.Documents.Validator.Conversion.{some_injective}
use cpp_wiki.Documents.Validator.Acceptance.{read-MirrorsList, MirrorsList-read}

module _ {G : Type 0} (reader : Reader G) where
  -- A list of snapshots becomes a document exactly when its blocks mirror the snapshots (ids given
  -- and not empty, type names known, heading levels from 1 to 6, with the text, mark and children
  -- of each) and no id stands twice anywhere in the trees; the document has blank metadata.
  pub convert_blocks_iff :
      (s : BlockSnapshots G) (raw : String) (d : Document)
      → ((convert_blocks reader s raw).document ≡ some d) ↔ (
          (d.metadata ≡ blank_metadata)
          × MirrorsList reader s d.blocks
          × Distinct (blocks_ids d.blocks))
  unfolding convert_blocks with_blocks
  convert_blocks_iff s raw d = (
    λ h. read (convert_list reader s []) refl h,
    λ (m, mirrors, distinct). rw (MirrorsList-read reader s d.blocks mirrors distinct) (rw m refl),
  )
    where
      read :
          (r : Result (Blocks × List String))
          → convert_list reader s [] ≡ r
          → (with_blocks reader s raw r).document ≡ some d
          → (d.metadata ≡ blank_metadata)
            × MirrorsList reader s d.blocks
            × Distinct (blocks_ids d.blocks)
      read (err e) e' h = cc
      read (ok (blocks, seen)) e' h =
          let same = some_injective h in
          let (mirrors, distinct) = read-MirrorsList reader s blocks seen e' in
          (
            sym (ap (λ (d : Document). d.metadata) same),
            subst (λ (d : Document). MirrorsList reader s d.blocks) same mirrors,
            subst (λ (d : Document). Distinct (blocks_ids d.blocks)) same distinct,
          )

  -- The last step for a whole document: conversion, then the id and the title.
  convert_with_document_iff :
      (s : BlockNoteDocumentSnapshot G) (id : String) (blocks : BlockSnapshots G) (raw : String)
      (d : Document)
      → ((with_document reader s id (convert_blocks reader blocks raw)).document ≡ some d) ↔ (
          (d.metadata ≡ record blank_metadata { id = id; title = value_or s.title "" })
          × MirrorsList reader blocks d.blocks
          × Distinct (blocks_ids d.blocks))
  unfolding convert_blocks with_blocks with_document titled
  convert_with_document_iff s id blocks raw d = (
    λ h. read (convert_list reader blocks []) refl h,
    λ (m, mirrors, distinct).
        rw (MirrorsList-read reader blocks d.blocks mirrors distinct) (rw m refl),
  )
    where
      read :
          (r : Result (Blocks × List String))
          → convert_list reader blocks [] ≡ r
          → (with_document reader s id (with_blocks reader blocks raw r)).document ≡ some d
          → (d.metadata ≡ record blank_metadata { id = id; title = value_or s.title "" })
            × MirrorsList reader blocks d.blocks
            × Distinct (blocks_ids d.blocks)
      read (err e) e' h = cc
      read (ok (bs, seen)) e' h =
          let same = some_injective h in
          let (mirrors, distinct) = read-MirrorsList reader blocks bs seen e' in
          (
            sym (ap (λ (d : Document). d.metadata) same),
            subst (λ (d : Document). MirrorsList reader blocks d.blocks) same mirrors,
            subst (λ (d : Document). Distinct (blocks_ids d.blocks)) same distinct,
          )

  -- What a snapshot with blocks and an id, the version aside, is accepted for.
  abbrev pub AcceptedAs : BlockNoteDocumentSnapshot G → Document → Type 0
  AcceptedAs s d =
      ((s.id ≡ some d.metadata.id) × (d.metadata.id ≢ ""))
      × (d.metadata ≡ record blank_metadata { id = d.metadata.id; title = value_or s.title "" })
      × ((blocks : BlockSnapshots G) × (s.blocks ≡ some blocks)
          × MirrorsList reader blocks d.blocks
          × Distinct (blocks_ids d.blocks))

  convert_identified_iff :
      (s : BlockNoteDocumentSnapshot G) (raw : String) (id : Option String) (d : Document)
      → s.id ≡ id
      → ((convert_identified reader s raw id).document ≡ some d) ↔ AcceptedAs s d
  unfolding convert_identified
  convert_identified_iff s raw none d e = (λ h. cc, λ h. cc (h.0.0, e))
  convert_identified_iff s raw (some id) d e = elim (Bool-cases (is_empty id)) [
    | inl blank ↦
        rw blank
          (λ h. cc, λ h. absurd (h.0.1 (some_injective (sym (h.0.0) ∙ e) ∙ (eq_iff id "").0 blank)))
    | inr full ↦ rw full (elim (Option-cases s.blocks) [
      | inl e' ↦ rw e' (λ h. cc, λ h. cc (h.2.1))
      | inr (blocks, e') ↦
          let step = convert_with_document_iff s id blocks raw d in
          rw e' (
            λ h.
                let (meta, mirrors, distinct) = step.0 h in
                let same = sym (ap (λ (m : PageMetadata). m.id) meta) in
                (
                  (e ∙ ap some same, λ x. cc ((eq_iff id "").1 (same ∙ x), full)),
                  subst
                      (λ i.
                        d.metadata ≡ record blank_metadata { id = i; title = value_or s.title "" })
                      same meta,
                  (blocks, refl, mirrors, distinct),
                ),
            λ ((given, filled), meta, (blocks', e'', mirrors, distinct)).
                let same = some_injective (sym given ∙ e) in
                step.1 (
                  subst
                      (λ i.
                        d.metadata ≡ record blank_metadata { id = i; title = value_or s.title "" })
                      same meta,
                  subst (λ bs. MirrorsList reader bs d.blocks) (sym (some_injective e'')) mirrors,
                  distinct,
                ),
          )
    ])
  ]

  convert_versioned_iff :
      (s : BlockNoteDocumentSnapshot G) (raw : String) (version : Option ℤ) (d : Document)
      → s.schema_version ≡ version
      → ((convert_versioned reader s raw version).document ≡ some d)
        ↔ ((s.schema_version ≡ some (pos 1)) × AcceptedAs s d)
  unfolding convert_versioned
  convert_versioned_iff s raw none d e = (λ h. cc, λ h. cc (h.0, e))
  convert_versioned_iff s raw (some v) d e =
      let step = convert_identified_iff s raw s.id d refl in
      elim (Bool-cases (eqb_ℤ v (pos 1))) [
        | inl one ↦
            let same : v ≡ pos 1 = ground arith in
            rw one (λ h. (e ∙ ap some same, step.0 h), λ h. step.1 h.1)
        | inr other ↦
            rw other
              (λ h. cc, λ h. let same : v ≡ pos 1 = some_injective (sym e ∙ h.0) in ground arith)
      ]

  -- A snapshot of a whole document becomes a document exactly when it has schema version 1, an id
  -- that is not empty, and blocks, which the document's blocks mirror (ids given and not empty, type
  -- names known, heading levels from 1 to 6, with the text, mark and children of each) with no id
  -- twice anywhere in the trees; the document has the id and the title of the snapshot ("" without
  -- one), and otherwise blank metadata.
  pub convert_document_iff :
      (s : BlockNoteDocumentSnapshot G) (raw : String) (d : Document)
      → ((convert_document reader s raw).document ≡ some d)
        ↔ ((s.schema_version ≡ some (pos 1)) × AcceptedAs s d)
  unfolding convert_document
  convert_document_iff s raw d = convert_versioned_iff s raw s.schema_version d refl

  -- A document, the snapshot it came from and the payload, or an error and none of the three.
  abbrev pub OneOutcome : String → ValidationResult G → Type 0
  OneOutcome payload r =
      ((r.error ≡ none)
        × (is_some r.document ≡ true)
        × (is_some r.snapshot ≡ true)
        × (r.raw_snapshot_json ≡ payload))
      ⊎ ((is_some r.error ≡ true)
          × (r.document ≡ none)
          × (r.snapshot ≡ none)
          × (r.raw_snapshot_json ≡ ""))

  convert_blocks_outcome :
      (s : BlockSnapshots G) (raw : String) → OneOutcome raw (convert_blocks reader s raw)
  unfolding convert_blocks with_blocks
  convert_blocks_outcome s raw = of_result (convert_list reader s [])
    where
      of_result : (r : Result (Blocks × List String)) → OneOutcome raw (with_blocks reader s raw r)
      of_result (err e) = inr (refl, refl, refl, refl)
      of_result (ok r) = inl (refl, refl, refl, refl)

  convert_identified_outcome :
      (s : BlockNoteDocumentSnapshot G) (raw : String) (id : Option String)
      → OneOutcome raw (convert_identified reader s raw id)
  unfolding convert_identified convert_blocks with_blocks with_document titled
  convert_identified_outcome s raw none = inr (refl, refl, refl, refl)
  convert_identified_outcome s raw (some id) = elim (Bool-cases (is_empty id)) [
    | inl blank ↦ rw blank (inr (refl, refl, refl, refl))
    | inr full ↦ rw full (elim (Option-cases s.blocks) [
      | inl e ↦ rw e (inr (refl, refl, refl, refl))
      | inr (blocks, e) ↦ rw e (of_result blocks (convert_list reader blocks []))
    ])
  ]
    where
      of_result :
          (blocks : BlockSnapshots G) (r : Result (Blocks × List String))
          → OneOutcome raw (with_document reader s id (with_blocks reader blocks raw r))
      of_result blocks (err e) = inr (refl, refl, refl, refl)
      of_result blocks (ok r) = inl (refl, refl, refl, refl)

  convert_versioned_outcome :
      (s : BlockNoteDocumentSnapshot G) (raw : String) (version : Option ℤ)
      → OneOutcome raw (convert_versioned reader s raw version)
  unfolding convert_versioned
  convert_versioned_outcome s raw none = inr (refl, refl, refl, refl)
  convert_versioned_outcome s raw (some v) = elim (Bool-cases (eqb_ℤ v (pos 1))) [
    | inl one ↦ rw one (convert_identified_outcome s raw s.id)
    | inr other ↦ rw other (inr (refl, refl, refl, refl))
  ]

  parsed_outcome :
      (payload : String) (whole : Option (BlockNoteDocumentSnapshot G))
      (list : Option (BlockSnapshots G))
      → OneOutcome payload (parse_read reader payload whole list)
  unfolding parse_read convert_document
  parsed_outcome payload (some s) list = convert_versioned_outcome s payload s.schema_version
  parsed_outcome payload none (some s) = convert_blocks_outcome s payload
  parsed_outcome payload none none = elim (Bool-cases (reader.could_not_parse payload)) [
    | inl e ↦ rw e (inr (refl, refl, refl, refl))
    | inr e ↦ rw e (inr (refl, refl, refl, refl))
  ]

  other_kind :
      (payload : String)
      → let r = check_json reader payload in
        (r.document ≡ none)
        × ((r.error ≡ none)
            ↔ ((reader.is_null payload ≡ false) ⊎ (is_empty (reader.trimmed payload) ≡ true)))
  unfolding check_json
  other_kind payload = elim (Bool-cases (reader.is_null payload)) [
    | inl e ↦ elim (Bool-cases (is_empty (reader.trimmed payload))) [
      | inl k ↦ rw (e, k) (refl, (λ h. inr refl, λ h. refl))
      | inr k ↦ rw (e, k) (refl, (λ h. cc, λ h. elim h [ inl x ↦ cc | inr x ↦ cc ]))
    ]
    | inr e ↦ rw e (refl, (λ h. inl refl, λ h. refl))
  ]

  -- For a page or a task the answer is a document with its snapshot and the payload, or an error and
  -- none of these. For any other kind there is no document, and an error exactly when the payload
  -- is neither blank nor JSON.
  pub parse_and_validate_snapshot_outcome :
      (payload : String) (kind : DocumentKind)
      → let r = parse_and_validate_snapshot reader payload kind in
        (((kind ≡ wiki_page) ⊎ (kind ≡ task)) → OneOutcome payload r)
        × ((kind ≢ wiki_page)
            → (kind ≢ task)
            → (r.document ≡ none)
              × ((r.error ≡ none) ↔ (
                  (reader.is_null payload ≡ false) ⊎ (is_empty (reader.trimmed payload) ≡ true))))
  unfolding parse_and_validate_snapshot holds_blocks
  parse_and_validate_snapshot_outcome payload wiki_page = (
    λ h. parsed_outcome payload (reader.read_document payload) (reader.read_blocks payload),
    λ h. absurd (h refl),
  )
  parse_and_validate_snapshot_outcome payload task = (
    λ h. parsed_outcome payload (reader.read_document payload) (reader.read_blocks payload),
    λ h h'. absurd (h' refl),
  )
  parse_and_validate_snapshot_outcome payload _ =
      (λ h. elim h [ inl e ↦ cc | inr e ↦ cc ], λ h h'. other_kind payload)
