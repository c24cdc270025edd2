-- ===== src/Packs/Rendering.antt =====
-- Composition and rendering of a pack whose items have been resolved.
use cpp_wiki.Prelude.{
  ◌≡◌, ◌↔◌, refl, sym, ap, subst, ◌∙◌, String, true, Option, none, some, List, Distinct, eqb, arith,
  length, Bool-cases, inl, inr, ◌+++◌,
}
use cpp_wiki.Knowledge.{ContextPack}
use cpp_wiki.Knowledge.RunValidation.{validate_context_pack, is_approved}
use cpp_wiki.Documents.Validator.{Reader}
use cpp_wiki.Packs.{
  ContextPackItemContent, value, ◌>>=◌, Engine, Pages, count_included, add_guidance,
  compose_context_pack, resolve_items, ContextPackRenderResult, render_resolved, render_validated,
  render_approved_context_pack,
}
use cpp_wiki.Packs.Composing.{
  laid_out, included_ids, texts_of, bind_value, value_injective, if_not-true, if_not-false,
  resolved, composed, All-found,
}

module _ {G C : Type 0} (reader : Reader G) (pages : Pages G) (engine : Engine C) where
  -- When the included items of a pack have distinct ids and are resolved, the pack is composed: its
  -- intent, a paragraph for each included item with that item's own text, in the items' order, and
  -- its guidance; and that composition is published.
  pub compose_resolved :
      (pack : ContextPack) (contents : List ContextPackItemContent)
      → resolve_items reader pages pack.items ≡ value contents
      → Distinct (included_ids pack.items)
      → compose_context_pack engine pack contents
        ≡ engine.publish (laid_out engine pack (texts_of contents))
  unfolding compose_context_pack laid_out
  compose_resolved pack contents h distinct =
      let (ids, count) = resolved reader pages pack.items contents h in
      let found = All-found contents (subst Distinct (sym ids) distinct) in
      let start = engine.add_static_text pack.task_intent (engine.new_composition pack.id) in
      let matching : eqb (length contents) (count_included pack.items) ≡ true =
        ground (arith, count) in
      if_not-true _ _ matching
      ∙ ap (λ m. m >>= (λ c. engine.publish (add_guidance engine pack.repository_guidance c)))
          (composed engine pack.items contents contents start ids found)

  -- What rendering gives from the resolved contents.
  abbrev pub RenderedFrom :
      ContextPack → List ContextPackItemContent → ContextPackRenderResult → Type 0
  RenderedFrom pack contents r =
      (c : C) × (engine.publish (laid_out engine pack (texts_of contents)) ≡ value c)
      × (engine.render c ≡ value r.text)
      × (r.context_pack_ref ≡ pack.id +++ "@" +++ engine.version_text)

  render_resolved_iff :
      (pack : ContextPack) (contents : List ContextPackItemContent) (r : ContextPackRenderResult)
      → resolve_items reader pages pack.items ≡ value contents
      → Distinct (included_ids pack.items)
      → (render_resolved reader pages engine pack contents ≡ value r) ↔ RenderedFrom pack contents r
  unfolding render_resolved
  render_resolved_iff pack contents r h distinct =
      let step = compose_resolved pack contents h distinct in
      (
        λ e.
            let (c, published, e₁) = bind_value e in
            let (t, rendered, e₂) = bind_value e₁ in
            let same = value_injective e₂ in
            (
              c,
              sym step ∙ published,
              rendered ∙ ap (λ (r : ContextPackRenderResult). value r.text) same,
              sym (ap (λ (r : ContextPackRenderResult). r.context_pack_ref) same),
            ),
        λ (c, published, rendered, named).
            rw (step ∙ published) (rw rendered (rw (sym named) refl)),
      )

  render_validated_iff :
      (pack : ContextPack) (validation : Option String) (r : ContextPackRenderResult)
      → validate_context_pack pack ≡ validation
      → Distinct (included_ids pack.items)
      → (render_validated reader pages engine pack validation ≡ value r) ↔ (
          (validate_context_pack pack ≡ none)
          × (is_approved pack.state ≡ true)
          × ((contents : List ContextPackItemContent) × (resolve_items reader pages pack.items
                ≡ value contents)
              × RenderedFrom pack contents r))
  unfolding render_validated
  render_validated_iff pack (some message) r e distinct = (λ h. cc, λ h. cc (h.0, e))
  render_validated_iff pack none r e distinct = elim (Bool-cases (is_approved pack.state)) [
    | inr refused ↦ (λ h. cc (sym (if_not-false _ _ refused) ∙ h), λ h. cc (h.1, refused))
    | inl agreed ↦ (
      λ h.
          let (contents, resolved, h₁) = bind_value (sym (if_not-true _ _ agreed) ∙ h) in
          (
            e,
            agreed,
            (contents, resolved, (render_resolved_iff pack contents r resolved distinct).0 h₁),
          ),
      λ (e', agreed', (contents, resolved, from)).
          if_not-true _ _ agreed
          ∙ ap (λ m. m >>= render_resolved reader pages engine pack) resolved
          ∙ (render_resolved_iff pack contents r resolved distinct).1 from,
    )
  ]

  -- A pack whose included items have distinct ids is rendered exactly when it is valid and approved, all
  -- its included items are resolved, and TextFoundry publishes and renders the composition of its
  -- intent, each included item's own text in order and its guidance; the result has the pack's id
  -- with the version, and the rendered text.
  pub render_approved_context_pack_iff :
      (pack : ContextPack) (r : ContextPackRenderResult)
      → Distinct (included_ids pack.items)
      → (render_approved_context_pack reader pages engine pack ≡ value r) ↔ (
          (validate_context_pack pack ≡ none)
          × (is_approved pack.state ≡ true)
          × ((contents : List ContextPackItemContent) × (resolve_items reader pages pack.items
                ≡ value contents)
              × RenderedFrom pack contents r))
  unfolding render_approved_context_pack
  render_approved_context_pack_iff pack r distinct =
      render_validated_iff pack (validate_context_pack pack) r refl distinct
