-- ===== src/Documents/Validator/Acceptance.antt =====
-- The conversion of snapshots into blocks succeeds exactly with the blocks that mirror them.
use cpp_wiki.Prelude.{
  ◌≡◌, ◌↔◌, refl, sym, subst, String, false, List, [], ◌∷◌, arith, eq_iff, elem, Distinct, All,
}
use cpp_wiki.Documents.{
  Block, block, Blocks, BlockSnapshot, block_snapshot, ChildSnapshots, no_children, children,
  BlockSnapshots,
}
use cpp_wiki.Documents.Validator.{
  Result, ok, err, ◌>>=◌, Reader, checked_of, content_text, convert_block, convert_children,
  convert_list,
}
use cpp_wiki.Documents.Validator.Conversion.{
  ok_injective, check_id_iff, check_type_iff, check_heading_iff,
}
use cpp_wiki.Documents.Validator.Shape.{
  Mirrors, MirrorsInner, MirrorsList, block_ids, blocks_ids, push, Fresh, push-append, Fresh-append,
}

bind_ok {ℓ κ} :
    {A : Type ℓ} {B : Type κ} {m : Result A} {f : A → Result B} {b : B}
    → (m >>= f) ≡ ok b
    → (a : A) × (m ≡ ok a) × (f a ≡ ok b)
bind_ok {m = ok a} h = (a, refl, h)
bind_ok {m = err e} h = cc

-- What holds of the part that was read.
read_as {ℓ κ} : {A : Type ℓ} (P : A → Type κ) (made : A) {r : A} → ok made ≡ ok r → P made → P r
read_as P made h p = subst P (ok_injective h) p

module _ {G : Type 0} (reader : Reader G) where
  unfoldable mutual
    unfolding convert_block Mirrors block_ids

    Mirrors-block :
        (s : BlockSnapshot G) (seen : List String) (r : Block × List String)
        → convert_block reader s seen ≡ ok r
        → Mirrors reader s r.0 × Fresh (block_ids r.0) seen × (r.1 ≡ push (block_ids r.0) seen)
    Mirrors-block (block_snapshot id type content props checked inner) seen r h =
        let (i, hi, h₁) = bind_ok h in
        let (t, ht, h₂) = bind_ok h₁ in
        let ((bs, after), hb, h₃) = bind_ok h₂ in
        let (l, hl, h₄) = bind_ok h₃ in
        let c = (check_id_iff id seen i).0 hi in
        let (inner', fresh, pushed) = Mirrors-children inner (i ∷ seen) (bs, after) hb in
        read_as
          (λ (p : Block × List String).
            Mirrors reader (block_snapshot id type content props checked inner) p.0
            × Fresh (block_ids p.0) seen
            × (p.1 ≡ push (block_ids p.0) seen))
          (block i t (content_text reader content) l (checked_of t props checked) bs, after) h₄
          (
            (
              c.0,
              (check_type_iff type t).0 ht,
              refl,
              (check_heading_iff t props l).0 hl,
              refl,
              inner',
            ),
            (c.1, fresh),
            pushed,
          )

    Mirrors-children :
        (s : ChildSnapshots G) (seen : List String) (r : Blocks × List String)
        → convert_children reader s seen ≡ ok r
        → MirrorsInner reader s r.0
          × Fresh (blocks_ids r.0) seen
          × (r.1 ≡ push (blocks_ids r.0) seen)
    Mirrors-children no_children seen r h = rw (sym (ok_injective h)) (refl, tt, refl)
    Mirrors-children (children snapshots) seen r h = Mirrors-list snapshots seen r h

    Mirrors-list :
        (s : BlockSnapshots G) (seen : List String) (r : Blocks × List String)
        → convert_list reader s seen ≡ ok r
        → MirrorsList reader s r.0
          × Fresh (blocks_ids r.0) seen
          × (r.1 ≡ push (blocks_ids r.0) seen)
    Mirrors-list BlockSnapshots.nil seen r h = rw (sym (ok_injective h)) (refl, tt, refl)
    Mirrors-list (BlockSnapshots.cons first rest) seen r h =
        let ((b, mid), hb, h₁) = bind_ok h in
        let ((bs, after), hs, h₂) = bind_ok h₁ in
        let (m, fresh, pushed) = Mirrors-block first seen (b, mid) hb in
        let (ms, fresh', pushed') = Mirrors-list rest mid (bs, after) hs in
        read_as
          (λ (p : Blocks × List String).
            MirrorsList reader (BlockSnapshots.cons first rest) p.0
            × Fresh (blocks_ids p.0) seen
            × (p.1 ≡ push (blocks_ids p.0) seen))
          (Blocks.cons b bs, after) h₂
          (
            (m, ms),
            (Fresh-append (block_ids b) (blocks_ids bs) seen).1
                (fresh, subst (Fresh (blocks_ids bs)) pushed fresh'),
            rw pushed' (rw pushed (rw (push-append (block_ids b) (blocks_ids bs) seen) refl)),
          )

  mutual
    unfolding convert_block Mirrors block_ids

    accepts_block :
        (s : BlockSnapshot G) (seen : List String) (b : Block)
        → Mirrors reader s b
        → Fresh (block_ids b) seen
        → convert_block reader s seen ≡ ok (b, push (block_ids b) seen)
    accepts_block (block_snapshot id type content props checked inner) seen
          (block i t text level mark blocks) m fresh =
        let (ids, types, texts, levels, marks, inner') = m in
        rw ((check_id_iff id seen i).1 (ids, fresh.0)) (
          rw ((check_type_iff type t).1 types) (
            rw (accepts_children inner (i ∷ seen) blocks inner' fresh.1)
              (rw ((check_heading_iff t props level).1 levels) (rw texts (rw marks refl)))))

    accepts_children :
        (s : ChildSnapshots G) (seen : List String) (bs : Blocks)
        → MirrorsInner reader s bs
        → Fresh (blocks_ids bs) seen
        → convert_children reader s seen ≡ ok (bs, push (blocks_ids bs) seen)
    accepts_children no_children seen bs m fresh = rw m refl
    accepts_children (children snapshots) seen bs m fresh = accepts_list snapshots seen bs m fresh

    accepts_list :
        (s : BlockSnapshots G) (seen : List String) (bs : Blocks)
        → MirrorsList reader s bs
        → Fresh (blocks_ids bs) seen
        → convert_list reader s seen ≡ ok (bs, push (blocks_ids bs) seen)
    accepts_list BlockSnapshots.nil seen bs m fresh = rw m refl
    accepts_list (BlockSnapshots.cons first rest) seen Blocks.nil m fresh = absurd m
    accepts_list (BlockSnapshots.cons first rest) seen (Blocks.cons b bs) m fresh =
        let (fresh₁, fresh₂) = (Fresh-append (block_ids b) (blocks_ids bs) seen).0 fresh in
        rw (accepts_block first seen b m.0 fresh₁) (
          rw (accepts_list rest (push (block_ids b) seen) bs m.1 fresh₂)
            (rw (push-append (block_ids b) (blocks_ids bs) seen) refl))

-- An id and a list that holds it neither before nor after.
split_seen :
    (id : String) (ids seen : List String)
    → All (λ x. elem x (id ∷ seen) ≡ false) ids
      ↔ ((elem id ids ≡ false) × All (λ x. elem x seen ≡ false) ids)
split_seen id [] seen = (λ h. (refl, tt), λ h. tt)
split_seen id (x ∷ ids) seen =
    let rest = split_seen id ids seen in
    (
      λ h.
          let r = rest.0 h.1 in
          (ground (arith, eq_iff id x, eq_iff x id, h.0, r.0), (ground (arith, h.0), r.1)),
      λ h. (
        ground (arith, eq_iff id x, eq_iff x id, h.0, h.1.0),
        rest.1 (ground (arith, h.0), h.1.1),
      ),
    )

Fresh-iff :
    (ids seen : List String)
    → Fresh ids seen ↔ (Distinct ids × All (λ id. elem id seen ≡ false) ids)
Fresh-iff [] seen = (λ h. (tt, tt), λ h. tt)
Fresh-iff (id ∷ ids) seen =
    let rest = Fresh-iff ids (id ∷ seen) in
    let split = split_seen id ids seen in
    (
      λ h. let r = rest.0 h.1 in let q = split.0 r.1 in ((q.0, r.0), (h.0, q.1)),
      λ h. (h.1.0, rest.1 (h.0.1, split.1 (h.0.0, h.1.1))),
    )

All-new : (ids : List String) → All (λ id. elem id [] ≡ false) ids
All-new [] = tt
All-new (id ∷ ids) = (refl, All-new ids)

-- The blocks that a list of snapshots is read as, with no id seen before, mirror the snapshots, and
-- no id stands twice in their trees.
pub read-MirrorsList :
    {G : Type 0} (reader : Reader G) (s : BlockSnapshots G) (bs : Blocks) (seen : List String)
    → convert_list reader s [] ≡ ok (bs, seen)
    → MirrorsList reader s bs × Distinct (blocks_ids bs)
read-MirrorsList reader s bs seen h =
    let (m, fresh, pushed) = Mirrors-list reader s [] (bs, seen) h in
    (m, ((Fresh-iff (blocks_ids bs) []).0 fresh).0)

-- Conversely, blocks that mirror the snapshots, with no id twice, are what is read.
pub MirrorsList-read :
    {G : Type 0} (reader : Reader G) (s : BlockSnapshots G) (bs : Blocks)
    → MirrorsList reader s bs
    → Distinct (blocks_ids bs)
    → convert_list reader s [] ≡ ok (bs, push (blocks_ids bs) [])
MirrorsList-read reader s bs m distinct =
    accepts_list reader s [] bs m
      ((Fresh-iff (blocks_ids bs) []).1 (distinct, All-new (blocks_ids bs)))
