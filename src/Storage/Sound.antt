-- ===== src/Storage/Sound.antt =====
-- What a List of typed records gives when it gives a list.
use cpp_wiki.Prelude.{
  ◌≡◌, inl, inr, refl, ap, sym, subst, ◌∙◌, String, Bool, true, false, not, ◌||◌, Option, none,
  some, List, [], ◌∷◌, arith, eq_iff, ◌==◌, Bool-cases, is_some, is_empty, if◌then◌else◌, All,
}
use cpp_wiki.Files.{Slot}
use cpp_wiki.Documents.Validator.Conversion.{some_injective}
use cpp_wiki.Storage.{
  FilePath, Store, Disk, Answer, found, failed, RepositoryError, same_path, slot_at, json_file,
  read_file_to_string,
}
use cpp_wiki.Storage.Slots.{equal_paths}
use cpp_wiki.Storage.Lists.{
  RecordFiles, is_listed, sorted_by, sort_found, add_record, add_file, add_content, walk_records,
  list_records,
}
use cpp_wiki.Storage.Orders.{In, Ordered, sorted_in, sorted_all, sorted_by-Ordered}
use cpp_wiki.Storage.Listing.{walked_first, slot_at_first, slot_at_later}

found_injective : {A : Type 0} {a b : A} → Path (Answer A) (found a) (found b) → a ≡ b
found_injective h = cc

nothing : (p : FilePath) (text : String) → (slot_at p []).target ≡ some text → ⊥
unfolding slot_at
nothing p text h = cc

readable_content :
    (disk : Disk) (p q : FilePath) (slot : Slot) (text : String)
    → p ≡ q
    → disk.unreadable p ≡ false
    → slot.target ≡ some text
    → read_file_to_string disk q slot ≡ some text
unfolding read_file_to_string
readable_content disk p q slot text e readable h =
    let open_q = ap disk.unreadable (sym e) ∙ readable in rw open_q h

module _ {R : Type 0} (files : RecordFiles R) (keep : R → Bool) where
  -- A record that a list may give.
  abbrev pub IsGiven : R → Type 0
  IsGiven r = (keep r ≡ true) × (files.is_invalid r ≡ false)

  -- A file with the name `stem` and the text `content` is read into a valid record of that id, which is
  -- in the list unless the List asks for others.
  abbrev pub IsRead : String → String → List R → Type 0
  IsRead stem content rs =
      (r : R) × (files.read content ≡ some r)
      × (files.id_of r ≡ stem)
      × (files.is_invalid r ≡ false)
      × (keep r ≡ true → In r rs)

  -- One file was taken into the list `rs`, with those after it in `qs`.
  abbrev Adds : String → Option String → List R → List R → Type 0
  Adds stem content qs rs =
      (All IsGiven qs → All IsGiven rs)
      × ((x : R) → In x qs → In x rs)
      × ((text : String) → content ≡ some text → IsRead stem text rs)

  kept_all :
      (b : Bool) (r : R) (qs : List R)
      → keep r ≡ b
      → files.is_invalid r ≡ false
      → All IsGiven qs
      → All IsGiven (if b then r ∷ qs else qs)
  kept_all true r qs k v h = ((k, v), h)
  kept_all false r qs k v h = h

  kept_in : (b : Bool) (x r : R) (qs : List R) → In x qs → In x (if b then r ∷ qs else qs)
  kept_in true x r qs h = inr h
  kept_in false x r qs h = h

  record_added :
      (r : R) (stem text : String) (more : Answer (List R)) (rs : List R)
      → add_record files keep r more ≡ found rs
      → files.read text ≡ some r
      → files.id_of r ≡ stem
      → files.is_invalid r ≡ false
      → (qs : List R) × (more ≡ found qs) × Adds stem (some text) qs rs
  unfolding add_record
  record_added r stem text (failed e) rs h read same v = cc
  record_added r stem text (found qs) rs h read same v =
      let e : (if keep r then r ∷ qs else qs) ≡ rs = found_injective h in
      (
        qs,
        refl,
        (
          λ all. rw (← e) (kept_all (keep r) r qs refl v all),
          λ x x_in. rw (← e) (kept_in (keep r) x r qs x_in),
          λ t t_is. (
            r,
            ap files.read (sym (some_injective t_is)) ∙ read,
            same,
            v,
            λ k. rw (← e, k) (inl refl),
          ),
        ),
      )

  file_added_by :
      (same invalid : Bool) (r : R) (stem text : String) (e : RepositoryError)
      (more : Answer (List R)) (rs : List R)
      → (files.id_of r == stem) ≡ same
      → files.is_invalid r ≡ invalid
      → (if not same || invalid then failed e else add_record files keep r more) ≡ found rs
      → files.read text ≡ some r
      → (qs : List R) × (more ≡ found qs) × Adds stem (some text) qs rs
  file_added_by true false r stem text e more rs same v h read =
      record_added r stem text more rs h read (ground (arith, eq_iff (files.id_of r) stem)) v
  file_added_by true true r stem text e more rs same v h read = cc
  file_added_by false invalid r stem text e more rs same v h read = cc

  file_added :
      (o : Option R) (stem text : String) (more : Answer (List R)) (rs : List R)
      → add_file files keep stem o more ≡ found rs
      → files.read text ≡ o
      → (qs : List R) × (more ≡ found qs) × Adds stem (some text) qs rs
  unfolding add_file
  file_added none stem text more rs h read = cc
  file_added (some r) stem text more rs h read =
      file_added_by (files.id_of r == stem) (files.is_invalid r) r stem text _ more rs refl refl h
        read

  content_added :
      (content : Option String) (stem : String) (more : Answer (List R)) (rs : List R)
      → add_content files keep stem content more ≡ found rs
      → (qs : List R) × (more ≡ found qs) × Adds stem content qs rs
  unfolding add_content
  content_added none stem more rs h = (rs, h, (λ all. all, λ x x_in. x_in, λ t t_is. cc))
  content_added (some text) stem more rs h = file_added (files.read text) stem text more rs h refl

  -- One entry of the storage, listed or not.
  entry_added :
      (listed : Bool) (content : Option String) (stem : String) (more : Answer (List R))
      (rs : List R)
      → (if listed then add_content files keep stem content more else more) ≡ found rs
      → (qs : List R) × (more ≡ found qs)
        × (All IsGiven qs → All IsGiven rs)
        × ((x : R) → In x qs → In x rs)
        × (listed ≡ true → (text : String) → content ≡ some text → IsRead stem text rs)
  entry_added true content stem more rs h =
      let (qs, e, (all, still, here)) = content_added content stem more rs h in
      (qs, e, all, still, λ listed. here)
  entry_added false content stem more rs h = (rs, h, λ all. all, λ x x_in. x_in, λ e. cc)

  module _ (disk : Disk) where
    walk-IsGiven :
        (store : Store) (rs : List R)
        → walk_records files keep disk store ≡ found rs
        → All IsGiven rs
    unfolding walk_records
    walk-IsGiven [] rs h = let e : [] ≡ rs = found_injective h in rw (← e) tt
    walk-IsGiven ((p, slot) ∷ store) rs h =
        let (qs, e, all, still, here) =
          entry_added (is_listed files.directory p slot) (read_file_to_string disk p slot) p.stem
            (walk_records files keep disk store) rs h in
        all (walk-IsGiven store qs e)

    IsRead-stays :
        (stem text : String) (qs rs : List R)
        → ((x : R) → In x qs → In x rs)
        → IsRead stem text qs
        → IsRead stem text rs
    IsRead-stays stem text qs rs still (r, read, same, v, k) =
        (r, read, same, v, λ e. still r (k e))

    walk-IsRead :
        (store : Store) (rs : List R) (id text : String)
        → walk_records files keep disk store ≡ found rs
        → is_empty id ≡ false
        → disk.unreadable (json_file files.directory id) ≡ false
        → (slot_at (json_file files.directory id) store).target ≡ some text
        → IsRead id text rs
    unfolding walk_records read_file_to_string
    walk-IsRead [] rs id text h named readable there =
        absurd (nothing (json_file files.directory id) text there)
    walk-IsRead ((q, slot) ∷ store) rs id text h named readable there =
        let (qs, e, all, still, here) =
          entry_added (is_listed files.directory q slot) (read_file_to_string disk q slot) q.stem
            (walk_records files keep disk store) rs h in
        elim (Bool-cases (same_path (json_file files.directory id) q)) [
          | inl same ↦
              let (listed, own) =
                walked_first files.directory id q slot store named (ap is_some there) same in
              let stored =
                ap (λ s. s.target)
                  (sym (slot_at_first (json_file files.directory id) q slot store same))
                ∙ there in
              subst (λ i. IsRead i text rs) own
                (here listed text (
                  readable_content disk (json_file files.directory id) q slot text
                    (equal_paths (json_file files.directory id) q same) readable stored))
          | inr other ↦ IsRead-stays id text qs rs still (
              walk-IsRead store qs id text e named readable (
                ap (λ s. s.target)
                  (sym (slot_at_later (json_file files.directory id) q slot store other))
                ∙ there))
        ]

    sorted_inv :
        (goes_before : R → R → Bool) (walked : Answer (List R)) (rs : List R)
        → sort_found goes_before walked ≡ found rs
        → (qs : List R) × (walked ≡ found qs) × (rs ≡ sorted_by goes_before qs)
    unfolding sort_found
    sorted_inv goes_before (found qs) rs h = (qs, refl, sym (found_injective h))
    sorted_inv goes_before (failed e) rs h = cc

    -- When the records of a directory are listed, every record in the list is valid and one that was
    -- asked for, and the list is ordered. Moreover, every JSON file of the directory that can be
    -- read holds a valid record whose id is the file's name, and the record is in the list if it
    -- was asked for: one file that does not makes the whole List fail. (The order is such that of two
    -- records at most one goes before the other.)
    pub list_records_sound :
        (goes_before : R → R → Bool)
        → ((a b : R) → goes_before a b ≡ true → goes_before b a ≡ false)
        → (store : Store) (rs : List R) → list_records files keep goes_before disk store ≡ found rs
        → All IsGiven rs
          × Ordered goes_before rs
          × ((id text : String)
              → is_empty id ≡ false
              → disk.unreadable (json_file files.directory id) ≡ false
              → (slot_at (json_file files.directory id) store).target ≡ some text
              → IsRead id text rs)
    unfolding list_records
    list_records_sound goes_before asym store rs h =
        let (qs, walked, sorted) =
          sorted_inv goes_before (walk_records files keep disk store) rs h in
        (
          rw sorted (sorted_all goes_before IsGiven qs (walk-IsGiven store qs walked)),
          rw sorted (sorted_by-Ordered goes_before asym qs),
          λ id text named readable there. rw sorted (
              IsRead-stays id text qs (sorted_by goes_before qs)
                (λ x x_in. sorted_in goes_before x qs x_in)
                (walk-IsRead store qs id text walked named readable there)),
        )
