-- ===== src/Examples/Files.antt =====
-- Files, their tags and the search for them, on the example.
use file_tag_system.Prelude.{
  ℕ, List, [], ◌∷◌, true, false, none, In, ◌≡◌, ◌≢◌, ◌↔◌, ◌⊎◌, inl, inr, refl, sym, ap, ◌∙◌, arith,
}
use file_tag_system.Text.{codes, text_eq}
use file_tag_system.Text.Like.{like}
use file_tag_system.Models.{Permission}
use file_tag_system.Result.{ok}
use file_tag_system.Db.{Db, File, FileField, next_key}
use file_tag_system.Db.Cascade.{has_storage, cascade}
use file_tag_system.Tags.{applied}
use file_tag_system.Tagging.{tag_row, apply_tag, insert_tag}
use file_tag_system.Tagging.Apply.{
  SingleValued, Elsewhere, apply_tag-single, apply_tag-multi, apply_tag-SingleValued,
}
use file_tag_system.Catalog.{FileInfo, materialize, new_file, delete_storage}
use file_tag_system.Catalog.Materialize.{UniquePaths, materialize-row}
use file_tag_system.Catalog.Cleanup.{NamesStorage, delete_storage-cleanup}
use file_tag_system.Search.{Filter, result_of, search}
use file_tag_system.Search.Page.{Ascending, file_id}
use file_tag_system.Search.Hits.{IsPage, search-IsPage}
use file_tag_system.Examples.{bare, planted, notes, cat, place, person}

abbrev info : FileInfo
info = record { path = codes "new"; is_dir = false; size = 5; modified = none }

different : ¬ (notes.path ≡ cat.path)
different h = cc

bare_UniquePaths : UniquePaths bare.files
bare_UniquePaths f g (inl d) (inl e) s p = d ∙ sym e
bare_UniquePaths f g (inl d) (inr (inl e)) s p =
    absurd (different (sym (ap (λ (x : File). x.path) d) ∙ p ∙ ap (λ (x : File). x.path) e))
bare_UniquePaths f g (inr (inl d)) (inl e) s p =
    absurd (different (sym (ap (λ (x : File). x.path) e) ∙ sym p ∙ ap (λ (x : File). x.path) d))
bare_UniquePaths f g (inr (inl d)) (inr (inl e)) s p = d ∙ sym e
bare_UniquePaths f g (inr (inr k)) m s p = elim k [ ]
bare_UniquePaths f g m (inr (inr k)) s p = elim k [ ]

abbrev grown : Db
grown = record bare { files = notes ∷ cat ∷ new_file bare 1 info ∷ [] }

materialize-row_example :
    UniquePaths grown.files
    × ((f : File) × In f grown.files × (f.id ≡ 3) × (f.storage_id ≡ 1) × (f.path ≡ codes "new"))
    × ((g : File) → In g bare.files → In g grown.files)
    × (materialize grown 1 info ≡ ok (3, grown))
materialize-row_example = materialize-row bare grown 1 info info 3 bare_UniquePaths made refl
  where
    made : materialize bare 1 info ≡ ok (3, grown)
    made = unfold materialize new_file next_key text_eq in refl

abbrev gone : Db
gone = record bare { storage_providers = []; files = [] }

delete_storage-cleanup_example :
    ((p : Permission)
      → In p gone.permissions ↔ (In p bare.permissions × ¬ NamesStorage bare.files 1 p))
    × ((f : File)
        → In f gone.files ↔ (
            In f bare.files
            × (has_storage bare.storage_providers f.storage_id ≡ true)
            × (f.storage_id ≢ 1)))
delete_storage-cleanup_example = delete_storage-cleanup bare gone 1 deleted
  where
    deleted : delete_storage bare 1 ≡ ok gone
    deleted = unfold delete_storage cascade in refl

abbrev with_tags : List FileField → Db
with_tags rows = record planted { file_fields = rows }

-- The file "notes" goes from value 1 of the single field to value 2.
retag : apply_tag (with_tags (tag_row 1 1 1 ∷ [])) 1 1 2 ≡ ok (with_tags (tag_row 1 1 2 ∷ []))
unfolding apply_tag insert_tag
retag = refl

apply_tag-single_example :
    (applied 1 1 (tag_row 1 1 2 ∷ []) ≡ tag_row 1 1 2 ∷ [])
    × ((f u : ℕ)
        → Elsewhere 1 1 f u
        → applied f u (tag_row 1 1 2 ∷ []) ≡ applied f u (tag_row 1 1 1 ∷ []))
apply_tag-single_example =
    apply_tag-single (with_tags (tag_row 1 1 1 ∷ [])) (with_tags (tag_row 1 1 2 ∷ [])) 1 1 2 place
      refl refl retag

apply_tag-multi_example :
    In (tag_row 2 2 3) (tag_row 1 1 1 ∷ tag_row 2 2 3 ∷ [])
    ↔ (In (tag_row 2 2 3) (tag_row 1 1 1 ∷ []) ⊎ (tag_row 2 2 3 ≡ tag_row 2 2 3))
apply_tag-multi_example =
    apply_tag-multi (with_tags (tag_row 1 1 1 ∷ []))
      (with_tags (tag_row 1 1 1 ∷ tag_row 2 2 3 ∷ [])) 2 2 3 person refl refl added (tag_row 2 2 3)
  where
    added :
        apply_tag (with_tags (tag_row 1 1 1 ∷ [])) 2 2 3
        ≡ ok (with_tags (tag_row 1 1 1 ∷ tag_row 2 2 3 ∷ []))
    added = unfold apply_tag insert_tag in refl

apply_tag-SingleValued_example : SingleValued (with_tags (tag_row 1 1 2 ∷ []))
apply_tag-SingleValued_example =
    apply_tag-SingleValued (with_tags (tag_row 1 1 1 ∷ [])) (with_tags (tag_row 1 1 2 ∷ [])) 1 1 2
      one_row retag
  where
    one_row : SingleValued (with_tags (tag_row 1 1 1 ∷ []))
    one_row ft t h single f = ground arith

-- All that is tagged with a place in Asia, one at a time.
abbrev trip : Db
trip = with_tags (tag_row 1 1 1 ∷ tag_row 2 1 3 ∷ [])

abbrev in_asia : Filter
in_asia = record { field_type_id = 1; field_value_id = 1; strict = false }

search-IsPage_example : IsPage trip none (in_asia ∷ []) 1 0 (result_of notes ∷ [], 1)
search-IsPage_example =
    search-IsPage trip none (in_asia ∷ []) 1 0 (result_of notes ∷ [], 1) ordered found_notes
  where
    ordered : Ascending file_id trip.files
    ordered = (
      (λ f m. elim m [ inl e ↦ rw e (omega arith) | inr k ↦ elim k [ ] ]),
      ((λ f m. elim m [ ]), tt),
    )

    found_notes : search trip none (in_asia ∷ []) 1 0 ≡ ok (result_of notes ∷ [], 1)
    found_notes = unfold search like in refl
