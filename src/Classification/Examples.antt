-- ===== src/Classification/Examples.antt =====
-- A note to the author's followers, and one that only its activity addresses.
use drfed.Common.{◌≡◌, refl, not, ◌&&◌, none, some, [], ◌∷◌, if◌then◌else◌}
use drfed.Common.Json.{Json, object, end, field, array, nil, property}
use drfed.Classification.{
  AddressingRows, Author, followers, specified, classify_mastodon, classify_misskey,
  classification_input, addresses_public, includes,
}
use drfed.Classification.Laws.{
  counterpart, classify_misskey-classify_mastodon, classify_mastodon-classification_input,
  classify_mastodon_own,
}

abbrev alice : Author
alice = record {
  followers_iri = some "https://a.example/followers";
  iri = "https://a.example/alice";
}

abbrev to_followers : AddressingRows
to_followers = record { to = some ("https://a.example/followers" ∷ []); cc = some [] }

abbrev empty_document : Json
empty_document = object end

abbrev addressed_to_none : Json
addressed_to_none = object (field "to" (array nil) (field "cc" (array nil) end))

classify_misskey-classify_mastodon_example :
    (classify_misskey
      (record { to = some []; cc = some ("f" ∷ []) })
      none
      (record { followers_iri = some "f"; iri = "a" })).classification
    ≡ (if not (addresses_public [])
          && not (addresses_public ("f" ∷ []))
          && not (includes [] "f")
          && includes ("f" ∷ []) "f"
        then followers
        else counterpart
            (classify_mastodon
              (record { to = some []; cc = some ("f" ∷ []) })
              none
              (record { followers_iri = some "f"; iri = "a" })).classification)
classify_misskey-classify_mastodon_example =
    classify_misskey-classify_mastodon [] ("f" ∷ []) none none "a" "f"

classify_mastodon-classification_input_example :
    (classify_mastodon (classification_input empty_document []) (some to_followers) alice
      ≡ classify_mastodon to_followers none alice)
    × ((classify_misskey
          (classification_input empty_document [])
          (some to_followers)
          alice).classification
        ≡ specified)
unfolding property
classify_mastodon-classification_input_example =
    classify_mastodon-classification_input empty_document [] to_followers alice (refl, refl)
      (refl, refl)

classify_mastodon_own_example :
    classify_mastodon (classification_input addressed_to_none []) (some to_followers) alice
    ≡ classify_mastodon (classification_input addressed_to_none []) none alice
unfolding property
classify_mastodon_own_example =
    classify_mastodon_own addressed_to_none [] (some to_followers) alice refl refl
