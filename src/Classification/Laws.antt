-- ===== src/Classification/Laws.antt =====
-- packages/graphql/src/classification.ts: where the two classifications agree, and when the activity
-- counts.
use drfed.Common.{
  ◌≡◌, refl, String, Bool, true, false, not, ◌&&◌, ◌||◌, Option, none, some, List, [], ◌∷◌, ◌++◌,
  arith, select, str_eq, leb, if◌then◌else◌,
}
use drfed.Common.Json.{Json}
use drfed.Common.Sort.{sort_by}
use drfed.Classification.{
  AddressingRows, or_else, to_of, cc_of, Author, Label, is_public, unlisted, private, direct, home,
  followers, specified, Entry, classify_mastodon, classify_misskey, classification_input,
  stored_property, stored_iris, declares, by_mastodon, by_misskey, addresses_public, includes,
}

-- The name that Misskey has for a label of Mastodon.
abbrev pub counterpart : Label → Label
counterpart is_public = is_public
counterpart unlisted = home
counterpart private = followers
counterpart direct = specified
counterpart l = l

includes-append :
    (xs ys : List String) (s : String) → includes (xs ++ ys) s ≡ (includes xs s || includes ys s)
includes-append [] ys s = refl
includes-append (x ∷ xs) ys s = ground (arith, includes-append xs ys s)

labels-agree :
    (a b c d : Bool)
    → (by_misskey a b (c || d)).0
      ≡ (if not a && not b && not c && d then followers else counterpart (by_mastodon a b c).0)
labels-agree a b c d = ground arith

-- For an object with both addressing properties, whose author declares a followers collection, Misskey's
-- label is the counterpart of Mastodon's, but for one case: where the followers collection is in cc, it
-- is not in to, and Public is in neither, Misskey has followers and Mastodon direct.
pub classify_misskey-classify_mastodon :
    (to cc : List String) (activity other : Option AddressingRows) (iri f : String)
    → (classify_misskey
        (record { to = some to; cc = some cc })
        activity
        (record { followers_iri = some f; iri = iri })).classification
      ≡ (if not (addresses_public to)
            && not (addresses_public cc)
            && not (includes to f)
            && includes cc f
          then followers
          else counterpart
              (classify_mastodon
                (record { to = some to; cc = some cc })
                other
                (record { followers_iri = some f; iri = iri })).classification)
unfolding classify_misskey classify_mastodon
classify_misskey-classify_mastodon to cc activity other iri f =
    rw (includes-append to cc f)
      (labels-agree (addresses_public to) (addresses_public cc) (includes to f) (includes cc f))

or_else-none : (o : Option (List String)) → or_else o none ≡ o
or_else-none none = refl
or_else-none (some l) = refl

-- No addressing of one property is stored, and the document has none.
abbrev pub LacksProperty : Json → List Entry → String → Type 0
LacksProperty document rows name =
    (select (λ e. str_eq e.property name) rows ≡ []) × (declares document name ≡ false)

stored_property-none :
    (document : Json) (rows : List Entry) (name : String)
    → LacksProperty document rows name
    → stored_property document rows name ≡ none
unfolding stored_property
stored_property-none document rows name h = rw (h.0, h.1) refl

-- An object whose stored row has neither to nor cc, and whose document declares neither, is classified
-- by Mastodon as its activity would be by itself, and by Misskey as specified.
pub classify_mastodon-classification_input :
    (document : Json) (rows : List Entry) (a : AddressingRows) (author : Author)
    → LacksProperty document rows "to"
    → LacksProperty document rows "cc"
    → (classify_mastodon (classification_input document rows) (some a) author
        ≡ classify_mastodon a none author)
      × ((classify_misskey (classification_input document rows) (some a) author).classification
          ≡ specified)
unfolding classify_mastodon classify_misskey classification_input addresses_public
classify_mastodon-classification_input document rows a author no_to no_cc =
    rw
      (
        stored_property-none document rows "to" no_to,
        stored_property-none document rows "cc" no_cc,
        or_else-none a.to,
        or_else-none a.cc,
      )
      (refl, refl)

or_else-given :
    (l : List Entry) (o : Option (List String))
    → or_else (stored_iris l true) o ≡ stored_iris l true
or_else-given [] o = refl
or_else-given (e ∷ es) o = refl

or_else-stored_property :
    (document : Json) (rows : List Entry) (name : String) (o : Option (List String))
    → declares document name ≡ true
    → or_else (stored_property document rows name) o ≡ stored_property document rows name
unfolding stored_property
or_else-stored_property document rows name o h = rw h (
    or_else-given
      (sort_by (λ a b. leb a.position b.position) (select (λ e. str_eq e.property name) rows)) o)

-- When the document of an object declares both to and cc, even as empty, the activity's addressing does
-- not count for Mastodon.
pub classify_mastodon_own :
    (document : Json) (rows : List Entry) (activity : Option AddressingRows) (author : Author)
    → declares document "to" ≡ true
    → declares document "cc" ≡ true
    → classify_mastodon (classification_input document rows) activity author
      ≡ classify_mastodon (classification_input document rows) none author
unfolding classify_mastodon classification_input
classify_mastodon_own document rows activity author has_to has_cc =
    rw
      (
        or_else-stored_property document rows "to" (to_of activity) has_to,
        or_else-stored_property document rows "cc" (cc_of activity) has_cc,
        or_else-none (stored_property document rows "to"),
        or_else-none (stored_property document rows "cc"),
      )
      refl
