-- ===== src/Classification.antt =====
-- packages/graphql/src/classification.ts: how Mastodon and Misskey are expected to classify an object
-- by whom it is addressed to. The text of a reason is its rule.
mod Laws
mod Examples
use drfed.Common.{
  ℕ, String, Bool, true, false, not, ◌&&◌, ◌||◌, Option, none, some, List, [], ◌∷◌, ◌++◌, map, leb,
  any, select, str_eq, if◌then◌else◌,
}
use drfed.Common.Json.{Json, null, object, property}
use drfed.Common.Sort.{sort_by}
use drfed.Common.Text.{joined}

-- None where the property is missing or null.
pub record AddressingRows : Type 0 where
  pub to : Option (List String)
  pub cc : Option (List String)

pub data Implementation : Type 0 where
  mastodon misskey : Implementation

pub data Label : Type 0 where
  is_public unlisted private direct home followers specified : Label

pub data Rule : Type 0 where
  public_in_to public_in_cc followers_in_to followers_in_either neither_occurs : Rule

pub record ExpectedClassification : Type 0 where
  pub implementation : Implementation
  pub version : String
  pub classification : Label
  pub reason : Rule

pub record Author : Type 0 where
  pub followers_iri : Option String
  pub iri : String

abbrev pub includes : List String → String → Bool
includes l s = any (λ t. str_eq t s) l

-- `PUBLIC_IRIS` of packages/graphql/src/readable.ts.
abbrev pub public_iris : List String
public_iris = "https://www.w3.org/ns/activitystreams#Public" ∷ "as:Public" ∷ "Public" ∷ []

unfoldable pub addresses_public : List String → Bool
addresses_public l = any (λ iri. includes public_iris iri) l

abbrev pub or_else : Option (List String) → Option (List String) → Option (List String)
or_else (some l) other = some l
or_else none other = other

abbrev pub or_empty : Option (List String) → List String
or_empty (some l) = l
or_empty none = []

-- `activity?.to` and `activity?.cc`
abbrev pub to_of : Option AddressingRows → Option (List String)
to_of none = none
to_of (some a) = a.to

abbrev pub cc_of : Option AddressingRows → Option (List String)
cc_of none = none
cc_of (some a) = a.cc

abbrev pub reaches_followers : Option String → List String → Bool
reaches_followers none l = false
reaches_followers (some f) l = includes l f

abbrev pub by_mastodon : Bool → Bool → Bool → Label × Rule
by_mastodon true b c = (is_public, public_in_to)
by_mastodon false true c = (unlisted, public_in_cc)
by_mastodon false false true = (private, followers_in_to)
by_mastodon false false false = (direct, neither_occurs)

abbrev pub by_misskey : Bool → Bool → Bool → Label × Rule
by_misskey true b c = (is_public, public_in_to)
by_misskey false true c = (home, public_in_cc)
by_misskey false false true = (followers, followers_in_either)
by_misskey false false false = (specified, neither_occurs)

-- `classifyMastodon`
unfoldable pub classify_mastodon :
    AddressingRows → Option AddressingRows → Author → ExpectedClassification
classify_mastodon note activity author =
    let to = or_empty (or_else note.to (to_of activity)) in
    let cc = or_empty (or_else note.cc (cc_of activity)) in
    let (classification, rule) =
      by_mastodon (addresses_public to) (addresses_public cc)
        (reaches_followers author.followers_iri to) in
    record {
      implementation = mastodon;
      version = "fba604991b404096878932691b7673c61357f65c";
      classification = classification;
      reason = rule;
    }

abbrev pub or_default : Option String → String → String
or_default none s = s
or_default (some t) s = t

abbrev pub followers_of : Author → String
followers_of author = or_default author.followers_iri (joined author.iri "/followers")

-- `classifyMisskey`
unfoldable pub classify_misskey :
    AddressingRows → Option AddressingRows → Author → ExpectedClassification
classify_misskey note activity author =
    let to = or_empty note.to in
    let cc = or_empty note.cc in
    let (classification, rule) =
      by_misskey (addresses_public to) (addresses_public cc)
        (includes (to ++ cc) (followers_of author)) in
    record {
      implementation = misskey;
      version = "5e52f8609913a7a4f8bc76cbe26c2b99938310ae";
      classification = classification;
      reason = rule;
    }

pub record Entry : Type 0 where
  pub property : String
  pub position : ℕ
  pub target_iri : String

-- `document[name] != null` of a document that is an object.
abbrev pub is_given : Option Json → Bool
is_given none = false
is_given (some null) = false
is_given (some v) = true

abbrev pub declares : Json → String → Bool
declares (object fs) name = is_given (property name fs)
declares _ name = false

abbrev pub stored_iris : List Entry → Bool → Option (List String)
stored_iris [] given = if given then some [] else none
stored_iris (e ∷ es) given = some (map (λ x. x.target_iri) (e ∷ es))

-- `property`
unfoldable pub stored_property : Json → List Entry → String → Option (List String)
stored_property document addressing name =
    stored_iris
      (sort_by (λ a b. leb a.position b.position) (select (λ e. str_eq e.property name) addressing))
      (declares document name)

-- `classificationInput`
unfoldable pub classification_input : Json → List Entry → AddressingRows
classification_input document addressing = record {
  to = stored_property document addressing "to";
  cc = stored_property document addressing "cc";
}

pub record Reference : Type 0 where
  pub role : String
  pub collection_iri : String

abbrev pub followers_reference : List Reference → Option String
followers_reference [] = none
followers_reference (r ∷ rs) =
    if str_eq r.role "followers" then some r.collection_iri else followers_reference rs

abbrev pub or_declared : Option String → Option String → Option String
or_declared (some s) url = some s
or_declared none url = url

-- `classificationAuthor`
unfoldable pub classification_author : String → Option String → List Reference → Author
classification_author iri followers_url references = record {
  iri = iri;
  followers_iri = or_declared (followers_reference references) followers_url;
}
