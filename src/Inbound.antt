-- ===== src/Inbound.antt =====
-- packages/federation/src/activity-delivery/inbound.ts: the entry that an inbox request is recorded as.
-- Verify.antt says how its verification is summarised, and Race.antt how the request and a queue
-- worker record one delivery together.
pub mod Verify
pub mod Summary
pub mod Entry
pub mod Recording
pub mod Race
mod Pending
pub mod Meeting
mod Examples
use drfed.Common.{
  ℕ, Bool, true, false, ◌&&◌, Option, none, some, List, [], ◌∷◌, leb, ltb, if◌then◌else◌,
}
use drfed.Common.Text.{codes, same_codes}
use drfed.Delivery.{
  Text, Status, received, acknowledged, unverified, rejected, Verification, verified,
}

abbrev pub is_success : Option ℕ → Bool
is_success none = false
is_success (some code) = leb 200 code && ltb code 300

abbrev pub refused_as : Verification → Status
refused_as verified = rejected
refused_as _ = unverified

-- `classifyInbound`
unfoldable pub classify_inbound : Option ℕ → Bool → Verification → Status
classify_inbound code handled result =
    if is_success code then if handled then received else acknowledged else refused_as result

-- A header value with its scheme, the text before the first white space, in lower case and as it is.
pub record Header : Type 0 where
  pub name : Text
  pub value : Text
  pub scheme : Text
  pub lower_scheme : Text

abbrev pub recorded_value : Header → Text
recorded_value h =
    if same_codes h.name (codes "authorization")
    then if same_codes h.lower_scheme (codes "signature") then h.value else h.scheme
    else h.value

-- `recordedHeaders`
unfoldable pub recorded_headers : List Header → List (Text × Text)
recorded_headers [] = []
recorded_headers (h ∷ hs) =
    let rest = recorded_headers hs in
    if same_codes h.name (codes "cookie") then rest else (h.name, recorded_value h) ∷ rest
