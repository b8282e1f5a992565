-- ===== src/Registry/Examples.antt =====
-- One registered note, which is addressed to two IRIs, and an actor who is promoted meanwhile.
use drfed.Common.{◌≡◌, refl, arith, ◌⊎◌, some, List, [], ◌∷◌}
use drfed.Common.Result.{ok, err}
use drfed.Revision.{to, cc, unknown}
use drfed.Delivery.{Registered}
use drfed.Registry.{id_taken}
use drfed.Registry.Occurrences.{Occurrence, Tables, Meanwhile, replace_addressing}
use drfed.Registry.Reading.{claims}
use drfed.Registry.Replacing.{Replaced, replace_addressing-Replaced}
use drfed.Registry.Promotion.{promoted_actor, promoted_object, promote_resource}
use drfed.Registry.Promotion.Typed.{registers, promotes, steps, insert_typed, reuse_typed, Matches}
use drfed.Registry.Promotion.Once.{Promotes, promote_resource-Promotes}

abbrev note : Registered
note = record { id = 1; iri = 7 ∷ []; kind = unknown }

abbrev addressed : Tables
addressed = record {
  resources = note ∷ [];
  addressing = record { source_id = 1; property = to; position = 0; target_id = 1 } ∷ [];
}

abbrev occurrences : List Occurrence
occurrences =
    record { property = to; position = 0; iri = 8 ∷ [] }
    ∷ record { property = cc; position = 2; iri = 9 ∷ [] }
    ∷ []

-- The new ids are those of the IRIs' first units; another transaction registers one of them first.
abbrev meanwhile : Meanwhile
meanwhile [] = (2, [])
meanwhile (c ∷ cs) = (c, record { id = 30; iri = 9 ∷ []; kind = unknown } ∷ [])

replace_addressing-Replaced_example :
    (replace_addressing meanwhile 1 (claims occurrences) addressed ≡ err id_taken)
    ⊎ ((s' : Tables) × (replace_addressing meanwhile 1 (claims occurrences) addressed ≡ ok s')
        × Replaced 1 occurrences addressed s')
replace_addressing-Replaced_example =
    replace_addressing-Replaced meanwhile 1 occurrences addressed (refl, refl, tt) refl
      (omega arith, (refl, tt), (omega arith, tt, tt))

no_typed-Matches : Matches (note ∷ [], [])
no_typed-Matches = record { registry = (refl, refl, tt); typed = λ id. ground arith }

promote_resource-Promotes_example : Promotes promoted_object (7 ∷ []) (note ∷ []) (
    promote_resource []
      (steps (registers 5 (8 ∷ []) ∷ promotes 5 promoted_actor ∷ []))
      (7 ∷ [])
      promoted_object
      insert_typed
      6
      (some reuse_typed)
      (note ∷ [])
      [])
promote_resource-Promotes_example =
    promote_resource-Promotes [] (registers 5 (8 ∷ []) ∷ promotes 5 promoted_actor ∷ []) (7 ∷ [])
      promoted_object 6 (note ∷ []) [] no_typed-Matches tt
