-- ===== src/Layer2/Registration.antt =====
-- layer2/registration.go: the validation of a request, `Deregister`, `ForceDeregister`, `AddCapability` and
-- `AddRelationship`. `UpdateState` is in Layer2.Catalog. The API holds no
-- lock of its own: each function is a call that no other call comes between.
pub mod Removal
pub mod Detached
use aizo.Prelude.{
  ℕ, String, Bool, true, false, ◌||◌, not, select, Option, none, some, List, [], ◌∷◌, length,
  if◌then◌else◌, ◌==◌, string_eq,
}
use aizo.Layer2.Entity.{Go, Entity, add_capability, add_relationship}
use aizo.Layer2.Catalog.{Error, Catalog, write, register, unregister, get_entity}
use aizo.Layer2.Impact.{Impacted, out_of_fuel, not_found, entities, get_impacted_entities}

-- The fields of a request that are validated.
pub record RegistrationRequest : Type 0 where
  pub id : String
  pub entity_type : String
  pub name : String

pub data RequestError : Type 0 where
  id_required type_required name_required : RequestError
  invalid_type : String → RequestError

abbrev valid_types : List String
valid_types = "server" ∷ "api" ∷ "database" ∷ "job" ∷ "pipeline" ∷ "device" ∷ "script" ∷ []

abbrev is_valid_type : String → List String → Bool
is_valid_type x [] = false
is_valid_type x (t ∷ ts) = (x == t) || is_valid_type x ts

unfoldable pub validate_request : RegistrationRequest → Option RequestError
validate_request req =
    if req.id == ""
    then some id_required
    else (if req.entity_type == ""
        then some type_required
        else (if req.name == ""
            then some name_required
            else (if is_valid_type req.entity_type valid_types
                then none
                else some (invalid_type req.entity_type))))

-- `exhausted` is no outcome: the fuel of the search has run out.
pub data Failure : Type 0 where
  exhausted : Failure
  catalog_error : Error → Failure
  still_needed : ℕ → Failure
  target_not_found : String → Failure

abbrev pub of_catalog : {A : Type 0} → A × Option Error → A × Option Failure
of_catalog (c, none) = (c, none)
of_catalog (c, some e) = (c, some (catalog_error e))

module _ (go : Go) where
  -- What is done with the answer of `GetImpactedEntities`.
  abbrev pub unless_needed : Catalog go → String → Impacted → Catalog go × Option Failure
  unless_needed c id out_of_fuel = (c, some exhausted)
  unless_needed c id (not_found i) = (c, some (catalog_error (Error.not_found i)))
  unless_needed c id (entities []) = of_catalog (unregister go c id)
  unless_needed c id (entities (p ∷ ps)) = (c, some (still_needed (length (p ∷ ps))))

  unfoldable pub deregister : Catalog go → String → Catalog go × Option Failure
  deregister c id = unless_needed c id (get_impacted_entities go c id)

  -- An affected entity loses its relationships to the id, and is registered again.
  abbrev pub without_target : String → Entity go → Entity go
  without_target id e = record e {
    relationships = select (λ r. not (r.target_id == id)) e.relationships;
  }

  unfoldable pub detach : Catalog go → String → List ℕ → Catalog go
  detach c id [] = c
  detach c id (p ∷ ps) =
      detach
        (register go (record c { heap = write go c.heap p (without_target id (c.heap p)) }) p).0 id
        ps

  abbrev pub detach_and_unregister : Catalog go → String → Impacted → Catalog go × Option Failure
  detach_and_unregister c id out_of_fuel = (c, some exhausted)
  detach_and_unregister c id (not_found i) = (c, some (catalog_error (Error.not_found i)))
  detach_and_unregister c id (entities ps) = of_catalog (unregister go (detach c id ps) id)

  unfoldable pub force_deregister : Catalog go → String → Catalog go × Option Failure
  force_deregister c id = detach_and_unregister c id (get_impacted_entities go c id)

  unfoldable pub api_add_capability : Catalog go → String → String → Catalog go × Option Failure
  api_add_capability c id cap = elim (get_entity go c id) [
    | none ↦ (c, some (catalog_error (Error.not_found id)))
    | some p ↦
        of_catalog
          (register go (record c { heap = write go c.heap p (add_capability go (c.heap p) cap) }) p)
  ]

  unfoldable pub api_add_relationship :
      Catalog go → String → String → String → Catalog go × Option Failure
  api_add_relationship c id rel_type target_id = elim (get_entity go c id) [
    | none ↦ (c, some (catalog_error (Error.not_found id)))
    | some p ↦ elim (get_entity go c target_id) [
      | none ↦ (c, some (target_not_found target_id))
      | some q ↦ of_catalog (
          register go
            (record c {
              heap = write go c.heap p (add_relationship go (c.heap p) rel_type target_id);
            })
            p)
    ]
  ]
