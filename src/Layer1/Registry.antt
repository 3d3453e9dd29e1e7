-- ===== src/Layer1/Registry.antt =====
-- layer1/registry.go. Each method holds the lock for its whole body and is one step, but
-- `HealthCheckAll`, which checks a copy of the adapters. The calls of `Disconnect` are an effect on
-- the adapters: a method that makes them returns the adapters called, in order.
pub mod Lookup
use aizo.Prelude.{
  ℕ, String, Bool, true, false, Option, none, some, List, [], ◌∷◌, if◌then◌else◌, Map, get, put,
  delete, values, select, length, is_some, ◌==◌, string_eq,
}
use aizo.Layer1.Adapter.{Adapter}

pub record AdapterMetadata : Type 0 where
  pub id : String
  pub adapter_type : String
  pub capabilities : List String
  pub target : String
  pub registered_at : ℕ
  pub last_health_check : Option ℕ
  pub tags : Map String String

pub record AdapterRegistry (A : Type 0) : Type 0 where
  pub adapters : Map String A
  pub metadata : Map String AdapterMetadata

pub data Error : Type 0 where
  empty_id : Error
  already_registered : String → Error
  not_found : String → Error
  metadata_not_found : String → Error

pub data Result {ℓ} (A : Type ℓ) : Type ℓ where
  ok : A → Result A
  err : Error → Result A

module _ {A : Type 0} where
  abbrev pub new_adapter_registry : AdapterRegistry A
  new_adapter_registry = record { adapters = []; metadata = [] }

  unfoldable pub unregister : AdapterRegistry A → String → AdapterRegistry A × Option Error × List A
  unregister r id = elim (get id r.adapters) [
    | none ↦ (r, some (not_found id), [])
    | some adapter ↦ (
      record { adapters = delete id r.adapters; metadata = delete id r.metadata },
      none,
      adapter ∷ [],
    )
  ]

  unfoldable pub get_adapter : AdapterRegistry A → String → Result A
  get_adapter r id = elim (get id r.adapters) [ none ↦ err (not_found id) | some a ↦ ok a ]

  unfoldable pub list_adapters : AdapterRegistry A → List A
  list_adapters r = values r.adapters

  unfoldable pub get_metadata : AdapterRegistry A → String → Result AdapterMetadata
  get_metadata r id = elim (get id r.metadata) [
    | none ↦ err (metadata_not_found id)
    | some m ↦ ok m
  ]

  unfoldable pub list_metadata : AdapterRegistry A → List AdapterMetadata
  list_metadata r = values r.metadata

  unfoldable pub count_adapters : AdapterRegistry A → ℕ
  count_adapters r = length r.adapters

  unfoldable pub clear : AdapterRegistry A → AdapterRegistry A × List A
  clear r = (record { adapters = []; metadata = [] }, values r.adapters)

  -- What a goroutine of `HealthCheckAll` does under the lock when its check has ended: it notes the
  -- time, if the adapter is still registered.
  unfoldable pub note_health_check : AdapterRegistry A → String → ℕ → AdapterRegistry A
  note_health_check r id now = elim (get id r.metadata) [
    | none ↦ r
    | some meta ↦ record r {
      metadata = put id (record meta { last_health_check = some now }) r.metadata;
    }
  ]

module _ {A : Type 0} (ops : Adapter A) where
  unfoldable pub register : AdapterRegistry A → ℕ → A → AdapterRegistry A × Option Error
  register r now adapter =
      let config = ops.get_config adapter in
      if config.id == ""
      then (r, some empty_id)
      else if is_some (get config.id r.adapters)
      then (r, some (already_registered config.id))
      else (
        record {
          adapters = put config.id adapter r.adapters;
          metadata =
              put config.id
                (record {
                  id = config.id;
                  adapter_type = ops.get_type adapter;
                  capabilities = ops.get_capabilities adapter;
                  target = config.target;
                  registered_at = now;
                  last_health_check = none;
                  tags = [];
                })
                r.metadata;
        },
        none,
      )

  unfoldable pub list_by_type : AdapterRegistry A → String → List A
  list_by_type r adapter_type = select (λ a. ops.get_type a == adapter_type) (values r.adapters)
