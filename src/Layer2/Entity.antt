-- ===== src/Layer2/Entity.antt =====
-- layer2/entity.go. The values of an `interface{}` and float64 are parameters.
use aizo.Prelude.{
  ℕ, String, Bool, List, [], ◌∷◌, ◌++◌, Map, if◌then◌else◌, ◌==◌, string_eq, some_of, select,
}

-- What layer2 uses of Go: `fmt.Sprint`, and the order of float64 with the test of being above 0.
pub record Go : Type 1 where
  pub Value : Type 0
  pub sprint : Value → String
  pub Float : Type 0
  pub lt : Float → Float → Bool
  pub positive : Float → Bool

abbrev pub depends_on : String
depends_on = "depends_on"

pub record Relationship : Type 0 where
  pub relation_type : String
  pub target_id : String

module _ (go : Go) where
  open go use {Value, Float}

  pub record Entity : Type 0 where
    pub id : String
    pub entity_type : String
    pub name : String
    pub capabilities : List String
    pub metadata : Map String Value
    pub adapters : List String
    pub relationships : List Relationship
    pub state : String
    pub last_seen_at : ℕ
    pub health_score : Float
    pub last_health_check : ℕ

  unfoldable pub has_capability : Entity → String → Bool
  has_capability e cap = some_of (λ c. c == cap) e.capabilities

  unfoldable pub add_capability : Entity → String → Entity
  unfolding has_capability
  add_capability e cap =
      if has_capability e cap then e else record e { capabilities = e.capabilities ++ cap ∷ [] }

  unfoldable pub add_relationship : Entity → String → String → Entity
  add_relationship e rel_type target_id = record e {
    relationships =
        e.relationships ++ record { relation_type = rel_type; target_id = target_id } ∷ [];
  }

  unfoldable pub get_relationships : Entity → String → List Relationship
  get_relationships e rel_type = select (λ r. r.relation_type == rel_type) e.relationships

  unfoldable pub update_state : Entity → String → Float → ℕ → Entity
  update_state e state health_score now = record e {
    state = state;
    health_score = health_score;
    last_health_check = now;
    last_seen_at = now;
  }
