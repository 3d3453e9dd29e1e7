-- ===== src/Layer2/Catalog/Stale.antt =====
-- What a change behind the catalog's back does to its indexes: `RegistrationAPI.UpdateState`
-- (layer2/registration.go) changes the shared entity before `Register` (layer2/catalog.go) looks up
-- under which state it stood.
use mathlib.Core.List.{Memᴰ}
use aizo.Prelude.{ℕ, ◌≡◌, ◌≢◌, ap, String, some, get, get-put, string_eq, nat_eq, arith}
use aizo.Layer2.Entity.{Go, update_state}
use aizo.Layer2.Index.{index_at, index_add, index_remove, Mem-snoc, index_at-add, index_at-remove}
use aizo.Layer2.Catalog.{Catalog, get_entity, list_by_state, api_update_state}
use aizo.Layer2.Catalog.Indexing.{IsValid, Mem-registered}

module _ (go : Go) (c : Catalog go) (id : String) (p : ℕ) (state : String) (score : go.Float)
    (now : ℕ) where
  record Updated (c' : Catalog go) : Type 0 where
    heap : c'.heap p ≡ update_state go (c.heap p) state score now
    entities : get id c'.entities ≡ some p
    by_state : c'.by_state ≡ index_add state id (index_remove state id c.by_state)

  api_update_state-Updated :
      IsValid go c
      → get_entity go c id ≡ some p
      → id ≢ ""
      → Updated (api_update_state go c id state score now).0
  unfolding api_update_state get_entity update_state
  api_update_state-Updated v g named =
      let key = v.keyed id p g in
      let same = ap (λ x. get x c.entities) key in
      record {
        heap = ground (arith, key, same);
        entities = ground (arith, key, same, get-put (c.heap p).id id p c.entities);
        by_state = ground (arith, key, same);
      }

  -- In a valid catalog, updating the state of a registered entity to another one leaves the entity
  -- listed under the state that it had, although its state is then the new one; it is listed under
  -- the new one too.
  pub api_update_state_stale :
      IsValid go c
      → get_entity go c id ≡ some p
      → id ≢ ""
      → (c.heap p).state ≢ state
      → let c' = (api_update_state go c id state score now).0 in
        ((c'.heap p).state ≡ state)
        × Memᴰ p (list_by_state go c' (c.heap p).state)
        × Memᴰ p (list_by_state go c' state)
  unfolding get_entity update_state list_by_state
  api_update_state_stale v g named other =
      let c' = (api_update_state go c id state score now).0 in
      let u = api_update_state-Updated v g named in
      let old = (c.heap p).state in
      let listed = (v.states.mem old id).1 (ground arith) in
      let removed = index_remove state id c.by_state in
      let kept : index_at old (index_add state id removed) ≡ index_at old c.by_state =
        ground
          (arith, index_at-add old state id removed, index_at-remove old state id c.by_state) in
      (
        ground (arith, u.heap),
        (Mem-registered go c'.entities (index_at old c'.by_state) p).1
            (id, rw (u.by_state, kept) listed, u.entities),
        (Mem-registered go c'.entities (index_at state c'.by_state) p).1 (
          id,
          rw (u.by_state, index_at-add) (ground (arith, Mem-snoc id id (index_at state removed))),
          u.entities,
        ),
      )
