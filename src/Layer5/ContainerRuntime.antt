-- ===== src/Layer5/ContainerRuntime.antt =====
-- layer5/container_runtime.go: the life of a container. Each method takes the lock for its whole body.
-- `C` is the configuration of a container, which is only stored; the id of a new container comes from
-- `uuid.New()` and is an argument.
pub mod Calls
pub mod Lifecycle
pub mod Stranded
use aizo.Prelude.{
  ℕ, String, Bool, true, false, not, ◌&&◌, ◌||◌, Option, none, some, List, [], Map, get, put,
  delete, values, select, string_eq, if◌then◌else◌,
}

pub data ContainerStatus : Type 0 where
  created running paused restarting exited dead : ContainerStatus

pub record ContainerState : Type 0 where
  pub status : ContainerStatus
  pub running : Bool
  pub paused : Bool
  pub exit_code : ℕ
  pub started_at : ℕ
  pub finished_at : ℕ

pub record Container (C : Type 0) : Type 0 where
  pub id : String
  pub name : String
  pub status : ContainerStatus
  pub state : ContainerState
  pub config : C
  pub created_at : ℕ
  pub started_at : ℕ
  pub finished_at : ℕ

pub record ContainerRuntime (C : Type 0) : Type 0 where
  pub containers : Map String (Container C)

pub data Error : Type 0 where
  not_found already_running not_running running_container not_paused : String → Error

pub data Result (A : Type 0) : Type 0 where
  ok : A → Result A
  err : Error → Result A

module _ {C : Type 0} where
  unfoldable pub new_container_runtime : ContainerRuntime C
  new_container_runtime = record { containers = [] }

  unfoldable pub create_container :
      ContainerRuntime C → String → ℕ → C → String → ContainerRuntime C × Container C
  create_container r id now config name =
      let container : Container C = record {
        id = id;
        name = name;
        status = created;
        state = record {
          status = created;
          running = false;
          paused = false;
          exit_code = 0;
          started_at = 0;
          finished_at = 0;
        };
        config = config;
        created_at = now;
        started_at = 0;
        finished_at = 0;
      } in
      (record { containers = put id container r.containers }, container)

  abbrev pub started : Container C → ℕ → Container C
  started c now = record c {
    status = running;
    state = record c.state { status = running; running = true; started_at = now };
    started_at = now;
  }

  unfoldable pub start_container :
      ContainerRuntime C → String → ℕ → ContainerRuntime C × Option Error
  start_container r id now = elim (get id r.containers) [
    | none ↦ (r, some (not_found id))
    | some c ↦
        if c.state.running
        then (r, some (already_running id))
        else (record { containers = put id (started c now) r.containers }, none)
  ]

  abbrev pub stopped : Container C → ℕ → Container C
  stopped c now = record c {
    status = exited;
    state = record c.state { status = exited; running = false; finished_at = now; exit_code = 0 };
    finished_at = now;
  }

  unfoldable pub stop_container :
      ContainerRuntime C → String → ℕ → ContainerRuntime C × Option Error
  stop_container r id now = elim (get id r.containers) [
    | none ↦ (r, some (not_found id))
    | some c ↦
        if not c.state.running
        then (r, some (not_running id))
        else (record { containers = put id (stopped c now) r.containers }, none)
  ]

  -- The container that is removed is changed before, which nobody sees who asks for it again.
  unfoldable pub remove_container :
      ContainerRuntime C → String → Bool → ContainerRuntime C × Option Error
  remove_container r id force = elim (get id r.containers) [
    | none ↦ (r, some (not_found id))
    | some c ↦
        if c.state.running && not force
        then (r, some (running_container id))
        else (record { containers = delete id r.containers }, none)
  ]

  abbrev pub paused_container : Container C → Container C
  paused_container c = record c {
    status = paused;
    state = record c.state { status = paused; paused = true };
  }

  unfoldable pub pause_container : ContainerRuntime C → String → ContainerRuntime C × Option Error
  pause_container r id = elim (get id r.containers) [
    | none ↦ (r, some (not_found id))
    | some c ↦
        if not c.state.running
        then (r, some (not_running id))
        else (record { containers = put id (paused_container c) r.containers }, none)
  ]

  abbrev pub unpaused_container : Container C → Container C
  unpaused_container c = record c {
    status = running;
    state = record c.state { status = running; paused = false };
  }

  unfoldable pub unpause_container : ContainerRuntime C → String → ContainerRuntime C × Option Error
  unpause_container r id = elim (get id r.containers) [
    | none ↦ (r, some (not_found id))
    | some c ↦
        if not c.state.paused
        then (r, some (not_paused id))
        else (record { containers = put id (unpaused_container c) r.containers }, none)
  ]

  -- `RestartContainer` lets the lock go between its two calls: `between` is what other calls do then.
  unfoldable pub restart_container :
      ContainerRuntime C
      → (ContainerRuntime C → ContainerRuntime C)
      → String
      → ℕ
      → ℕ
      → ContainerRuntime C × Option Error
  unfolding stop_container start_container
  restart_container r between id now now' =
      let (r', e) = stop_container r id now in
      elim e [ some x ↦ (r', some x) | none ↦ start_container (between r') id now' ]

  unfoldable pub get_container : ContainerRuntime C → String → Result (Container C)
  get_container r id = elim (get id r.containers) [ none ↦ err (not_found id) | some c ↦ ok c ]

  unfoldable pub list_containers : ContainerRuntime C → Bool → List (Container C)
  list_containers r all = select (λ c. all || c.state.running) (values r.containers)

  -- What GetContainerStats and ExecInContainer ask before they answer.
  unfoldable pub exec_in_container : ContainerRuntime C → String → Option Error
  exec_in_container r id = elim (get id r.containers) [
    | none ↦ some (not_found id)
    | some c ↦ if not c.state.running then some (not_running id) else none
  ]
