-- ===== src/Fleet/Docker.antt =====
-- apps/fleet-monitor/src/probes/docker.ts: what a docker endpoint says of its containers.
use Prim.Native.Char.{code}
use wizteros.Common.{
  nat_eq, if◌then◌else◌, is_some, and_then, to_list, text_or_empty, String, Bool, Option, none,
  some, List, [], ◌++◌, ◌==◌,
}
use wizteros.Json.{Json, array, Items, end, next, Fields, get, row_of, as_text}
use wizteros.Fleet.Like.{some_end, after_prefix}

pub data ContainerHealth : Type 0 where
  healthy unhealthy no_healthcheck : ContainerHealth

-- `ContainerState`
pub record ContainerState : Type 0 where
  pub name : String
  pub running : Bool
  pub health : ContainerHealth

-- `whole.includes(part)`
unfoldable pub includes : (whole part : String) → Bool
unfolding some_end after_prefix
includes whole part = some_end (λ rest. is_some (after_prefix part rest)) whole

-- `health`
unfoldable pub health_of : (status : String) → ContainerHealth
unfolding includes
health_of status =
    if includes status "(healthy)"
    then healthy
    else if includes status "(unhealthy)"
    then unhealthy
    else no_healthcheck

-- `text.replace(/^\/+/, '')`
unfoldable pub drop_slashes : String → String
drop_slashes String.[] = ""
drop_slashes (String.◌∷◌ c s) =
    let rest = drop_slashes s in if nat_eq (code c) b'/' then rest else String.◌∷◌ c s

-- `names[0]`, of an array
unfoldable pub first_item : Option Json → Option Json
first_item (some (array (next first more))) = some first
first_item _ = none

-- One entry; none for one without a name.
unfoldable pub container_of : Fields → Option ContainerState
unfolding get as_text first_item drop_slashes health_of
container_of entry =
    let name = drop_slashes (text_or_empty (as_text (first_item (get "Names" entry)))) in
    if name == ""
    then none
    else some (record {
      name = name;
      running = text_or_empty (as_text (get "State" entry)) == "running";
      health = health_of (text_or_empty (as_text (get "Status" entry)));
    })

-- `parseContainers`: what is no object is skipped
unfoldable pub parse_containers : Items → List ContainerState
unfolding row_of container_of
parse_containers end = []
parse_containers (next item more) =
    to_list (and_then (row_of (some item)) container_of) ++ parse_containers more
