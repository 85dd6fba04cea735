-- ===== src/GameSession/Config.antt =====
-- apps/game-session/src/config.ts: the name of a process and the address at which it is reached. What
-- a read of the metadata file gives at each attempt, the answer of the task endpoint, the environment
-- and `Number` are arguments.
pub mod Laws
mod Tests
use gacha_mind.Base.{
  ℕ, zero, suc, Bool, true, false, ◌&&◌, ◌||◌, not, List, [], ◌∷◌, Option, none, some, Text, codes,
  text_eq, starts_with, or_else, ◌==◌, if◌then◌else◌,
}

pub record ShardIdentity : Type 0 where
  pub shard_id : Text
  pub host : Text
  pub port : ℕ

pub record EcsContainerMetadataFile : Type 0 where
  pub is_ready : Bool
  pub host_ip : Option Text

pub record PortMapping : Type 0 where
  pub container_port : ℕ
  pub host_port : Option ℕ
  pub protocol : Option Text

pub record EcsContainer : Type 0 where
  pub name : Option Text
  pub ports : Option (List PortMapping)

pub record EcsTaskMetadata : Type 0 where
  pub task_arn : Option Text
  pub containers : Option (List EcsContainer)

-- The variables of the environment that are read.
pub record Environment : Type 0 where
  pub metadata_file : Option Text
  pub metadata_uri : Option Text
  pub shard_id : Option Text
  pub advertise_host : Option Text
  pub advertise_port : Option ℕ

-- A process that is named, or one that fails to start.
pub data Resolved : Type 0 where
  resolved : ShardIdentity → Resolved
  failed : Resolved

abbrev pub metadata_ready_attempts : ℕ
metadata_ready_attempts = 20

-- `readMetadataFile`, from an attempt on; a read that throws gives `none`.
unfoldable pub read_from :
    (read : ℕ → Option EcsContainerMetadataFile)
    → (attempts attempt : ℕ) → Option EcsContainerMetadataFile
read_from read zero attempt = none
read_from read (suc n) attempt =
    let later = read_from read n (suc attempt) in
    elim (read attempt) [ none ↦ none | some meta ↦ if meta.is_ready then some meta else later ]

unfoldable pub read_metadata_file :
    (read : ℕ → Option EcsContainerMetadataFile) → Option EcsContainerMetadataFile
unfolding read_from
read_metadata_file read = read_from read metadata_ready_attempts 0

-- `arn.split("/").pop()`
unfoldable pub last_part_of : Text → Text → Text
last_part_of acc [] = acc
last_part_of acc (c ∷ s) = if c == 47 then last_part_of s s else last_part_of acc s

unfoldable pub task_id : Option Text → Text
unfolding last_part_of
task_id none = []
task_id (some arn) = last_part_of arn arn

unfoldable pub is_internal : Option Text → Bool
is_internal none = false
is_internal (some name) = starts_with name (codes "~internal~")

-- `find((c) => !c.Name?.startsWith("~internal~"))`
unfoldable pub app_container : List EcsContainer → Option EcsContainer
unfolding is_internal
app_container [] = none
app_container (c ∷ cs) = if is_internal c.name then app_container cs else some c

-- 0 counts as no host port.
unfoldable pub has_port : Option ℕ → Bool
has_port none = false
has_port (some zero) = false
has_port (some (suc n)) = true

unfoldable pub serves : ℕ → PortMapping → Bool
unfolding has_port
serves port p =
    p.container_port == port
    && (text_eq (or_else p.protocol (codes "tcp")) (codes "tcp") && has_port p.host_port)

unfoldable pub find_mapping : ℕ → List PortMapping → Option PortMapping
unfolding serves
find_mapping port [] = none
find_mapping port (p ∷ ps) = if serves port p then some p else find_mapping port ps

unfoldable pub mapping_of : ℕ → Option EcsContainer → Option PortMapping
unfolding find_mapping
mapping_of port none = none
mapping_of port (some c) = find_mapping port (or_else c.ports [])

-- The checks at the end: a task, an address and a port.
unfoldable pub identity_from : Option Text → Text → Option Text → Option PortMapping → Resolved
identity_from name [] host mapping = failed
identity_from name (c ∷ task) none mapping = failed
identity_from name (c ∷ task) (some []) mapping = failed
identity_from name (c ∷ task) (some (d ∷ host)) none = failed
identity_from name (c ∷ task) (some (d ∷ host)) (some p) = elim p.host_port [
  | none ↦ failed
  | some port ↦
      if port == 0
      then failed
      else resolved (record { shard_id = or_else name (c ∷ task); host = d ∷ host; port = port })
]

unfoldable pub from_metadata :
    Environment → (port : ℕ) → Option EcsContainerMetadataFile → Option EcsTaskMetadata → Resolved
unfolding task_id app_container mapping_of identity_from
from_metadata env port none task = failed
from_metadata env port (some file) none = failed
from_metadata env port (some file) (some task) =
    identity_from env.shard_id (task_id task.task_arn) file.host_ip
      (mapping_of port (app_container (or_else task.containers [])))

-- An empty variable counts as unset where the code asks whether it is there.
unfoldable pub is_set : Option Text → Bool
is_set none = false
is_set (some []) = false
is_set (some (c ∷ s)) = true

unfoldable pub resolve_shard_identity :
    Environment
    → (port : ℕ) → (port_text : Text) → (read : ℕ → Option EcsContainerMetadataFile)
    → Option EcsTaskMetadata
    → Resolved
unfolding is_set from_metadata read_metadata_file
resolve_shard_identity env port port_text read task =
    if is_set env.metadata_file && is_set env.metadata_uri
    then from_metadata env port (read_metadata_file read) task
    else resolved (record {
      shard_id = or_else env.shard_id port_text;
      host = or_else env.advertise_host (codes "127.0.0.1");
      port = or_else env.advertise_port port;
    })
