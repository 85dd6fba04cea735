-- ===== src/GameSession/Config/Tests.antt =====
-- A task whose metadata file is ready at the second attempt.
use gacha_mind.Base.{
  ℕ, zero, suc, ◌≡◌, refl, true, false, ◌&&◌, [], ◌∷◌, Option, none, some, codes, text_eq,
  starts_with,
}
use gacha_mind.GameSession.Config.{
  ShardIdentity, EcsContainerMetadataFile, EcsTaskMetadata, Environment, resolved, is_set,
  resolve_shard_identity, from_metadata, read_metadata_file, read_from, task_id, last_part_of,
  app_container, is_internal, mapping_of, find_mapping, serves, has_port, identity_from,
}
use gacha_mind.GameSession.Config.Laws.{IsServed, resolve_shard_identity-IsServed}

abbrev env : Environment
env = record {
  metadata_file = some (codes "/f");
  metadata_uri = some (codes "/u");
  shard_id = none;
  advertise_host = none;
  advertise_port = none;
}

abbrev reads : ℕ → Option EcsContainerMetadataFile
reads zero = some (record { is_ready = false; host_ip = none })
reads (suc n) = some (record { is_ready = true; host_ip = some (codes "10.0.0.7") })

abbrev task : EcsTaskMetadata
task = record {
  task_arn = some (codes "arn/c/0f3a");
  containers = some (
      record { name = some (codes "~internal~pause"); ports = none }
      ∷ record {
        name = some (codes "app");
        ports = some (
            record { container_port = 4001; host_port = some 32768; protocol = some (codes "tcp") }
            ∷ []);
      }
      ∷ []);
}

abbrev here : ShardIdentity
here = record { shard_id = codes "0f3a"; host = codes "10.0.0.7"; port = 32768 }

both_set : (is_set env.metadata_file && is_set env.metadata_uri) ≡ true
unfolding is_set
both_set = refl

is_here : resolve_shard_identity env 4001 (codes "4001") reads (some task) ≡ resolved here
unfolding resolve_shard_identity is_set from_metadata read_metadata_file read_from task_id
    last_part_of app_container is_internal mapping_of find_mapping serves has_port identity_from
    text_eq starts_with
is_here = refl

resolve_shard_identity-IsServed_example : IsServed env 4001 reads task here
resolve_shard_identity-IsServed_example =
    resolve_shard_identity-IsServed env 4001 (codes "4001") reads task here both_set is_here
