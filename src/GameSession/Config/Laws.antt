-- ===== src/GameSession/Config/Laws.antt =====
-- What a name that comes from the metadata rests on.
use gacha_mind.Base.{
  ℕ, zero, suc, ◌+◌, ◌<◌, ◌≡◌, ◌≢◌, refl, sym, ap, ◌∙◌, inl, inr, true, false, ◌&&◌, List, [], ◌∷◌,
  Option, none, some, Text, or_else, arith, Memᴰ, ◌==◌, if◌then◌else◌, Bool-cases, Option-cases,
  subst, ==→ne,
}
use gacha_mind.GameSession.Config.{
  ShardIdentity, EcsContainerMetadataFile, PortMapping, EcsContainer, EcsTaskMetadata, Environment,
  resolved, failed, read_from, read_metadata_file, is_internal, app_container, serves, find_mapping,
  mapping_of, identity_from, from_metadata, is_set, resolve_shard_identity, task_id,
}

-- The file was read at one of the attempts, and was ready.
pub record WasRead (read : ℕ → Option EcsContainerMetadataFile) (file : EcsContainerMetadataFile)
    : Type 0 where
  pub attempt : ℕ
  pub in_time : attempt < 20
  pub answer : read attempt ≡ some file
  pub ready : file.is_ready ≡ true

read_from-WasRead :
    (read : ℕ → Option EcsContainerMetadataFile) (n k : ℕ) (file : EcsContainerMetadataFile)
    → read_from read n k ≡ some file
    → (j : ℕ) × (j < k + n) × (read j ≡ some file) × (file.is_ready ≡ true)
unfolding read_from
read_from-WasRead read zero k file e = absurd (none_some e)
  where
    none_some : {x : EcsContainerMetadataFile} → none ≡ some x → ⊥
    none_some e = cc
read_from-WasRead read (suc n) k file e = elim (Option-cases (read k)) [
  | inl h ↦ absurd (none_some (rw (read_from, h) at e))
  | inr (meta, h) ↦ elim (Bool-cases meta.is_ready) [
    | inl ready ↦
        let same : meta ≡ file = some_inj (
          ap (λ b. if b then some meta else read_from read n (suc k)) (sym ready)
          ∙ rw (read_from, h) at e) in
        (k, omega arith, h ∙ ap some same, ap (λ m. m.is_ready) (sym same) ∙ ready)
    | inr early ↦
        let (j, below, at_j, ready) =
          read_from-WasRead read n (suc k) file (rw (read_from, h, early) at e) in
        (j, omega (arith, below), at_j, ready)
  ]
]
  where
    none_some : {x : EcsContainerMetadataFile} → none ≡ some x → ⊥
    none_some e = cc

    some_inj : {x y : EcsContainerMetadataFile} → some x ≡ some y → x ≡ y
    some_inj e = cc

find_mapping-some :
    (port : ℕ) (ps : List PortMapping) (p : PortMapping)
    → find_mapping port ps ≡ some p
    → Memᴰ p ps × (serves port p ≡ true)
unfolding find_mapping
find_mapping-some port [] p e = cc
find_mapping-some port (q ∷ ps) p e = elim (Bool-cases (serves port q)) [
  | inl here ↦
      let same : q ≡ p = some_inj (rw here at e) in
      (Memᴰ.head (sym same), ap (serves port) (sym same) ∙ here)
  | inr there ↦ let (m, s) = find_mapping-some port ps p (rw there at e) in (Memᴰ.tail m, s)
]
  where
    some_inj : {x y : PortMapping} → some x ≡ some y → x ≡ y
    some_inj e = cc

app_container-some :
    (cs : List EcsContainer) (c : EcsContainer)
    → app_container cs ≡ some c
    → Memᴰ c cs × (is_internal c.name ≡ false)
unfolding app_container
app_container-some [] c e = cc
app_container-some (d ∷ cs) c e = elim (Bool-cases (is_internal d.name)) [
  | inr here ↦
      let same : d ≡ c = some_inj (rw here at e) in
      (Memᴰ.head (sym same), ap (λ x. is_internal x.name) (sym same) ∙ here)
  | inl there ↦ let (m, s) = app_container-some cs c (rw there at e) in (Memᴰ.tail m, s)
]
  where
    some_inj : {x y : EcsContainer} → some x ≡ some y → x ≡ y
    some_inj e = cc

-- What a name and an address stand on: the metadata file of an attempt in time, and a TCP mapping of
-- the process's own port in a container that is not one of ECS.
pub record IsServed (env : Environment) (port : ℕ) (read : ℕ → Option EcsContainerMetadataFile)
    (task : EcsTaskMetadata) (i : ShardIdentity) : Type 0 where
  pub file : EcsContainerMetadataFile
  pub container : EcsContainer
  pub mapping : PortMapping
  pub was_read : WasRead read file
  pub listed : Memᴰ container (or_else task.containers [])
  pub own : is_internal container.name ≡ false
  pub mapped : Memᴰ mapping (or_else container.ports [])
  pub serving : serves port mapping ≡ true
  pub named : i.shard_id ≡ or_else env.shard_id (task_id task.task_arn)
  pub hosted : file.host_ip ≡ some i.host
  pub host_known : i.host ≢ []
  pub at_port : mapping.host_port ≡ some i.port
  pub port_known : i.port ≢ 0

identity_from-resolved :
    (name : Option Text) (task : Text) (host : Option Text) (found : Option PortMapping)
    (i : ShardIdentity)
    → identity_from name task host found ≡ resolved i
    → (i.shard_id ≡ or_else name task)
      × (host ≡ some i.host)
      × (i.host ≢ [])
      × ((p : PortMapping) × (found ≡ some p) × (p.host_port ≡ some i.port) × (i.port ≢ 0))
unfolding identity_from
identity_from-resolved name [] host found i e = cc
identity_from-resolved name (c ∷ task) none found i e = cc
identity_from-resolved name (c ∷ task) (some []) found i e = cc
identity_from-resolved name (c ∷ task) (some (d ∷ host)) none i e = cc
identity_from-resolved name (c ∷ task) (some (d ∷ host)) (some p) i e =
    elim (Option-cases p.host_port) [
      | inl none_there ↦ absurd (not_resolved (rw (identity_from, none_there) at e))
      | inr (port, there) ↦ elim (Bool-cases (port == 0)) [
        | inl zero_port ↦ absurd (not_resolved (rw (identity_from, there, zero_port) at e))
        | inr good ↦
            let same = resolved_inj (rw (identity_from, there, good) at e) in
            (
              ap (λ x. x.shard_id) (sym same),
              ap (λ x. some x.host) same,
              subst (λ x. x.host ≢ []) same (λ z. cc),
              (
                p,
                refl,
                there ∙ ap (λ x. some x.port) same,
                subst (λ x. x.port ≢ 0) same (==→ne port 0 good),
              ),
            )
      ]
    ]
  where
    not_resolved : {x : ShardIdentity} → failed ≡ resolved x → ⊥
    not_resolved e = cc

    resolved_inj : {x y : ShardIdentity} → resolved x ≡ resolved y → x ≡ y
    resolved_inj e = cc

mapping_of-some :
    (port : ℕ) (found : Option EcsContainer) (p : PortMapping)
    → mapping_of port found ≡ some p
    → (c : EcsContainer) × (found ≡ some c) × (find_mapping port (or_else c.ports []) ≡ some p)
unfolding mapping_of
mapping_of-some port none p e = cc
mapping_of-some port (some c) p e = (c, refl, e)

from_metadata-IsServed :
    (env : Environment) (port : ℕ) (read : ℕ → Option EcsContainerMetadataFile)
    (file : Option EcsContainerMetadataFile) (task : EcsTaskMetadata) (i : ShardIdentity)
    → read_metadata_file read ≡ file
    → from_metadata env port file (some task) ≡ resolved i
    → IsServed env port read task i
unfolding from_metadata read_metadata_file
from_metadata-IsServed env port read none task i r e = absurd (not_resolved e)
  where
    not_resolved : failed ≡ resolved i → ⊥
    not_resolved e = cc
from_metadata-IsServed env port read (some file) task i r e =
    let (named, hosted, known, (p, found, at, port_known)) =
      identity_from-resolved env.shard_id (task_id task.task_arn) file.host_ip _ i e in
    let (c, own, mapped) = mapping_of-some port _ p found in
    let (listed, outside) = app_container-some (or_else task.containers []) c own in
    let (inside, serving) = find_mapping-some port (or_else c.ports []) p mapped in
    let (j, in_time, answer, ready) = read_from-WasRead read 20 0 file r in
    record {
      file = file;
      container = c;
      mapping = p;
      was_read = record {
        attempt = j;
        in_time = omega (arith, in_time);
        answer = answer;
        ready = ready;
      };
      listed = listed;
      own = outside;
      mapped = inside;
      serving = serving;
      named = named;
      hosted = hosted;
      host_known = known;
      at_port = at;
      port_known = port_known;
    }

-- With both variables of the metadata set, a process that gets a name has read the file in one of its
-- twenty attempts when it was ready, and is reached at the address of that file and at the host port,
-- which is not 0, of a TCP mapping of its own port, in a container that is not one of ECS.
pub resolve_shard_identity-IsServed :
    (env : Environment) (port : ℕ) (port_text : Text) (read : ℕ → Option EcsContainerMetadataFile)
    (task : EcsTaskMetadata) (i : ShardIdentity)
    → (is_set env.metadata_file && is_set env.metadata_uri) ≡ true
    → resolve_shard_identity env port port_text read (some task) ≡ resolved i
    → IsServed env port read task i
unfolding resolve_shard_identity
resolve_shard_identity-IsServed env port port_text read task i set e =
    from_metadata-IsServed env port read (read_metadata_file read) task i refl (rw set at e)
