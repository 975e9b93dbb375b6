-- ===== src/Transfer.antt =====
-- internal/application/transfer/service.go: content-addressed copies that resume and are verified.
pub mod Delivered
pub mod Coordinator
pub mod Prepared
use Prim.Native.String.{◌++◌ as text_append}
use akoflow_workflow_engine.Prelude.{
  ℕ, String, Bool, true, false, not, ◌&&◌, ◌==◌, Option, none, some, List, [], ◌∷◌, ◌++◌, Result,
  ok, err, ◌>>=◌, if◌then◌else◌, is_empty, length, nat_eq,
}
use akoflow_workflow_engine.Prelude.Int.{ℤ, pos, add_ℤ, sub_ℤ, ltb_ℤ, leb_ℤ}
use akoflow_workflow_engine.Prelude.Maps.{StringMap, lookup}
use akoflow_workflow_engine.Domain.Values.{Float, zero_float}
use akoflow_workflow_engine.Domain.Materialization.{
  ArtifactMaterialization, BlobDescriptor, DataTransferPlan, DataTransferRun, TransferEndpoint,
  TransferLocation, TransferStrategy, use_existing, destination_pull, source_push, other_strategy,
  transfer_planned, transfer_running, transfer_completed, transfer_failed, other_transfer,
  committed, failed,
}

pub data TransferError : Type 0 where
  no_connector : (uri : String) → TransferError
  transfer_agent_required : TransferError
  port_failed : (cause : String) → TransferError
  checksum_mismatch : (digest : String) → TransferError

-- ports.TransferConnector; `W` is the state of the stores. `open` answers a reader, which gives bytes or fails. Reading changes
-- nothing.
pub record Connector (W : Type 0) : Type 0 where
  pub can_handle : TransferEndpoint → Bool
  pub exists : TransferEndpoint → String → W → Result String Bool
  pub read_from : TransferEndpoint → String → ℤ → W → Result String (Result String (List ℕ))
  pub put :
      TransferEndpoint → String → Result String (List ℕ) → ℤ → W → Result String (Unit {0}) × W
  pub commit : TransferEndpoint → String → String → W → Result String (Unit {0}) × W

-- What the packages crypto/sha256, path and strings and the clock compute: the digest of bytes in hexadecimal, path.Join, and
-- strings.TrimPrefix(s, "sha256:").
pub record Tools (W : Type 0) : Type 0 where
  pub hash : List ℕ → String
  pub path_join : String → String → String
  pub trim_scheme : String → String
  pub quoted : String → String
  pub now : W → Float × W

abbrev pub is_available : Option Bool → Bool
is_available none = false
is_available (some b) = b

unfoldable pub missing : StringMap Bool → List BlobDescriptor → List BlobDescriptor
missing available [] = []
missing available (b ∷ blobs) =
    let rest = missing available blobs in
    if is_available (lookup b.digest available) then rest else b ∷ rest

abbrev pub planned :
    TransferStrategy → TransferLocation → TransferLocation → List BlobDescriptor → DataTransferPlan
planned strategy source destination blobs = record {
  id = "";
  strategy = strategy;
  source = source;
  destination = destination;
  blobs = blobs;
  chunks = [];
  resume_from = [];
}

-- `Plan`
unfoldable pub plan :
    TransferLocation → TransferLocation → List BlobDescriptor → StringMap Bool → DataTransferPlan
unfolding missing
plan source destination blobs available =
    if source.uri == destination.uri && source.path == destination.path
    then planned use_existing source destination []
    else planned source_push source destination (missing available blobs)

abbrev pub endpoint_at : String → TransferEndpoint
endpoint_at uri = record {
  id = "";
  kind = "";
  uri = uri;
  resource_id = "";
  environment_id = "";
  configuration = [];
}

abbrev pub source_name : String → String → ℕ → String
source_name configured digest count =
    if not (is_empty configured) && nat_eq count 1 then configured else digest

abbrev pub lift_port {ℓ} : {A : Type ℓ} → Result String A → Result TransferError A
lift_port (ok a) = ok a
lift_port (err cause) = err (port_failed cause)

abbrev pub run_of : DataTransferPlan → TransferStrategy → DataTransferRun
run_of plan strategy = record {
  id = plan.id;
  plan_id = plan.id;
  strategy = strategy;
  status = transfer_planned;
  verified_blobs = [];
  completed_chunks = [];
  started_at = zero_float;
  finished_at = zero_float;
  transferred_bytes = pos 0;
  error = "";
}

abbrev pub no_run : DataTransferRun
no_run = record {
  id = "";
  plan_id = "";
  strategy = other_strategy "";
  status = other_transfer "";
  verified_blobs = [];
  completed_chunks = [];
  started_at = zero_float;
  finished_at = zero_float;
  transferred_bytes = pos 0;
  error = "";
}

abbrev pub strategy_of : TransferStrategy → TransferStrategy
strategy_of (other_strategy s) = if is_empty s then source_push else other_strategy s
strategy_of use_existing = use_existing
strategy_of s = s

abbrev pub is_pull : TransferStrategy → Bool
is_pull destination_pull = true
is_pull _ = false

-- What `Materialize` returns, and the state that it leaves.
pub record Materialized (W : Type 0) : Type 0 where
  pub target : ArtifactMaterialization
  pub run : DataTransferRun
  pub error : Option TransferError
  pub world : W

abbrev pub source : DataTransferPlan → TransferEndpoint
source plan = endpoint_at plan.source.uri

abbrev pub destination : DataTransferPlan → TransferEndpoint
destination plan = endpoint_at plan.destination.uri

abbrev pub name_at_source : DataTransferPlan → String → String
name_at_source plan digest = source_name plan.source.path digest (length plan.blobs)

module _ {W : Type 0} (tools : Tools W) where
  unfoldable pub destination_name : String → String → String
  destination_name root digest = if is_empty root then digest else tools.path_join root digest

  unfoldable pub final_name : DataTransferPlan → String → String
  unfolding destination_name
  final_name plan digest = destination_name plan.destination.path digest

  unfoldable pub partial_name : DataTransferPlan → String → String
  unfolding final_name
  partial_name plan digest = text_append (final_name plan digest) ".partial"

  abbrev pub counted : Result String (List ℕ) → Result String ℤ
  counted (ok bytes) = ok (pos (length bytes))
  counted (err cause) = err cause

  abbrev pub size_if : Connector W → TransferEndpoint → String → W → Bool → Result String ℤ
  size_if c endpoint name w false = ok (pos 0)
  size_if c endpoint name w true = c.read_from endpoint name (pos 0) w >>= counted

  unfoldable pub size : Connector W → TransferEndpoint → String → W → Result String ℤ
  size c endpoint name w = c.exists endpoint name w >>= size_if c endpoint name w

  -- The bytes have the digest.
  abbrev pub matches : String → List ℕ → Bool
  matches expected bytes =
      tools.trim_scheme (text_append "sha256:" (tools.hash bytes)) == tools.trim_scheme expected

  abbrev pub compared : String → Result String (List ℕ) → Result String Bool
  compared expected (ok bytes) = ok (matches expected bytes)
  compared expected (err cause) = err cause

  abbrev pub verify_if :
      Connector W → TransferEndpoint → String → String → W → Bool → Result String Bool
  verify_if c endpoint name expected w false = ok false
  verify_if c endpoint name expected w true =
      c.read_from endpoint name (pos 0) w >>= compared expected

  unfoldable pub verify :
      Connector W → TransferEndpoint → String → (expected : String) → W → Result String Bool
  verify c endpoint name expected w =
      c.exists endpoint name w >>= verify_if c endpoint name expected w

  abbrev pub is_verified : Result String Bool → Bool
  is_verified (ok b) = b
  is_verified (err cause) = false

  abbrev pub message : TransferError → String
  message (no_connector uri) = text_append "no connector for endpoint " (tools.quoted uri)
  message transfer_agent_required = "destination-pull requires a destination transfer agent"
  message (port_failed cause) = cause
  message (checksum_mismatch digest) = text_append "checksum mismatch for " digest

  -- What `failed` returns.
  unfoldable pub failed_with :
      ArtifactMaterialization → DataTransferRun → TransferError → W → Materialized W
  failed_with target run e w =
      let (now, w1) = tools.now w in
      let ended = not (nat_eq run.finished_at 0) in
      record {
        target = record target { status = failed };
        run = record run {
          status = transfer_failed;
          error = message e;
          finished_at = if ended then run.finished_at else now;
        };
        error = some e;
        world = if ended then w else w1;
      }

  -- One round of the loop over the blobs, from a run and a state.
  abbrev pub Copied : Type 0
  Copied = Result TransferError (Unit {0}) × DataTransferRun × W

  abbrev pub with_blob : String → DataTransferRun → DataTransferRun
  with_blob digest run = record run { verified_blobs = run.verified_blobs ++ digest ∷ [] }

  abbrev pub with_bytes : ℤ → ℤ → DataTransferRun → DataTransferRun
  with_bytes size_bytes offset run =
      if ltb_ℤ offset size_bytes
      then record run { transferred_bytes = add_ℤ run.transferred_bytes (sub_ℤ size_bytes offset) }
      else run

  abbrev pub after_commit : String → DataTransferRun → Result String (Unit {0}) × W → Copied
  after_commit digest run (ok u, w) = (ok tt, with_blob digest run, w)
  after_commit digest run (err cause, w) = (err (port_failed cause), run, w)

  module _ (plan : DataTransferPlan) (sc dc : Connector W) where
    abbrev pub after_verify : String → DataTransferRun → W → Result String Bool → Copied
    after_verify digest run w (err cause) = (err (port_failed cause), run, w)
    after_verify digest run w (ok false) = (err (checksum_mismatch digest), run, w)
    after_verify digest run w (ok true) =
        after_commit digest run
          (dc.commit (destination plan) (partial_name plan digest) (final_name plan digest) w)

    abbrev pub after_size : String → (offset : ℤ) → DataTransferRun → W → Result String ℤ → Copied
    after_size digest offset run w (err cause) = (err (port_failed cause), run, w)
    after_size digest offset run w (ok size_bytes) =
        after_verify digest (with_bytes size_bytes offset run) w
          (verify dc (destination plan) (partial_name plan digest) digest w)

    abbrev pub size_of : BlobDescriptor → W → Result String ℤ
    size_of b w =
        if leb_ℤ b.size_bytes (pos 0)
        then size sc (source plan) (name_at_source plan b.digest) w
        else ok b.size_bytes

    abbrev pub after_put :
        BlobDescriptor → (offset : ℤ) → DataTransferRun → Result String (Unit {0}) × W → Copied
    after_put b offset run (err cause, w) = (err (port_failed cause), run, w)
    after_put b offset run (ok u, w) = after_size b.digest offset run w (size_of b w)

    abbrev pub after_open :
        BlobDescriptor
        → (offset : ℤ) → DataTransferRun
        → W
        → Result String (Result String (List ℕ))
        → Copied
    after_open b offset run w (err cause) = (err (port_failed cause), run, w)
    after_open b offset run w (ok input) =
        after_put b offset run
          (dc.put (destination plan) (partial_name plan b.digest) input offset w)

    abbrev pub after_offset : BlobDescriptor → DataTransferRun → W → Result String ℤ → Copied
    after_offset b run w (err cause) = (err (port_failed cause), run, w)
    after_offset b run w (ok offset) =
        after_open b offset run w
          (sc.read_from (source plan) (name_at_source plan b.digest) offset w)

    -- A complete object of the digest is not copied again; a partial one is resumed.
    unfoldable pub copy_blob : BlobDescriptor → DataTransferRun → W → Copied
    copy_blob b run w =
        if is_verified (verify dc (destination plan) (final_name plan b.digest) b.digest w)
        then (ok tt, with_blob b.digest run, w)
        else after_offset b run w (size dc (destination plan) (partial_name plan b.digest) w)

    abbrev pub next_blob : (DataTransferRun → W → Copied) → Copied → Copied
    next_blob rest (err e, run, w) = (err e, run, w)
    next_blob rest (ok u, run, w) = rest run w

    unfoldable pub copy_blobs : List BlobDescriptor → DataTransferRun → W → Copied
    unfolding copy_blob
    copy_blobs [] run w = (ok tt, run, w)
    copy_blobs (b ∷ blobs) run w = next_blob (copy_blobs blobs) (copy_blob b run w)

  abbrev pub finished : ArtifactMaterialization → Copied → Materialized W
  finished target (err e, run, w) = failed_with target run e w
  finished target (ok u, run, w) =
      let (now, w1) = tools.now w in
      record {
        target = record target { status = committed; verified_digest = target.digest };
        run = record run { status = transfer_completed; finished_at = now };
        error = none;
        world = w1;
      }

  unfoldable pub connector :
      List (Connector W) → TransferEndpoint → Result TransferError (Connector W)
  connector [] endpoint = err (no_connector endpoint.uri)
  connector (c ∷ connectors) endpoint =
      let rest = connector connectors endpoint in if c.can_handle endpoint then ok c else rest

  -- The endpoints have their connectors.
  abbrev pub connected :
      DataTransferPlan → Connector W → Connector W → ArtifactMaterialization → W → Materialized W
  connected plan sc dc target w =
      let strategy = strategy_of plan.strategy in
      let (now, w1) = tools.now w in
      let run = record (run_of plan strategy) { status = transfer_running; started_at = now } in
      let copied = copy_blobs plan sc dc plan.blobs run w1 in
      if is_pull strategy
      then failed_with target (run_of plan strategy) transfer_agent_required w
      else finished target copied

  abbrev pub unconnected : ArtifactMaterialization → TransferError → W → Materialized W
  unconnected target e w = record { target = target; run = no_run; error = some e; world = w }

  abbrev pub from_source :
      DataTransferPlan
      → ArtifactMaterialization
      → W
      → Result TransferError (Connector W)
      → Result TransferError (Connector W)
      → Materialized W
  from_source plan target w (err e) dc = unconnected target e w
  from_source plan target w (ok sc) (err e) = unconnected target e w
  from_source plan target w (ok sc) (ok dc) = connected plan sc dc target w

  unfoldable pub materialize :
      List (Connector W) → DataTransferPlan → ArtifactMaterialization → W → Materialized W
  unfolding connector copy_blobs failed_with
  materialize connectors plan target w =
      from_source plan target w (connector connectors (endpoint_at plan.source.uri))
        (connector connectors (endpoint_at plan.destination.uri))
